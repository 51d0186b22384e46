-- ===== src/Examples/Limits.antt =====
-- Examples on the rate limiter and on the renewal of the Vault token.
use elysium.Prelude.{
  ◌+◌, ℕ, ◌*◌, ◌≡◌, ◌≢◌, refl, true, false, none, some, List, [], ◌∷◌, lit, ◌==◌, arith, ◌<◌, ◌≤◌,
  ◌⊎◌, ◌-◌,
}
use elysium.Domain.Session.{second}
use elysium.Vault.Client.{Round, renew_token, sleep_for, retry_late}
use elysium.Handler.RateLimit.{Rate, Clients, client_of, cleanup, allowed, limiter_of}
use elysium.Handler.RateLimit.Laws.{allowed_apart, cleanup_after}
use elysium.Handler.RateLimit.Locks.{here, next, lock, initial, count, sweeping, sweep_exclusive}
use elysium.Examples.Users.{codec}

sweep_exclusive_example :
    (count 3 (3 ∷ []) ≤ 1) × ((initial.phase ≢ sweeping) ⊎ (count 3 (3 ∷ []) ≡ 0))
unfolding count
sweep_exclusive_example = sweep_exclusive _ 3 (next here (lock 3 (omega arith) refl)) (omega arith)

-- A limiter that allows as many requests as its number says.
abbrev rate : Rate ℕ
rate = record { new_limiter = 2; allow = λ n now. (true, n - 1) }

abbrev seen : Clients ℕ
seen = (lit "10.0.0.1", record { limiter = 1; last_seen = 5 }) ∷ []

allowed_apart_example :
    (client_of (lit "10.0.0.2") (allowed rate (lit "10.0.0.1") 6 7 seen).1
      ≡ client_of (lit "10.0.0.2") seen)
    × (client_of (lit "10.0.0.1") (allowed rate (lit "10.0.0.1") 6 7 seen).1
        ≡ some (record { limiter = 0; last_seen = 6 }))
    × ((allowed rate (lit "10.0.0.1") 6 7 seen).0 ≡ true)
unfolding client_of limiter_of ◌==◌
allowed_apart_example = allowed_apart rate (lit "10.0.0.1") (lit "10.0.0.2") 6 7 seen refl

cleanup_after_example :
    ((2 * second ≤ 6 + 300000000000)
      × (limiter_of rate (
            client_of
              (lit "10.0.0.1")
              (cleanup (2 * second) (allowed rate (lit "10.0.0.1") 6 7 seen).1))
          ≡ 0))
    ⊎ ((6 + 300000000000 < 2 * second)
        × (limiter_of rate (
              client_of
                (lit "10.0.0.1")
                (cleanup (2 * second) (allowed rate (lit "10.0.0.1") 6 7 seen).1))
            ≡ 2))
unfolding client_of limiter_of ◌==◌
cleanup_after_example = cleanup_after rate (lit "10.0.0.1") 6 7 (2 * second) seen (refl, tt)

abbrev fails : Round
fails = record { stopped = false; renewal = none; stopped_retry = false }

retry_late_example :
    (again : ℕ) × (later : List ℕ) × (renew_token 0 (some (60 * second)) (fails ∷ fails ∷ [])
      ≡ sleep_for (60 * second) ∷ again ∷ later)
    × (60 * second < again)
unfolding sleep_for
retry_late_example = retry_late 0 (60 * second - 1) fails fails [] refl refl refl refl
