-- ===== src/Vault/Client.antt =====
-- internal/vault/client.go: the AppRole login of `New`, and the background renewal of the token. Times
-- are in nanoseconds.
use elysium.Prelude.{
  ℕ, zero, suc, ◌+◌, ◌*◌, ◌/◌, ◌≤◌, ◌<◌, ◌≡◌, refl, Bool, true, false, Option, none, some, List, [],
  ◌∷◌, ◌⊎◌, inl, inr, Text, ltb, if◌then◌else◌, arith, Bool-cases,
}
use elysium.Errors.{outside, wrap, Result, ok, err}
use elysium.Domain.Session.{second}

-- `loginSecret.Auth`, and the results of `NewClient` and of the login request (`none` where the secret
-- or its `Auth` is nil).
pub record Auth : Type 0 where
  pub client_token : Text
  pub renewable : Bool
  pub lease_duration : ℕ

-- `New` without TLS configuration, as cmd/server/main.go calls it: the secret that the client renews.
unfoldable pub logged_in : Result (Option Auth) → Result Auth
logged_in (err e) = err (wrap "vault: approle login" e)
logged_in (ok none) = err (outside "vault: approle login returned empty auth")
logged_in (ok (some a)) = ok a

unfoldable pub new_client : Result (Unit {0}) → Result (Option Auth) → Result Auth
unfolding logged_in
new_client (err e) login = err (wrap "vault: new client" e)
new_client (ok u) login = logged_in login

abbrev pub retry_after : ℕ
retry_after = 5 * second

-- `sleepFor`.
unfoldable pub sleep_for : ℕ → ℕ
sleep_for ttl = if ltb (ttl * 2 / 3) retry_after then retry_after else ttl * 2 / 3

-- What one round of the loop meets: whether the stop channel closes during the first wait, the result
-- of `RenewSelf` (the TTL of the new secret, which is `none` where `TokenTTL` fails), and whether the
-- stop channel closes during the wait before a retry.
pub record Round : Type 0 where
  pub stopped : Bool
  pub renewal : Option (Option ℕ)
  pub stopped_retry : Bool

-- `renewToken`, from a time and the TTL of the current secret: the times at which it asks Vault to
-- renew the token.
unfoldable pub renew_token : ℕ → Option ℕ → List Round → List ℕ
unfolding sleep_for
renew_token now ttl [] = []
renew_token now none (r ∷ rs) = []
renew_token now (some zero) (r ∷ rs) = []
renew_token now (some (suc t)) (r ∷ rs) =
    let at = now + sleep_for (suc t) in
    elim r.stopped [
      | true ↦ []
      | false ↦ at ∷ elim r.renewal [
        | some ttl ↦ renew_token at ttl rs
        | none ↦ elim r.stopped_retry [
          | true ↦ []
          | false ↦ renew_token (at + retry_after) (some (suc t)) rs
        ]
      ]
    ]

-- The wait before a renewal is at least five seconds, and ends before the token expires if its TTL is
-- more than five seconds.
pub sleep_for_bounds :
    (ttl : ℕ) → (retry_after ≤ sleep_for ttl) × ((ttl ≤ retry_after) ⊎ (sleep_for ttl < ttl))
unfolding sleep_for
sleep_for_bounds ttl = (
  ground arith,
  elim (Bool-cases (ltb retry_after ttl)) [
    | inl e ↦ inr (ground arith)
    | inr e ↦ inl (ground arith)
  ],
)

sleep_for_le : (ttl : ℕ) → ttl * 2 / 3 ≤ sleep_for ttl
unfolding sleep_for
sleep_for_le ttl = ground arith

abbrev tail : List ℕ → List ℕ
tail [] = []
tail (x ∷ xs) = xs

-- After a renewal that fails, the loop asks Vault again only when the token has expired: the second
-- request comes at least a whole TTL after the start.
pub retry_late :
    (now t : ℕ) (first next : Round) (rs : List Round)
    → first.stopped ≡ false
    → first.renewal ≡ none
    → first.stopped_retry ≡ false
    → next.stopped ≡ false
    → (again : ℕ) × (later : List ℕ) × (renew_token now (some (suc t)) (first ∷ next ∷ rs)
        ≡ (now + sleep_for (suc t)) ∷ again ∷ later)
      × (now + suc t < again)
unfolding renew_token
retry_late now t first next rs s r s' n =
    let wait = sleep_for (suc t) in
    (
      now + wait + retry_after + wait,
      tail (tail (renew_token now (some (suc t)) (first ∷ next ∷ rs))),
      rw (s, r, s', n) refl,
      omega (arith, sleep_for_le (suc t)),
    )
