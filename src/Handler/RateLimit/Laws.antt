-- ===== src/Handler/RateLimit/Laws.antt =====
-- internal/middleware/middleware.go: clients are limited apart from one another, and the cleanup drops
-- the idle ones only.
use elysium.Prelude.{
  if◌then◌else◌, ◌+◌, sym, none, Option, ◌≤◌, ℕ, ◌-◌, ◌<◌, ◌≡◌, refl, ◌∙◌, true, false, some, [],
  ◌∷◌, List, Text, ◌==◌, eq_iff, eq_refl, arith, Bool-cases, inl, inr, ◌⊎◌, ltb,
}
use elysium.Handler.RateLimit.{
  Rate, Client, Clients, idle_limit, client_of, store, cleanup, limiter_of, get_limiter, allowed,
  shard_index, shard, write_header, write_headers, logged_writer,
}

abbrev first_or : ℕ → List ℕ → ℕ
first_or d [] = d
first_or d (x ∷ xs) = x

ne_sym : (s t : Text) → (s == t) ≡ false → (t == s) ≡ false
ne_sym s t h = elim (Bool-cases (t == s)) [
  | inl e ↦ cc (h, (eq_iff s t).1 (sym ((eq_iff t s).0 e)))
  | inr e ↦ e
]

module _ {Limiter : Type 0} where
  client_of-store_self :
      (ip : Text) (c : Client Limiter) (cs : Clients Limiter)
      → client_of ip (store ip c cs) ≡ some c
  unfolding client_of store
  client_of-store_self ip c [] = rw (eq_refl ip) refl
  client_of-store_self ip c ((k, d) ∷ cs) = elim (Bool-cases (k == ip)) [
    | inl e ↦ rw (e, client_of, e) refl
    | inr e ↦ rw (e, client_of, e) (client_of-store_self ip c cs)
  ]

  client_of-store_other :
      (ip other : Text) (c : Client Limiter) (cs : Clients Limiter)
      → (ip == other) ≡ false
      → client_of other (store ip c cs) ≡ client_of other cs
  unfolding client_of store
  client_of-store_other ip other c [] h = rw h refl
  client_of-store_other ip other c ((k, d) ∷ cs) h = elim (Bool-cases (k == ip)) [
    | inl e ↦ rw (e, client_of, (eq_iff k ip).0 e, h) refl
    | inr e ↦ rw (e, client_of, client_of-store_other ip other c cs h) refl
  ]

  -- A request leaves the other clients as they were, and its own client with the limiter that decided
  -- on the request, seen at its time.
  pub allowed_apart :
      (rate : Rate Limiter) (ip other : Text) (now now' : ℕ) (cs : Clients Limiter)
      → (ip == other) ≡ false
      → (client_of other (allowed rate ip now now' cs).1 ≡ client_of other cs)
        × (client_of ip (allowed rate ip now now' cs).1
            ≡ some (record {
              limiter = (rate.allow (limiter_of rate (client_of ip cs)) now').1;
              last_seen = now;
            }))
        × ((allowed rate ip now now' cs).0
            ≡ (rate.allow (limiter_of rate (client_of ip cs)) now').0)
  unfolding allowed get_limiter
  allowed_apart rate ip other now now' cs h = (
    client_of-store_other ip other _ _ h ∙ client_of-store_other ip other _ cs h,
    client_of-store_self ip _ _,
    refl,
  )

  -- A map has one entry for a key.
  abbrev pub IsMap : Clients Limiter → Type 0
  IsMap [] = Unit {0}
  IsMap ((k, c) ∷ cs) = (client_of k cs ≡ none) × IsMap cs

  client_of-dropped :
      (ip : Text) (now : ℕ) (cs : Clients Limiter)
      → client_of ip cs ≡ none
      → client_of ip (cleanup now cs) ≡ none
  unfolding client_of cleanup
  client_of-dropped ip now [] h = refl
  client_of-dropped ip now ((k, d) ∷ cs) h = elim (Bool-cases (k == ip)) [
    | inl e ↦ cc (rw e at h)
    | inr e ↦ elim (Bool-cases (ltb idle_limit (now - d.last_seen))) [
      | inl idle ↦ rw idle (client_of-dropped ip now cs (rw e at h))
      | inr recent ↦ rw (recent, client_of, e) (client_of-dropped ip now cs (rw e at h))
    ]
  ]

  store-IsMap :
      (ip : Text) (c : Client Limiter) (cs : Clients Limiter) → IsMap cs → IsMap (store ip c cs)
  unfolding client_of store
  store-IsMap ip c [] h = (refl, tt)
  store-IsMap ip c ((k, d) ∷ cs) h = elim (Bool-cases (k == ip)) [
    | inl e ↦ rw e h
    | inr e ↦
        let other : (ip == k) ≡ false = ne_sym k ip e in
        rw e (client_of-store_other ip k c cs other ∙ h.0, store-IsMap ip c cs h.1)
  ]

  -- What the cleanup leaves of a client.
  abbrev left_at : ℕ → Option (Client Limiter) → Option (Client Limiter)
  left_at now none = none
  left_at now (some c) = if ltb idle_limit (now - c.last_seen) then none else some c

  client_of-cleanup :
      (ip : Text) (now : ℕ) (cs : Clients Limiter)
      → IsMap cs
      → client_of ip (cleanup now cs) ≡ left_at now (client_of ip cs)
  unfolding client_of cleanup
  client_of-cleanup ip now [] h = refl
  client_of-cleanup ip now ((k, d) ∷ cs) h = elim (Bool-cases (k == ip)) [
    | inl e ↦ elim (Bool-cases (ltb idle_limit (now - d.last_seen))) [
      | inl idle ↦
          let gone = client_of-dropped ip now cs (rw ((eq_iff k ip).0 e) at h.0) in
          rw (idle, e, idle) gone
      | inr recent ↦ rw (recent, client_of, e, recent) refl
    ]
    | inr e ↦ elim (Bool-cases (ltb idle_limit (now - d.last_seen))) [
      | inl idle ↦ rw (idle, e) (client_of-cleanup ip now cs h.1)
      | inr recent ↦ rw (recent, client_of, e) (client_of-cleanup ip now cs h.1)
    ]
  ]

  -- In a map of clients, which has no key twice: after a request of a client that is handled at the
  -- time `seen`, a cleanup up to five minutes (in nanoseconds) later leaves the client the limiter
  -- with which the request was decided on, and a later one leaves it none, so that the next request
  -- gets a new limiter.
  pub cleanup_after :
      (rate : Rate Limiter) (ip : Text) (seen at later : ℕ) (cs : Clients Limiter)
      → IsMap cs
      → ((later ≤ seen + 300000000000)
          × (limiter_of rate (client_of ip (cleanup later (allowed rate ip seen at cs).1))
              ≡ (rate.allow (limiter_of rate (client_of ip cs)) at).1))
        ⊎ ((seen + 300000000000 < later)
            × (limiter_of rate (client_of ip (cleanup later (allowed rate ip seen at cs).1))
                ≡ rate.new_limiter))
  unfolding allowed get_limiter limiter_of
  cleanup_after rate ip seen at later cs h =
      let c : Client Limiter = record {
        limiter = (rate.allow (limiter_of rate (client_of ip cs)) at).1;
        last_seen = seen;
      } in
      let map_after : IsMap (allowed rate ip seen at cs).1 =
        store-IsMap ip _ _ (store-IsMap ip _ cs h) in
      let found_it : client_of ip (allowed rate ip seen at cs).1 ≡ some c =
        client_of-store_self ip c _ in
      let kept = client_of-cleanup ip later (allowed rate ip seen at cs).1 map_after in
      elim (Bool-cases (ltb idle_limit (later - seen))) [
        | inl idle ↦ inr (ground arith, rw (kept, found_it, idle) refl)
        | inr recent ↦ inl (ground arith, rw (kept, found_it, recent) refl)
      ]

-- A shard is one of those that there are, for every key.
pub shard-lt : (n : ℕ) (key : Text) → 0 < n → shard n key < n
unfolding shard shard_index
shard-lt n key h = grind arith

-- The status that is logged is the first that the handler writes, and 200 if it writes none.
pub write_headers_lem :
    (codes : List ℕ) → (write_headers codes logged_writer).status ≡ first_or 200 codes
unfolding write_headers write_header
write_headers_lem [] = refl
write_headers_lem (code ∷ codes) = kept codes
  where
    kept :
        (rest : List ℕ)
        → (write_headers rest (record { status = code; written = true })).status ≡ code
    kept [] = refl
    kept (x ∷ rest) = kept rest
