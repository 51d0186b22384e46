-- ===== src/World/Success.antt =====
-- Inversion of actions that succeed: each part succeeded, on the state that the part before it left.
use elysium.Prelude.{String, ◌≡◌, refl, Option-cases, inl, inr}
use elysium.Errors.{Result, ok, err}
use elysium.Dgraph.{Dgraph, Mutation, Uids}
use elysium.Dgraph.Laws.{IsDgraph, Committed}
use elysium.World.{World, Action, ◌>>=◌, ◌>>◌, continue, rewrap, mutate_now}

module _ {Db A B : Type 0} where
  continue-eq-ok :
      (r : Result A) (f : A → Action Db B) (w : World Db) (b : B)
      → (continue f r w).0 ≡ ok b
      → (a : A) × (r ≡ ok a) × (continue f r w ≡ f a w)
  continue-eq-ok (ok a) f w b h = (a, refl, refl)
  continue-eq-ok (err e) f w b h = cc

  pub bind-eq-ok :
      (m : Action Db A) (f : A → Action Db B) (w : World Db) (b : B)
      → ((m >>= f) w).0 ≡ ok b
      → (a : A) × ((m w).0 ≡ ok a) × ((m >>= f) w ≡ f a (m w).1)
  bind-eq-ok m f w b h = continue-eq-ok (m w).0 f (m w).1 b h

  pub then-eq-ok :
      (m : Action Db A) (k : Action Db B) (w : World Db) (b : B)
      → ((m >> k) w).0 ≡ ok b
      → (a : A) × ((m w).0 ≡ ok a) × ((m >> k) w ≡ k (m w).1)
  then-eq-ok m k w b h = continue-eq-ok (m w).0 (λ _. k) (m w).1 b h

module _ {A : Type 0} where
  pub rewrap-eq-ok : (m : String) (r : Result A) (a : A) → rewrap m r ≡ ok a → r ≡ ok a
  rewrap-eq-ok m (ok b) a h = h
  rewrap-eq-ok m (err e) a h = cc

module _ {Db : Type 0} ⦃dg : Dgraph Db⦄ (laws : IsDgraph dg) where
  -- A mutation that succeeded is committed.
  pub mutate_now-Committed :
      (step : String) (m : Mutation) (w : World Db) (uids : Uids)
      → (mutate_now step m w).0 ≡ ok uids
      → Committed dg laws.read m uids w.db (mutate_now step m w).1.db
  unfolding mutate_now
  mutate_now-Committed step m w uids h = elim (Option-cases (dg.mutate m w.db).0) [
    | inl lost ↦ cc (rw lost at h)
    | inr (us, e) ↦ let same : us ≡ uids = cc (rw e at h) in rw same at (laws.mutated m w.db us e)
  ]
