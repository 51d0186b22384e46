-- ===== src/World/Keeps.antt =====
-- Properties of the database that actions keep, one rule for each way to build an action.
use elysium.Prelude.{ℕ, String, Bool, true, false, Text, if◌then◌else◌, arith}
use elysium.Errors.{Error, Result, ok, err}
use elysium.Dgraph.{Dgraph, Query}
use elysium.World.{
  World, Action, ◌>>=◌, ◌>>◌, continue, return, fail, wrapped, attempt, time_now, rand_read, begin,
  spawn_touch, fetch, txn_fetch,
}

-- `act` keeps `P` of the database, whether it succeeds or fails.
pub record Keeps {Db A : Type 0} (P : Db → Type 0) (act : Action Db A) : Type 0 where
  pub at : (w : World Db) → P w.db → P (act w).1.db

module _ {Db : Type 0} {P : Db → Type 0} where
  pub Keeps-return : {A : Type 0} (a : A) → Keeps P (return {Db = Db} a)
  Keeps-return a = record { at = λ w h. h }

  pub Keeps-fail : {A : Type 0} (e : Error) → Keeps P (fail {Db = Db} {A = A} e)
  Keeps-fail e = record { at = λ w h. h }

  pub Keeps-wrapped :
      {A : Type 0} (m : String) (act : Action Db A) → Keeps P act → Keeps P (wrapped m act)
  Keeps-wrapped m act k = record { at = λ w h. k.at w h }

  pub Keeps-attempt : {A : Type 0} (act : Action Db A) → Keeps P act → Keeps P (attempt act)
  Keeps-attempt act k = record { at = λ w h. k.at w h }

  pub Keeps-time_now : Keeps P (time_now {Db = Db})
  unfolding time_now
  Keeps-time_now = record { at = λ w h. h }

  pub Keeps-rand_read : (n : ℕ) → Keeps P (rand_read {Db = Db} n)
  unfolding rand_read
  Keeps-rand_read n = record { at = λ w h. ground arith }

  pub Keeps-begin : Keeps P (begin {Db = Db})
  unfolding begin
  Keeps-begin = record { at = λ w h. h }

  pub Keeps-spawn_touch : (id : Text) → Keeps P (spawn_touch {Db = Db} id)
  unfolding spawn_touch
  Keeps-spawn_touch id = record { at = λ w h. h }

  pub Keeps-if :
      {A : Type 0} (b : Bool) (m n : Action Db A)
      → Keeps P m
      → Keeps P n
      → Keeps P (if b then m else n)
  Keeps-if true m n km kn = km
  Keeps-if false m n km kn = kn

  continue-Keeps :
      {A B : Type 0} (r : Result A) (f : A → Action Db B)
      → ((a : A) → Keeps P (f a))
      → Keeps P (continue f r)
  continue-Keeps (ok a) f kf = record { at = λ w h. (kf a).at w h }
  continue-Keeps (err e) f kf = record { at = λ w h. h }

  pub Keeps-bind :
      {A B : Type 0} (m : Action Db A) (f : A → Action Db B)
      → Keeps P m
      → ((a : A) → Keeps P (f a))
      → Keeps P (m >>= f)
  Keeps-bind m f km kf = record { at = λ w h. (continue-Keeps (m w).0 f kf).at (m w).1 (km.at w h) }

  pub Keeps-then :
      {A B : Type 0} (m : Action Db A) (k : Action Db B) → Keeps P m → Keeps P k → Keeps P (m >> k)
  Keeps-then m k km kk = record {
    at = λ w h. (continue-Keeps (m w).0 (λ _. k) (λ _. kk)).at (m w).1 (km.at w h);
  }

module _ {Db : Type 0} ⦃dg : Dgraph Db⦄ {P : Db → Type 0} where
  pub Keeps-fetch : (step : String) (q : Query) → Keeps P (fetch step q)
  unfolding fetch
  Keeps-fetch step q = record { at = λ w h. h }

  pub Keeps-txn_fetch : (step : String) (start : Db) (q : Query) → Keeps P (txn_fetch step start q)
  unfolding txn_fetch
  Keeps-txn_fetch step start q = record { at = λ w h. h }

pub ruleset keeps_rules = (
  Keeps-return, Keeps-fail, Keeps-wrapped, Keeps-attempt, Keeps-time_now, Keeps-rand_read,
  Keeps-begin, Keeps-spawn_touch, Keeps-if, Keeps-bind, Keeps-then, Keeps-fetch, Keeps-txn_fetch,
)
