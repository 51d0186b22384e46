-- ===== src/World/Ensures.antt =====
-- Properties of the results of actions that succeed, one rule for each way to build an action.
use elysium.Prelude.{String, ◌≡◌, refl, subst}
use elysium.Errors.{Error, Result, ok, err}
use elysium.World.{World, Action, ◌>>=◌, continue, return, fail, wrapped, rewrap}

-- Each result with which `act` succeeds has the property `P`.
pub record Ensures {Db A : Type 0} (P : A → Type 0) (act : Action Db A) : Type 0 where
  pub at : (w : World Db) (a : A) → (act w).0 ≡ ok a → P a

module _ {Db : Type 0} where
  pub Ensures-return : {A : Type 0} (P : A → Type 0) (a : A) → P a → Ensures P (return {Db = Db} a)
  Ensures-return P a p = record { at = λ w x h. let same : a ≡ x = cc in subst P same p }

  pub Ensures-fail :
      {A : Type 0} (P : A → Type 0) (e : Error) → Ensures P (fail {Db = Db} {A = A} e)
  Ensures-fail P e = record { at = λ w x h. cc }

  continue-Ensures :
      {A B : Type 0} (P : B → Type 0) (r : Result A) (f : A → Action Db B)
      → ((a : A) → Ensures P (f a))
      → Ensures P (continue f r)
  continue-Ensures P (ok a) f k = record { at = λ w b h. (k a).at w b h }
  continue-Ensures P (err e) f k = record { at = λ w b h. cc }

  pub Ensures-bind :
      {A B : Type 0} (P : B → Type 0) (m : Action Db A) (f : A → Action Db B)
      → ((a : A) → Ensures P (f a))
      → Ensures P (m >>= f)
  Ensures-bind P m f k = record { at = λ w b h. (continue-Ensures P (m w).0 f k).at (m w).1 b h }

  -- What the first action ensures may be used of its result.
  pub Ensures-bind_with :
      {A B : Type 0} (Q : A → Type 0) (P : B → Type 0) (m : Action Db A) (f : A → Action Db B)
      → Ensures Q m
      → ((a : A) → Q a → Ensures P (f a))
      → Ensures P (m >>= f)
  Ensures-bind_with Q P m f q k = record {
    at = λ w b h. met (m w).0 (λ a e. q.at w a e) (m w).1 b h;
  }
    where
      met :
          (r : Result _)
          → ((a : _) → r ≡ ok a → Q a)
          → (w : World Db) (b : _) → (continue f r w).0 ≡ ok b
          → P b
      met (ok a) q' w b h = (k a (q' a refl)).at w b h
      met (err e) q' w b h = cc

  pub Ensures-wrapped :
      {A : Type 0} (P : A → Type 0) (m : String) (act : Action Db A)
      → Ensures P act
      → Ensures P (wrapped m act)
  Ensures-wrapped P m act k = record { at = λ w a h. met (act w).0 (λ x e. k.at w x e) a h }
    where
      met : (r : Result _) → ((x : _) → r ≡ ok x → P x) → (a : _) → (rewrap m r ≡ ok a) → P a
      met (ok x) q a h = q a h
      met (err e) q a h = cc
