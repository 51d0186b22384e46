-- ===== src/World.antt =====
-- The state in which a request runs, and the actions on it: the database, the successive readings
-- of the clock (`time.Now()`), the successive results of `rand.Read`, and the background tasks
-- started by `go func() { … }()`. Time is counted in nanoseconds from Go's zero time; times and
-- durations are natural numbers.
pub mod Keeps
pub mod Success
pub mod Ensures
use elysium.Prelude.{
  Bool, true, false, ℕ, suc, String, Option, none, some, List, [], ◌∷◌, ◌++◌, Text,
}
use elysium.Errors.{Error, outside, wrap, Result, ok, err}
use elysium.Dgraph.{Quad, Query, Reply, failed, malformed, found, Node, Mutation, Uids, Dgraph}

pub record World (Db : Type 0) : Type 0 where
  pub db : Db
  pub clock : ℕ → ℕ
  pub random : ℕ → ℕ → Option (List ℕ)
  pub touches : List Text

abbrev pub Action : Type 0 → Type 0 → Type 0
Action Db A = World Db → Result A × World Db

module _ {Db A B : Type 0} where
  abbrev pub continue : (A → Action Db B) → Result A → Action Db B
  continue f (ok a) w = f a w
  continue f (err e) w = (err e, w)

  infixl 5 ◌>>=◌ ◌>>◌
  abbrev pub ◌>>=◌ : Action Db A → (A → Action Db B) → Action Db B
  ◌>>=◌ m f w = continue f (m w).0 (m w).1

  abbrev pub ◌>>◌ : Action Db A → Action Db B → Action Db B
  ◌>>◌ m k w = continue (λ _. k) (m w).0 (m w).1

module _ {Db A : Type 0} where
  abbrev pub return : A → Action Db A
  return a w = (ok a, w)

  abbrev pub fail : Error → Action Db A
  fail e w = (err e, w)

-- `if err != nil { return nil, fmt.Errorf("…: %w", err) }` after a call.
abbrev pub rewrap {ℓ} : {A : Type ℓ} → String → Result A → Result A
rewrap m (ok a) = ok a
rewrap m (err e) = err (wrap m e)

module _ {Db : Type 0} where
  abbrev pub wrapped : {A : Type 0} → String → Action Db A → Action Db A
  wrapped m act w = (rewrap m (act w).0, (act w).1)

  -- A call whose error the caller inspects.
  abbrev pub attempt : {A : Type 0} → Action Db A → Action Db (Result A)
  attempt act w = (ok (act w).0, (act w).1)

  -- `time.Now()`.
  unfoldable pub time_now : Action Db ℕ
  time_now w = (ok (w.clock 0), record w { clock = λ k. w.clock (suc k) })

  -- `rand.Read(b)` for `n` bytes.
  unfoldable pub rand_read : ℕ → Action Db (List ℕ)
  rand_read n w = elim (w.random 0 n) [
    | none ↦ (err (outside "crypto/rand"), record w { random = λ k. w.random (suc k) })
    | some bytes ↦ (ok bytes, record w { random = λ k. w.random (suc k) })
  ]

  -- The state on which a transaction begins.
  unfoldable pub begin : Action Db Db
  begin w = (ok w.db, w)

  -- `go func() { … Touch(ctx, id) … }()`.
  unfoldable pub spawn_touch : Text → Action Db (Unit {0})
  spawn_touch id w = (ok tt, record w { touches = w.touches ++ id ∷ [] })

abbrev pub reply_nodes : String → Reply → Result (List Node)
reply_nodes step failed = err (wrap step (outside "dgraph query"))
reply_nodes step malformed = err (wrap step (outside "json unmarshal"))
reply_nodes step (found ns) = ok ns

abbrev pub reply_uids : String → Option Uids → Result Uids
reply_uids step none = err (wrap step (outside "dgraph mutation"))
reply_uids step (some uids) = ok uids

abbrev pub reply_commit : String → Bool → Result (Unit {0})
reply_commit step true = ok tt
reply_commit step false = err (wrap step (outside "dgraph commit"))

module _ {Db : Type 0} ⦃dg : Dgraph Db⦄ where
  -- A query in a transaction of its own, and the decoding of its response. `step` begins the text
  -- of the error.
  unfoldable pub fetch : String → Query → Action Db (List Node)
  fetch step q w = (reply_nodes step (dg.query q w.db), w)

  -- The same on the state that a transaction began on.
  unfoldable pub txn_fetch : String → Db → Query → Action Db (List Node)
  txn_fetch step start q w = (reply_nodes step (dg.query q start), w)

  -- `client.NewTxn().Mutate(ctx, mu)` with `CommitNow: true`.
  unfoldable pub mutate_now : String → Mutation → Action Db Uids
  mutate_now step m w =
      (reply_uids step (dg.mutate m w.db).0, record w { db = (dg.mutate m w.db).1 })

  -- `txn.Mutate(ctx, mu)`, uncommitted.
  unfoldable pub txn_mutate : String → Db → List Quad → Action Db Uids
  txn_mutate step start qs w = (reply_uids step (dg.stage qs start), w)

  -- `txn.Commit(ctx)`.
  unfoldable pub txn_commit : String → Db → List Quad → Uids → Action Db (Unit {0})
  txn_commit step start qs uids w = (
    reply_commit step (dg.commit start qs uids w.db).0,
    record w { db = (dg.commit start qs uids w.db).1 },
  )
