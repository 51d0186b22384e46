-- ===== src/Dgraph/Upserts.antt =====
-- What repository.go and service_account.go of internal/repository/dgraph use of Dgraph beyond the
-- record `Dgraph`: conditional upserts, commit timestamps, paged queries and query variables. Their
-- documented behaviour is in `IsUpserts`.
use elysium.Prelude.{
  ℕ, ◌≤◌, String, ◌≡◌, ◌⊎◌, true, false, Bool, Option, none, some, List, [], ◌∷◌, Text, All, length,
  str_eq,
}
use elysium.Dgraph.{Quad, Values, Node, Root, Filter, Query, unordered, Uids, Dgraph}
use elysium.Dgraph.Laws.{holds_text, fits, select, IsWritten, Unchanged, IsDgraph}
use elysium.Domain.User.{ℤ, pos}

-- `@if(eq(len(x), 0) AND …)`, where `x as var(func: eq(p, $v))`: no node holds the value.
abbrev pub Absences : Type 0
Absences = List (String × Text)

-- `users(func: …, offset: …, first: …) @filter(…) { … }` with the block
-- `total(func: …) @filter(…) { count(uid) }`.
pub record PageQuery : Type 0 where
  pub root : Root
  pub filter : Filter
  pub offset : ℤ
  pub first : ℤ
  pub fields : List String
  pub best_effort : Bool

-- The second field of `page` is the list `total`.
pub data PageReply : Type 0 where
  page_failed page_malformed : PageReply
  page : List Node → List ℕ → PageReply

-- `upsert` is `Do` of one conditional `SetJson` mutation with `CommitNow`: the response's `Uids`.
-- `commit_ts` is the `CommitTs` of the response to the write that led to this state, if the response
-- has a transaction context. `value_of declared vars x` is the value of a query variable in a request
-- with these declarations and this map `Vars`, and `none` if Dgraph refuses the request.
pub record Upserts (Db : Type 0) : Type 0 where
  pub upsert : Absences → List Quad → Db → Option Uids × Db
  pub commit_ts : Db → Option ℕ
  pub query_page : PageQuery → Db → PageReply
  pub value_of : List String → List (String × Text) → String → Option Text

abbrev pub page_nodes_query : PageQuery → Query
page_nodes_query q = record {
  root = q.root;
  filter = q.filter;
  order = unordered;
  fields = q.fields;
  best_effort = q.best_effort;
}

module _ {Db : Type 0} (read : Db → Text → Values) (db : Db) where
  abbrev pub AllAbsent : Absences → Type 0
  AllAbsent [] = Unit
  AllAbsent ((p, t) ∷ cs) = ((u : Text) → holds_text t (read db u p) ≡ false) × AllAbsent cs

  abbrev pub SomePresent : Absences → Type 0
  SomePresent [] = ⊥
  SomePresent ((p, t) ∷ cs) = ((u : Text) × (holds_text t (read db u p) ≡ true)) ⊎ SomePresent cs

-- An upsert writes if and only if no node holds one of the values. One that fails has written
-- nothing, or all that it would have (the answer was lost). A page has at most `first` nodes, each of
-- which fits. A request whose `Vars` name a variable that the query does not declare is refused.
pub record IsUpserts {Db : Type 0} {dg : Dgraph Db} (laws : IsDgraph dg) (up : Upserts Db)
    : Type 0 where
  pub upserted :
      (cs : Absences) (qs : List Quad) (db : Db) (uids : Uids)
      → (up.upsert cs qs db).0 ≡ some uids
      → (AllAbsent laws.read db cs × IsWritten dg laws.read qs uids db (up.upsert cs qs db).1)
        ⊎ (SomePresent laws.read db cs
            × (uids ≡ [])
            × Unchanged dg laws.read db (up.upsert cs qs db).1)
  pub upsert_lost :
      (cs : Absences) (qs : List Quad) (db : Db)
      → (up.upsert cs qs db).0 ≡ none
      → Unchanged dg laws.read db (up.upsert cs qs db).1
        ⊎ ((uids : Uids) × AllAbsent laws.read db cs
            × IsWritten dg laws.read qs uids db (up.upsert cs qs db).1)
  pub page_sound :
      (q : PageQuery) (db : Db) (ns : List Node) (total : List ℕ) (n : ℕ)
      → q.best_effort ≡ false
      → q.first ≡ pos n
      → up.query_page q db ≡ page ns total
      → (length ns ≤ n)
        × All
            (λ m.
              (fits dg.storage (page_nodes_query q) m.uid (laws.read db m.uid) ≡ true)
              × (m.vals ≡ select q.fields (laws.read db m.uid)))
            ns
  pub undeclared_refused :
      (declared : List String) (k : String) (v : Text) (x : String)
      → All (λ d. str_eq d k ≡ false) declared
      → up.value_of declared ((k, v) ∷ []) x ≡ none
