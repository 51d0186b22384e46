-- ===== src/Dgraph.antt =====
-- Dgraph, as far as internal/repository/dgraph uses it. The database and its Go client are not in
-- the repository, so they are a parameter: the record `Dgraph` over a type of database states.
-- A DQL query is represented by its structure (root function, filter, requested predicates), and
-- a mutation by its N-Quads. The child `Laws` states the documented behaviour that proofs rely on.
pub mod Schema
pub mod Laws
pub mod Writes
pub mod Memory
pub mod Json
pub mod Upserts
use elysium.Prelude.{ℕ, String, Bool, Option, List, [], ◌∷◌, Text, str_eq, if◌then◌else◌}

-- The value of a predicate. A datetime is the number of seconds that its RFC 3339 text denotes.
pub data Object : Type 0 where
  str : Text → Object
  int : ℕ → Object
  bool : Bool → Object
  time : ℕ → Object

-- `<uid>` or `_:name`.
pub data Subject : Type 0 where
  uid : Text → Subject
  blank : String → Subject

pub record Quad : Type 0 where
  pub subject : Subject
  pub predicate : String
  pub object : Object

-- The values of a node, by predicate.
abbrev pub Values : Type 0
Values = String → List Object

abbrev pub no_values : Values
no_values p = []

-- One object of a JSON response.
pub record Node : Type 0 where
  pub uid : Text
  pub vals : Values

-- `func: uid(u)`, `func: eq(p, v)`, `func: type(T)`.
pub data Root : Type 0 where
  by_uid : Text → Root
  by_eq : String → Text → Root
  by_type : String → Root

-- `@filter(type(T))`, `@filter(NOT eq(p, true))`, `@filter(eq(p, true))`, `@filter(le(p, time))`.
pub data Filter : Type 0 where
  unfiltered : Filter
  has_type : String → Filter
  not_true : String → Filter
  is_true : String → Filter
  le_time : String → ℕ → Filter

pub data Order : Type 0 where
  unordered : Order
  orderasc : String → Order

pub record Query : Type 0 where
  pub root : Root
  pub filter : Filter
  pub order : Order
  pub fields : List String
  pub best_effort : Bool

-- `malformed` is a response that `json.Unmarshal` refuses.
pub data Reply : Type 0 where
  failed malformed : Reply
  found : List Node → Reply

pub data Mutation : Type 0 where
  set : List Quad → Mutation
  delete : List Text → Mutation

-- `resp.Uids`: the uids given to blank nodes.
abbrev pub Uids : Type 0
Uids = List (String × Text)

-- Indexing a Go map: a missing key gives the empty string.
unfoldable pub uid_of : Uids → String → Text
uid_of [] name = []
uid_of ((k, u) ∷ us) name = if str_eq k name then u else uid_of us name

-- What a database chooses itself: the uid that a literal denotes, in the form of its responses, and
-- where a list predicate (a set without order) puts a value.
pub record Storage : Type 0 where
  pub resolve : Text → Text
  pub insert : Object → List Object → List Object

-- `query` reads; `mutate` commits at once (`CommitNow`) and gives `none` on an error. In a
-- transaction `stage` is `txn.Mutate` without commit, and `commit start quads uids db` is
-- `txn.Commit` on the state `db` of a transaction that began on the state `start`.
pub record Dgraph (Db : Type 0) : Type 0 where
  pub storage : Storage
  pub query : Query → Db → Reply
  pub mutate : Mutation → Db → Option Uids × Db
  pub stage : List Quad → Db → Option Uids
  pub commit : Db → List Quad → Uids → Db → Bool × Db

-- N-Quads about one subject.
unfoldable pub about : Subject → List (String × Object) → List Quad
about s [] = []
about s ((p, o) ∷ pos) = record { subject = s; predicate = p; object = o } ∷ about s pos

-- `for _, x := range texts { nquads += … }`: one N-Quad for each text.
unfoldable pub each_text : String → List Text → List (String × Object)
each_text p [] = []
each_text p (t ∷ ts) = (p, str t) ∷ each_text p ts
