-- ===== src/Dgraph/Laws.antt =====
-- The documented behaviour of Dgraph on which proofs rely, over `read`: the values that a state of
-- the database holds for a uid.
use elysium.Prelude.{
  ◌≤◌, length, ℕ, String, ◌≡◌, ◌⊎◌, Bool, true, false, none, some, List, [], ◌∷◌, map, Text, ◌==◌,
  lit, str_eq, leb, ◌&&◌, ◌||◌, not, if◌then◌else◌, All, mem_text,
}
use elysium.Dgraph.{
  Object, str, bool, time, Subject, uid, blank, Quad, Values, no_values, Node, Root, by_uid, by_eq,
  by_type, Filter, unfiltered, has_type, not_true, is_true, le_time, Query, found, Mutation, set,
  delete, Uids, uid_of, Storage, Dgraph,
}
use elysium.Dgraph.Schema.{is_list}

-- Does a predicate with these values hold this text, or the truth value, or a time up to this one?
unfoldable pub holds_text : Text → List Object → Bool
holds_text t [] = false
holds_text t (str s ∷ os) = s == t || holds_text t os
holds_text t (_ ∷ os) = holds_text t os

unfoldable pub holds_true : List Object → Bool
holds_true [] = false
holds_true (bool b ∷ os) = b || holds_true os
holds_true (_ ∷ os) = holds_true os

unfoldable pub holds_time_le : ℕ → List Object → Bool
holds_time_le n [] = false
holds_time_le n (time t ∷ os) = leb t n || holds_time_le n os
holds_time_le n (_ ∷ os) = holds_time_le n os

unfoldable pub fits_filter : Filter → Values → Bool
fits_filter unfiltered vals = true
fits_filter (has_type t) vals = holds_text (lit t) (vals "dgraph.type")
fits_filter (not_true p) vals = not (holds_true (vals p))
fits_filter (is_true p) vals = holds_true (vals p)
fits_filter (le_time p n) vals = holds_time_le n (vals p)

unfoldable pub listed : String → List String → Bool
listed p [] = false
listed p (f ∷ fs) = if str_eq f p then true else listed p fs

-- The part of a node that a query asks for.
unfoldable pub select : List String → Values → Values
select fields vals p = if listed p fields then vals p else []

module _ (st : Storage) where
  unfoldable pub fits_root : Root → Text → Values → Bool
  fits_root (by_uid v) u vals = u == st.resolve v
  fits_root (by_eq p t) u vals = holds_text t (vals p)
  fits_root (by_type t) u vals = holds_text (lit t) (vals "dgraph.type")

  abbrev pub fits : Query → Text → Values → Bool
  fits q u vals = fits_root q.root u vals && fits_filter q.filter vals

  unfoldable pub put : String → Object → Values → Values
  put p o vals r =
      if str_eq p r then (if is_list p then st.insert o (vals r) else o ∷ []) else vals r

  unfoldable pub put_all : List (String × Object) → Values → Values
  put_all [] vals = vals
  put_all ((p, o) ∷ pos) vals = put_all pos (put p o vals)

  unfoldable pub target : Uids → Subject → Text
  target uids (uid u) = st.resolve u
  target uids (blank name) = uid_of uids name

  -- The values of the node `u` after a set mutation.
  unfoldable pub set_all : Uids → Text → List Quad → Values → Values
  set_all uids u [] vals = vals
  set_all uids u (q ∷ qs) vals =
      set_all uids u qs (if target uids q.subject == u then put q.predicate q.object vals else vals)

unfoldable pub is_blank : String → Subject → Bool
is_blank name (uid u) = false
is_blank name (blank n) = str_eq n name

unfoldable pub names_blank : String → List Quad → Bool
names_blank name [] = false
names_blank name (q ∷ qs) = is_blank name q.subject || names_blank name qs

module _ {Db : Type 0} (dg : Dgraph Db) (read : Db → Text → Values) where
  -- A uid of a response, that no data stood under before.
  pub record IsFresh (db : Db) (u : Text) : Type 0 where
    pub canonical : dg.storage.resolve u ≡ u
    pub nonempty : u == [] ≡ false
    pub unused : read db u ≡ no_values

  pub record IsWritten (qs : List Quad) (uids : Uids) (db db' : Db) : Type 0 where
    pub reads : (u : Text) → read db' u ≡ set_all dg.storage uids u qs (read db u)
    pub fresh : (name : String) → names_blank name qs ≡ true → IsFresh db (uid_of uids name)

  pub record IsDeleted (us : List Text) (db db' : Db) : Type 0 where
    pub reads :
        (u : Text)
        → read db' u ≡ (if mem_text u (map dg.storage.resolve us) then no_values else read db u)

  abbrev pub Committed : Mutation → Uids → Db → Db → Type 0
  Committed (set qs) uids db db' = IsWritten qs uids db db'
  Committed (delete us) uids db db' = IsDeleted us db db'

  abbrev pub Unchanged : Db → Db → Type 0
  Unchanged db db' = (u : Text) → read db' u ≡ read db u

-- Reads without BestEffort see every committed write, and give the nodes that fit, with the
-- predicates asked for. A mutation or a commit that succeeds writes what it says; one that fails has
-- written nothing, or everything (the answer was lost). A predicate that the schema does not declare
-- as a list has one value at most.
pub record IsDgraph {Db : Type 0} (dg : Dgraph Db) : Type 0 where
  pub read : Db → Text → Values
  pub sound :
      (q : Query) (db : Db) (ns : List Node)
      → q.best_effort ≡ false
      → dg.query q db ≡ found ns
      → All
          (λ n.
            (fits dg.storage q n.uid (read db n.uid) ≡ true)
            × (n.vals ≡ select q.fields (read db n.uid))
            × (dg.storage.resolve n.uid ≡ n.uid))
          ns
  pub complete :
      (q : Query) (db : Db) (ns : List Node) (u : Text)
      → q.best_effort ≡ false
      → dg.query q db ≡ found ns
      → fits dg.storage q u (read db u) ≡ true
      → mem_text u (map (λ (n : Node). n.uid) ns) ≡ true
  pub mutated :
      (m : Mutation) (db : Db) (uids : Uids)
      → (dg.mutate m db).0 ≡ some uids
      → Committed dg read m uids db (dg.mutate m db).1
  pub mutate_lost :
      (m : Mutation) (db : Db)
      → (dg.mutate m db).0 ≡ none
      → Unchanged dg read db (dg.mutate m db).1
        ⊎ ((uids : Uids) × Committed dg read m uids db (dg.mutate m db).1)
  pub committed :
      (qs : List Quad) (uids : Uids) (start db : Db)
      → dg.stage qs start ≡ some uids
      → (dg.commit start qs uids db).0 ≡ true
      → IsWritten dg read qs uids db (dg.commit start qs uids db).1
  pub commit_lost :
      (qs : List Quad) (uids : Uids) (start db : Db)
      → dg.stage qs start ≡ some uids
      → (dg.commit start qs uids db).0 ≡ false
      → Unchanged dg read db (dg.commit start qs uids db).1
        ⊎ IsWritten dg read qs uids db (dg.commit start qs uids db).1
  pub single : (db : Db) (u : Text) (p : String) → is_list p ≡ false → length (read db u p) ≤ 1
  pub insert_text :
      (s t : Text) (os : List Object)
      → holds_text t (dg.storage.insert (str s) os) ≡ (s == t || holds_text t os)
