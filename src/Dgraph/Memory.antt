-- ===== src/Dgraph/Memory.antt =====
-- A database in memory that meets the laws, for the examples: its state is the history of its
-- mutations.
pub mod Conditional
use elysium.Prelude.{
  ℕ, zero, suc, ◌+◌, ◌≤◌, ◌<◌, ◌∙◌, not, String, ◌≡◌, refl, ap, subst, ◌≢◌, Bool, true, false, ◌&&◌,
  ◌||◌, Option, none, some, List, [], ◌∷◌, ◌++◌, map, Text, ◌==◌, eq_iff, str_eq, if◌then◌else◌,
  arith, All, mem_text, length, Bool-cases, inl, inr,
}
use elysium.Dgraph.{
  uid, blank, Quad, Values, no_values, Node, Root, by_uid, by_eq, by_type, Query, Reply, found,
  Mutation, set, delete, Uids, uid_of, Storage, Dgraph,
}
use elysium.Dgraph.Schema.{is_list}
use text.Mathlib.TextEquality.{eq_iff as str_eq_iff}
use elysium.Dgraph.Laws.{
  holds_text, fits_root, fits, select, put, target, set_all, is_blank, names_blank, IsFresh,
  IsWritten, Committed, IsDgraph,
}

pub data Memory : Type 0 where
  empty : Memory
  written : Uids → List Quad → Memory → Memory
  deleted : List Text → Memory → Memory

abbrev storage : Storage
storage = record { resolve = λ u. u; insert = λ o os. o ∷ os }

unfoldable pub read : Memory → Text → Values
unfolding set_all target put mem_text
read empty u = no_values
read (written uids qs db) u = set_all storage uids u qs (read db u)
read (deleted us db) u = if mem_text u us then no_values else read db u

targets : Uids → List Quad → List Text
unfolding target
targets uids [] = []
targets uids (q ∷ qs) = target storage uids q.subject ∷ targets uids qs

used : Memory → List Text
unfolding targets
used empty = []
used (written uids qs db) = targets uids qs ++ used db
used (deleted us db) = used db

ones : ℕ → Text
ones zero = []
ones (suc n) = b'1' ∷ ones n

-- Longer than every text of the list.
longest : List Text → ℕ
longest [] = 0
longest (t ∷ ts) = suc (length t + longest ts)

unfoldable pub next_uid : Memory → Text
unfolding ones longest used
next_uid db = b'0' ∷ b'x' ∷ ones (suc (longest (used db)))

assign : Text → List Quad → Uids
assign u [] = []
assign u (q ∷ qs) = elim q.subject [ uid v ↦ assign u qs | blank name ↦ (name, u) ∷ assign u qs ]

length-ones : (n : ℕ) → length (ones n) ≡ n
unfolding ones
length-ones zero = refl
length-ones (suc n) = omega (arith, length-ones n)

-- A text that is longer than all of a list is none of it.
not-mem_of_longer : (t : Text) (ts : List Text) → longest ts < length t → mem_text t ts ≡ false
unfolding longest mem_text
not-mem_of_longer t [] h = refl
not-mem_of_longer t (x ∷ ts) h = elim (Bool-cases (x == t)) [
  | inl same ↦ absurd (omega (arith, ap length ((eq_iff x t).0 same)))
  | inr other ↦ rw (other, mem_text) (not-mem_of_longer t ts (omega arith))
]

mem_text-append :
    (t : Text) (xs ys : List Text) → mem_text t (xs ++ ys) ≡ (mem_text t xs || mem_text t ys)
unfolding mem_text
mem_text-append t [] ys = refl
mem_text-append t (x ∷ xs) ys = ground (arith, mem_text-append t xs ys)

set_all_of_not_mem :
    (uids : Uids) (u : Text) (qs : List Quad) (vals : Values)
    → mem_text u (targets uids qs) ≡ false
    → set_all storage uids u qs vals ≡ vals
unfolding set_all targets mem_text target
set_all_of_not_mem uids u [] vals h = refl
set_all_of_not_mem uids u (q ∷ qs) vals h = elim (Bool-cases (target storage uids q.subject == u)) [
  | inl same ↦ cc (rw (same, mem_text) at h)
  | inr other ↦ rw (other, set_all) (set_all_of_not_mem uids u qs vals (rw (other, mem_text) at h))
]

read_of_not_mem : (db : Memory) (u : Text) → mem_text u (used db) ≡ false → read db u ≡ no_values
unfolding read used
read_of_not_mem empty u h = refl
read_of_not_mem (written uids qs db) u h =
    let split = mem_text-append u (targets uids qs) (used db) in
    set_all_of_not_mem uids u qs (read db u) (ground (arith, split))
    ∙ read_of_not_mem db u (ground (arith, split))
read_of_not_mem (deleted us db) u h = rw (read_of_not_mem db u h) (ground arith)

read-next_uid : (db : Memory) → read db (next_uid db) ≡ no_values
unfolding next_uid
read-next_uid db =
    read_of_not_mem db (next_uid db)
      (not-mem_of_longer _ (used db) (omega (arith, length-ones (suc (longest (used db))))))

uid_of-assign :
    (u : Text) (name : String) (qs : List Quad)
    → names_blank name qs ≡ true
    → uid_of (assign u qs) name ≡ u
unfolding uid_of assign names_blank is_blank
uid_of-assign u name [] h = cc
uid_of-assign u name (q ∷ qs) h = ground (arith, uid_of-assign u name qs)

root_uids : Root → List Text
root_uids (by_uid v) = v ∷ []
root_uids _ = []

answer : Query → Memory → List Text → List Node
unfolding root_uids
answer q db [] = []
answer q db (u ∷ us) =
    let rest = answer q db us in
    if not (mem_text u us) && fits storage q u (read db u)
    then record { uid = u; vals = select q.fields (read db u) } ∷ rest
    else rest

unfoldable pub run_query : Query → Memory → Reply
unfolding answer used root_uids
run_query q db = found (answer q db (root_uids q.root ++ used db))

unfoldable pub run_set : List Quad → Memory → Option Uids
unfolding assign next_uid
run_set qs db = some (assign (next_uid db) qs)

unfoldable pub run_mutation : Mutation → Memory → Option Uids × Memory
unfolding assign next_uid
run_mutation (set qs) db = (some (assign (next_uid db) qs), written (assign (next_uid db) qs) qs db)
run_mutation (delete us) db = (some [], deleted us db)

-- Refused where the uids that the transaction reserved are no longer free.
unfoldable pub run_commit : Memory → List Quad → Uids → Memory → Bool × Memory
unfolding next_uid used
run_commit start qs uids db =
    if mem_text (next_uid start) (used db) then (false, db) else (true, written uids qs db)

instance abbrev pub memory : Dgraph Memory
memory = record {
  storage = storage;
  query = run_query;
  mutate = run_mutation;
  stage = run_set;
  commit = run_commit;
}

abbrev Right : Query → Memory → Node → Type 0
Right q db n =
    (fits storage q n.uid (read db n.uid) ≡ true)
    × (n.vals ≡ select q.fields (read db n.uid))
    × (storage.resolve n.uid ≡ n.uid)

answer_sound : (q : Query) (db : Memory) (us : List Text) → All (Right q db) (answer q db us)
unfolding answer
answer_sound q db [] = tt
answer_sound q db (u ∷ us) =
    elim (Bool-cases (not (mem_text u us) && fits storage q u (read db u))) [
      | inl yes_it ↦ rw (yes_it, answer) ((ground arith, refl, refl), answer_sound q db us)
      | inr not_it ↦ rw (not_it, answer) (answer_sound q db us)
    ]

answer_complete :
    (q : Query) (db : Memory) (us : List Text) (u : Text)
    → fits storage q u (read db u) ≡ true
    → mem_text u us ≡ true
    → mem_text u (map (λ (n : Node). n.uid) (answer q db us)) ≡ true
unfolding answer mem_text
answer_complete q db [] u f m = cc
answer_complete q db (x ∷ us) u f m = ground (arith, answer_complete q db us u f, eq_iff x u)

-- A node that fits by its values has some.
used_of_fits :
    (r : Root) (db : Memory) (u : Text)
    → fits_root storage r u (read db u) ≡ true
    → mem_text u (root_uids r ++ used db) ≡ true
unfolding root_uids fits_root holds_text mem_text
used_of_fits (by_uid v) db u f = ground (arith, eq_iff u v, eq_iff v u)
used_of_fits (by_eq p t) db u f = elim (Bool-cases (mem_text u (used db))) [
  | inl old ↦ old
  | inr new ↦ cc (rw (read_of_not_mem db u new) at f)
]
used_of_fits (by_type t) db u f = elim (Bool-cases (mem_text u (used db))) [
  | inl old ↦ old
  | inr new ↦ cc (rw (read_of_not_mem db u new) at f)
]

pub run_query_sound :
    (q : Query) (db : Memory) (ns : List Node) → run_query q db ≡ found ns → All (Right q db) ns
unfolding run_query
run_query_sound q db ns e =
    let same : answer q db (root_uids q.root ++ used db) ≡ ns = cc in
    rw same at (answer_sound q db (root_uids q.root ++ used db))

pub run_query_complete :
    (q : Query) (db : Memory) (ns : List Node) (u : Text)
    → run_query q db ≡ found ns
    → fits storage q u (read db u) ≡ true
    → mem_text u (map (λ (n : Node). n.uid) ns) ≡ true
unfolding run_query
run_query_complete q db ns u e f =
    let same : answer q db (root_uids q.root ++ used db) ≡ ns = cc in
    rw same at (
      answer_complete q db (root_uids q.root ++ used db) u f
        (used_of_fits q.root db u (ground arith)))

map_resolve : (us : List Text) → map storage.resolve us ≡ us
map_resolve [] = refl
map_resolve (u ∷ us) = ap (λ vs. u ∷ vs) (map_resolve us)

free-IsFresh :
    (start db : Memory)
    → read db (next_uid start) ≡ no_values
    → IsFresh memory read db (next_uid start)
unfolding next_uid ◌==◌
free-IsFresh start db e = record { canonical = refl; nonempty = refl; unused = e }

set-IsWritten :
    (qs : List Quad) (db : Memory)
    → IsWritten memory read qs
        (assign (next_uid db) qs)
        db
        (written (assign (next_uid db) qs) qs db)
unfolding read
set-IsWritten qs db = record {
  reads = λ u. refl;
  fresh =
      λ name h. rw (uid_of-assign (next_uid db) name qs h) (free-IsFresh db db (read-next_uid db));
}

pub mutation-Committed :
    (m : Mutation) (db : Memory) (uids : Uids)
    → (run_mutation m db).0 ≡ some uids
    → Committed memory read m uids db (run_mutation m db).1
unfolding run_mutation
mutation-Committed (set qs) db uids e =
    let same : assign (next_uid db) qs ≡ uids = cc in
    subst (λ us. IsWritten memory read qs us db (written (assign (next_uid db) qs) qs db)) same
      (set-IsWritten qs db)
mutation-Committed (delete us) db uids e =
    unfold read in record { reads = λ u. rw (map_resolve us) refl }

pub mutation_answers : (m : Mutation) (db : Memory) → (run_mutation m db).0 ≢ none
unfolding run_mutation
mutation_answers (set qs) db e = cc
mutation_answers (delete us) db e = cc

pub commit-IsWritten :
    (qs : List Quad) (uids : Uids) (start db : Memory)
    → run_set qs start ≡ some uids
    → (run_commit start qs uids db).0 ≡ true
    → IsWritten memory read qs uids db (run_commit start qs uids db).1
unfolding run_set run_commit read
commit-IsWritten qs uids start db e d =
    let same : assign (next_uid start) qs ≡ uids = cc in
    let idle : mem_text (next_uid start) (used db) ≡ false = ground arith in
    rw (idle, run_commit)
      (record {
        reads = λ u. refl;
        fresh = λ name h.
            rw (← same, uid_of-assign (next_uid start) name qs h)
              (free-IsFresh start db (read_of_not_mem db _ idle));
      })

pub commit_aborted :
    (qs : List Quad) (uids : Uids) (start db : Memory)
    → (run_commit start qs uids db).0 ≡ false
    → (u : Text) → read (run_commit start qs uids db).1 u ≡ read db u
unfolding run_commit
commit_aborted qs uids start db d u = elim (Bool-cases (mem_text (next_uid start) (used db))) [
  | inl taken ↦ rw (taken, run_commit)
  | inr idle ↦ cc (rw (idle, run_commit) at d)
]

put_if_single :
    (b : Bool) (q : Quad) (vals : Values) (p : String)
    → is_list p ≡ false
    → length (vals p) ≤ 1
    → length ((if b then put storage q.predicate q.object vals else vals) p) ≤ 1
unfolding put
put_if_single false q vals p l h = h
put_if_single true q vals p l h = elim (Bool-cases (str_eq q.predicate p)) [
  | inl same ↦ rw (same, (str_eq_iff q.predicate p).0 same, l) (omega arith)
  | inr other ↦ rw other h
]

set_all-single :
    (uids : Uids) (u : Text) (qs : List Quad) (vals : Values) (p : String)
    → is_list p ≡ false
    → length (vals p) ≤ 1
    → length (set_all storage uids u qs vals p) ≤ 1
unfolding set_all
set_all-single uids u [] vals p l h = h
set_all-single uids u (q ∷ qs) vals p l h =
    set_all-single uids u qs _ p l (put_if_single (target storage uids q.subject == u) q vals p l h)

pub read_single :
    (db : Memory) (u : Text) (p : String) → is_list p ≡ false → length (read db u p) ≤ 1
unfolding read
read_single empty u p l = omega arith
read_single (written uids qs db) u p l =
    set_all-single uids u qs (read db u) p l (read_single db u p l)
read_single (deleted us db) u p l = ground (arith, read_single db u p l)

unfoldable pub memory_laws : IsDgraph memory
unfolding holds_text
memory_laws = record {
  read = read;
  sound = λ q db ns _ e. run_query_sound q db ns e;
  complete = λ q db ns u _ e f. run_query_complete q db ns u e f;
  mutated = mutation-Committed;
  mutate_lost = λ m db e. absurd (mutation_answers m db e);
  committed = commit-IsWritten;
  commit_lost = λ qs uids start db staged e. inl (commit_aborted qs uids start db e);
  single = read_single;
  insert_text = λ s t os. refl;
}
