-- ===== src/Dgraph/Memory/Conditional.antt =====
-- Conditional upserts, pages and query variables of the database in memory.
use elysium.Prelude.{
  ℕ, zero, suc, ◌≤◌, String, ◌≡◌, ◌≢◌, refl, ◌⊎◌, inl, inr, Bool, true, false, ◌||◌, Option, none,
  some, List, [], ◌∷◌, ◌++◌, Text, All, length, str_eq, if◌then◌else◌, arith, Bool-cases, mem_text,
  ◌==◌, eq_iff, not,
}
use elysium.Dgraph.{Quad, Node, Uids}
use elysium.Domain.User.{ℤ, pos, negsuc}
use elysium.Dgraph.Laws.{holds_text, fits, select, IsWritten, Unchanged}
use elysium.Dgraph.Upserts.{
  Absences, PageQuery, PageReply, page, page_nodes_query, Upserts, AllAbsent, SomePresent,
  IsUpserts,
}
use elysium.Dgraph.Memory.{
  Memory, empty, written, deleted, read, used, root_uids, answer, answer_sound, assign, next_uid,
  read_of_not_mem, set-IsWritten, storage, Right, memory, memory_laws,
}

unfoldable pub held : String → Text → Memory → List Text → Bool
held p t db [] = false
held p t db (u ∷ us) = holds_text t (read db u p) || held p t db us

unfoldable pub some_held : Absences → Memory → Bool
unfolding held used
some_held [] db = false
some_held ((p, t) ∷ cs) db = held p t db (used db) || some_held cs db

unfoldable pub run_upsert : Absences → List Quad → Memory → Option Uids × Memory
unfolding some_held assign next_uid
run_upsert cs qs db =
    if some_held cs db
    then (some [], db)
    else (some (assign (next_uid db) qs), written (assign (next_uid db) qs) qs db)

-- One for each write.
unfoldable pub writes : Memory → ℕ
writes empty = 0
writes (written uids qs db) = suc (writes db)
writes (deleted us db) = suc (writes db)

unfoldable pub take : ℕ → List Node → List Node
take zero ns = []
take (suc n) [] = []
take (suc n) (m ∷ ns) = m ∷ take n ns

unfoldable pub drop : ℕ → List Node → List Node
drop zero ns = ns
drop (suc n) [] = []
drop (suc n) (m ∷ ns) = drop n ns

abbrev size : ℤ → ℕ
size (pos n) = n
size (negsuc n) = 0

unfoldable pub run_page : PageQuery → Memory → PageReply
unfolding answer used root_uids take drop
run_page q db =
    page
      (take (size q.first)
        (drop (size q.offset) (answer (page_nodes_query q) db (root_uids q.root ++ used db))))
      (length (answer (page_nodes_query q) db (root_uids q.root ++ used db)) ∷ [])

unfoldable pub declares : List String → String → Bool
declares [] k = false
declares (d ∷ ds) k = str_eq d k || declares ds k

-- Refused as soon as a variable is not declared.
unfoldable pub run_value : List String → List (String × Text) → String → Option Text
unfolding declares
run_value ds [] x = some []
run_value ds ((k, v) ∷ vars) x =
    let rest = run_value ds vars x in
    if not (declares ds k) then none else if str_eq k x then some v else rest

instance abbrev pub conditional : Upserts Memory
conditional = record {
  upsert = run_upsert;
  commit_ts = λ db. some (writes db);
  query_page = run_page;
  value_of = run_value;
}

absent_of_held :
    (p : String) (t : Text) (db : Memory) (us : List Text) (u : Text)
    → held p t db us ≡ false
    → mem_text u us ≡ true
    → holds_text t (read db u p) ≡ false
unfolding held mem_text
absent_of_held p t db [] u h m = cc
absent_of_held p t db (x ∷ us) u h m = elim (Bool-cases (x == u)) [
  | inl e ↦ rw (← (eq_iff x u).0 e) (ground arith)
  | inr e ↦ absent_of_held p t db us u (ground arith) (rw e at m)
]

absent_everywhere :
    (p : String) (t : Text) (db : Memory) (u : Text)
    → held p t db (used db) ≡ false
    → holds_text t (read db u p) ≡ false
unfolding holds_text
absent_everywhere p t db u h = elim (Bool-cases (mem_text u (used db))) [
  | inl e ↦ absent_of_held p t db (used db) u h e
  | inr e ↦ rw (read_of_not_mem db u e) refl
]

present_of_held :
    (p : String) (t : Text) (db : Memory) (us : List Text)
    → held p t db us ≡ true
    → (u : Text) × (holds_text t (read db u p) ≡ true)
unfolding held
present_of_held p t db [] h = absurd (ground arith)
present_of_held p t db (x ∷ us) h = elim (Bool-cases (holds_text t (read db x p))) [
  | inl e ↦ (x, e)
  | inr e ↦ present_of_held p t db us (rw e at h)
]

some_held-AllAbsent : (cs : Absences) (db : Memory) → some_held cs db ≡ false → AllAbsent read db cs
unfolding some_held
some_held-AllAbsent [] db h = tt
some_held-AllAbsent ((p, t) ∷ cs) db h =
    (λ u. absent_everywhere p t db u (ground arith), some_held-AllAbsent cs db (ground arith))

some_held-SomePresent :
    (cs : Absences) (db : Memory) → some_held cs db ≡ true → SomePresent read db cs
unfolding some_held
some_held-SomePresent [] db h = absurd (ground arith)
some_held-SomePresent ((p, t) ∷ cs) db h = elim (Bool-cases (held p t db (used db))) [
  | inl e ↦ inl (present_of_held p t db (used db) e)
  | inr e ↦ inr (some_held-SomePresent cs db (rw e at h))
]

run_upsert_lem :
    (cs : Absences) (qs : List Quad) (db : Memory) (uids : Uids)
    → (run_upsert cs qs db).0 ≡ some uids
    → (AllAbsent read db cs × IsWritten memory read qs uids db (run_upsert cs qs db).1)
      ⊎ (SomePresent read db cs × (uids ≡ []) × Unchanged memory read db (run_upsert cs qs db).1)
unfolding run_upsert
run_upsert_lem cs qs db uids h = elim (Bool-cases (some_held cs db)) [
  | inl e ↦ rw e (inr (some_held-SomePresent cs db e, cc (rw e at h), λ u. refl))
  | inr e ↦
      let same : assign (next_uid db) qs ≡ uids = cc (rw e at h) in
      rw e (inl (some_held-AllAbsent cs db e, rw (← same) (set-IsWritten qs db)))
]

run_upsert_answers : (cs : Absences) (qs : List Quad) (db : Memory) → (run_upsert cs qs db).0 ≢ none
unfolding run_upsert
run_upsert_answers cs qs db h = elim (Bool-cases (some_held cs db)) [
  | inl e ↦ cc (rw e at h)
  | inr e ↦ cc (rw e at h)
]

All-drop : (P : Node → Type 0) (n : ℕ) (ns : List Node) → All P ns → All P (drop n ns)
unfolding drop
All-drop P zero ns h = h
All-drop P (suc n) [] h = tt
All-drop P (suc n) (m ∷ ns) h = All-drop P n ns h.1

All-take : (P : Node → Type 0) (n : ℕ) (ns : List Node) → All P ns → All P (take n ns)
unfolding take
All-take P zero ns h = tt
All-take P (suc n) [] h = tt
All-take P (suc n) (m ∷ ns) h = (h.0, All-take P n ns h.1)

length-take : (n : ℕ) (ns : List Node) → length (take n ns) ≤ n
unfolding take
length-take zero ns = omega arith
length-take (suc n) [] = omega arith
length-take (suc n) (m ∷ ns) = omega (arith, length-take n ns)

All-weaken : (P Q : Node → Type 0) (ns : List Node) → ((n : Node) → P n → Q n) → All P ns → All Q ns
All-weaken P Q [] f h = tt
All-weaken P Q (n ∷ ns) f h = (f n h.0, All-weaken P Q ns f h.1)

run_page_sound :
    (q : PageQuery) (db : Memory) (ns : List Node) (total : List ℕ) (n : ℕ)
    → q.best_effort ≡ false
    → q.first ≡ pos n
    → run_page q db ≡ page ns total
    → (length ns ≤ n)
      × All
          (λ m.
            (fits storage (page_nodes_query q) m.uid (read db m.uid) ≡ true)
            × (m.vals ≡ select q.fields (read db m.uid)))
          ns
unfolding run_page
run_page_sound q db ns total n _ f e =
    let whole = answer (page_nodes_query q) db (root_uids q.root ++ used db) in
    let same : take (size q.first) (drop (size q.offset) whole) ≡ ns = cc in
    let cut : take n (drop (size q.offset) whole) ≡ ns = rw f at same in
    rw (← cut) (
      length-take n (drop (size q.offset) whole),
      All-take _ n (drop (size q.offset) whole) (
          All-drop _ (size q.offset) whole (
            All-weaken (Right (page_nodes_query q) db) _ whole (λ m r. (r.0, r.1))
              (answer_sound (page_nodes_query q) db (root_uids q.root ++ used db)))),
    )

undeclared :
    (ds : List String) (k : String) → All (λ d. str_eq d k ≡ false) ds → declares ds k ≡ false
unfolding declares
undeclared [] k h = refl
undeclared (d ∷ ds) k h = rw h.0 (undeclared ds k h.1)

run_value_refused :
    (ds : List String) (k : String) (v : Text) (x : String)
    → All (λ d. str_eq d k ≡ false) ds
    → run_value ds ((k, v) ∷ []) x ≡ none
unfolding run_value
run_value_refused ds k v x h = rw (undeclared ds k h) refl

pub conditional_laws : IsUpserts memory_laws conditional
unfolding memory_laws
conditional_laws = record {
  upserted = run_upsert_lem;
  upsert_lost = λ cs qs db e. absurd (run_upsert_answers cs qs db e);
  page_sound = run_page_sound;
  undeclared_refused = run_value_refused;
}
