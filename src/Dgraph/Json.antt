-- ===== src/Dgraph/Json.antt =====
-- The JSON objects of mutations (`SetJson`): the keys that encoding/json writes for a struct, and
-- what they leave in a node.
use elysium.Prelude.{
  ℕ, String, ◌≡◌, refl, ◌∙◌, false, Option, none, some, List, [], ◌∷◌, Text, str_eq, if◌then◌else◌,
  arith,
}
use elysium.Dgraph.{Object, str, time, Values, Storage}
use elysium.Dgraph.Schema.{is_list}
use elysium.Dgraph.Laws.{put, put_all}

-- The value of a key: a text or a time with the option `omitempty`, or a value without it.
pub data Entry : Type 0 where
  omitempty : Text → Entry
  omitempty_time : Option ℕ → Entry
  always : Object → Entry

-- `json.Marshal` of a struct with these fields, as predicates and values.
unfoldable pub marshal : List (String × Entry) → List (String × Object)
marshal [] = []
marshal ((p, omitempty []) ∷ es) = marshal es
marshal ((p, omitempty (c ∷ cs)) ∷ es) = (p, str (c ∷ cs)) ∷ marshal es
marshal ((p, omitempty_time none) ∷ es) = marshal es
marshal ((p, omitempty_time (some t)) ∷ es) = (p, time t) ∷ marshal es
marshal ((p, always o) ∷ es) = (p, o) ∷ marshal es

-- The values of a predicate after one key was written to it.
abbrev pub entered : Entry → List Object → List Object
entered (omitempty []) old = old
entered (omitempty (c ∷ cs)) old = str (c ∷ cs) ∷ []
entered (omitempty_time none) old = old
entered (omitempty_time (some t)) old = time t ∷ []
entered (always o) old = o ∷ []

abbrev pub entered_at : String → List (String × Entry) → List Object → List Object
entered_at r [] old = old
entered_at r ((p, e) ∷ es) old = entered_at r es (if str_eq p r then entered e old else old)

abbrev pub NoLists : List (String × Entry) → Type 0
NoLists [] = Unit
NoLists ((p, e) ∷ es) = (is_list p ≡ false) × NoLists es

module _ (st : Storage) where
  put_single :
      (p r : String) (o : Object) (vals : Values)
      → is_list p ≡ false
      → put st p o vals r ≡ (if str_eq p r then o ∷ [] else vals r)
  unfolding put
  put_single p r o vals h = rw h refl

  -- The object of a struct writes each predicate by its own key.
  pub put_all-marshal :
      (es : List (String × Entry)) (vals : Values) (r : String)
      → NoLists es
      → put_all st (marshal es) vals r ≡ entered_at r es (vals r)
  unfolding put_all marshal
  put_all-marshal [] vals r h = refl
  put_all-marshal ((p, omitempty []) ∷ es) vals r h = ground (arith, put_all-marshal es vals r h.1)
  put_all-marshal ((p, omitempty (c ∷ cs)) ∷ es) vals r h =
      put_all-marshal es (put st p (str (c ∷ cs)) vals) r h.1
      ∙ rw (put_single p r (str (c ∷ cs)) vals h.0) refl
  put_all-marshal ((p, omitempty_time none) ∷ es) vals r h =
      ground (arith, put_all-marshal es vals r h.1)
  put_all-marshal ((p, omitempty_time (some t)) ∷ es) vals r h =
      put_all-marshal es (put st p (time t) vals) r h.1 ∙ rw (put_single p r (time t) vals h.0) refl
  put_all-marshal ((p, always o) ∷ es) vals r h =
      put_all-marshal es (put st p o vals) r h.1 ∙ rw (put_single p r o vals h.0) refl
