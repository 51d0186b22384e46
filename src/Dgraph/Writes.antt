-- ===== src/Dgraph/Writes.antt =====
-- What a list of writes leaves in a node: the laws by which proofs read a node after a mutation.
use elysium.Prelude.{
  String, ◌≡◌, refl, ◌∙◌, true, false, List, [], ◌∷◌, ◌++◌, Text, ◌==◌, str_eq, ◌||◌, arith,
  mem_text,
}
use elysium.Dgraph.{Object, str, Subject, Quad, Values, Uids, Storage, Dgraph, about, each_text}
use elysium.Dgraph.Schema.{is_list}
use elysium.Dgraph.Laws.{holds_text, put, put_all, target, set_all, names_blank, IsDgraph}

module _ (st : Storage) where
  pub set_all-append :
      (uids : Uids) (u : Text) (qs rs : List Quad) (vals : Values)
      → set_all st uids u (qs ++ rs) vals ≡ set_all st uids u rs (set_all st uids u qs vals)
  unfolding set_all
  set_all-append uids u [] rs vals = refl
  set_all-append uids u (q ∷ qs) rs vals = set_all-append uids u qs rs _

  -- Writes about one subject reach its node, and no other.
  pub set_all-about_self :
      (uids : Uids) (s : Subject) (pos : List (String × Object)) (vals : Values) (u : Text)
      → target st uids s == u ≡ true
      → set_all st uids u (about s pos) vals ≡ put_all st pos vals
  unfolding set_all about put_all
  set_all-about_self uids s [] vals u e = refl
  set_all-about_self uids s ((p, o) ∷ pos) vals u e =
      rw (e, set_all) (set_all-about_self uids s pos _ u e)

  pub set_all-about_other :
      (uids : Uids) (s : Subject) (pos : List (String × Object)) (vals : Values) (u : Text)
      → target st uids s == u ≡ false
      → set_all st uids u (about s pos) vals ≡ vals
  unfolding set_all about
  set_all-about_other uids s [] vals u e = refl
  set_all-about_other uids s ((p, o) ∷ pos) vals u e =
      rw (e, set_all) (set_all-about_other uids s pos vals u e)

  pub put_all-append :
      (pos qos : List (String × Object)) (vals : Values)
      → put_all st (pos ++ qos) vals ≡ put_all st qos (put_all st pos vals)
  unfolding put_all
  put_all-append [] qos vals = refl
  put_all-append ((p, o) ∷ pos) qos vals = put_all-append pos qos _

  -- The writes of a list of texts leave every other predicate alone.
  pub put_all-each_text_other :
      (p r : String) (ts : List Text) (vals : Values)
      → str_eq p r ≡ false
      → put_all st (each_text p ts) vals r ≡ vals r
  unfolding put_all each_text put
  put_all-each_text_other p r [] vals e = refl
  put_all-each_text_other p r (t ∷ ts) vals e =
      put_all-each_text_other p r ts (put st p (str t) vals) e ∙ rw e refl

pub names_blank-append_left :
    (name : String) (qs rs : List Quad)
    → names_blank name qs ≡ true
    → names_blank name (qs ++ rs) ≡ true
unfolding names_blank
names_blank-append_left name [] rs h = cc
names_blank-append_left name (q ∷ qs) rs h = ground (arith, names_blank-append_left name qs rs)

pub names_blank-append_right :
    (name : String) (qs rs : List Quad)
    → names_blank name rs ≡ true
    → names_blank name (qs ++ rs) ≡ true
unfolding names_blank
names_blank-append_right name [] rs h = h
names_blank-append_right name (q ∷ qs) rs h = ground (arith, names_blank-append_right name qs rs h)

module _ {Db : Type 0} {dg : Dgraph Db} (laws : IsDgraph dg) where
  -- A list predicate holds the texts written to it, and those that it held.
  pub holds_text-put_all :
      (p : String) (ts : List Text) (vals : Values) (t : Text)
      → is_list p ≡ true
      → str_eq p p ≡ true
      → holds_text t (put_all dg.storage (each_text p ts) vals p)
        ≡ (mem_text t ts || holds_text t (vals p))
  unfolding put_all each_text put mem_text
  holds_text-put_all p [] vals t l e = refl
  holds_text-put_all p (x ∷ ts) vals t l e = ground (
    arith,
    holds_text-put_all p ts (put dg.storage p (str x) vals) t l e,
    laws.insert_text x t (vals p),
  )
