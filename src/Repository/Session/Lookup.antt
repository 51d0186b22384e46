-- ===== src/Repository/Session/Lookup.antt =====
-- internal/repository/dgraph/session.go: what the lookups of `SessionRepo` find.
use elysium.Prelude.{
  ◌≤◌, String, ◌≡◌, refl, ap, ◌∙◌, true, false, some, List, [], ◌∷◌, Text, lit, length, arith,
}
use elysium.Errors.{ok}
use elysium.Dgraph.{
  Object, str, int, bool, time, Values, Node, has_type, Query, Reply, failed, malformed, found,
  Dgraph,
}
use elysium.Dgraph.Schema.{is_list}
use elysium.Dgraph.Laws.{
  holds_text, holds_true, fits_root, fits_filter, fits, select, listed, IsDgraph,
}
use elysium.World.{World, fetch}
use elysium.Domain.Session.{Session}
use elysium.Repository.Session.Wire.{
  bool_field, unmarshal_session, node_to_session, session_fields, read_session,
}
use elysium.Repository.Session.{first_session, hash_query, query_one}

-- A boolean predicate with one value at most.
pub bool_field-eq-holds_true : (os : List Object) → length os ≤ 1 → bool_field os ≡ holds_true os
unfolding bool_field holds_true
bool_field-eq-holds_true [] h = refl
bool_field-eq-holds_true (bool b ∷ []) h = ground arith
bool_field-eq-holds_true (str t ∷ []) h = refl
bool_field-eq-holds_true (int t ∷ []) h = refl
bool_field-eq-holds_true (time t ∷ []) h = refl
bool_field-eq-holds_true (o ∷ p ∷ os) h = absurd (omega arith)

-- A query for `sessionFields` brings all that the conversion reads.
read_session-select :
    (u : Text) (vals : Values) → read_session u (select session_fields vals) ≡ read_session u vals
unfolding select listed unmarshal_session
read_session-select u vals = refl

module _ {Db : Type 0} ⦃dg : Dgraph Db⦄ (laws : IsDgraph dg) where
  -- The session that the database holds under a uid.
  abbrev pub session_at : Db → Text → Session
  session_at db u = read_session u (laws.read db u)

  -- The node `u` is a session, and the query's root selects it.
  pub record IsFound (q : Query) (db : Db) (s : Session) : Type 0 where
    pub stored : s ≡ session_at db s.id
    pub typed : holds_text (lit "Session") (laws.read db s.id "dgraph.type") ≡ true
    pub selected : fits_root dg.storage q.root s.id (laws.read db s.id) ≡ true
    pub marked : s.revoked ≡ holds_true (laws.read db s.id "session.revoked")
    pub canonical : dg.storage.resolve s.id ≡ s.id

  node-IsFound :
      (q : Query) (db : Db) (n : Node)
      → q.fields ≡ session_fields
      → q.filter ≡ has_type "Session"
      → (fits dg.storage q n.uid (laws.read db n.uid) ≡ true)
        × (n.vals ≡ select q.fields (laws.read db n.uid))
        × (dg.storage.resolve n.uid ≡ n.uid)
      → IsFound q db (read_session n.uid n.vals)
  unfolding unmarshal_session node_to_session fits_filter is_list
  node-IsFound q db n f t (fit, same, canon) =
      let whole : read_session n.uid n.vals ≡ session_at db n.uid =
        rw (same, f) (read_session-select n.uid (laws.read db n.uid)) in
      record {
        stored = whole;
        typed = ground arith;
        selected = ground arith;
        marked =
            ap (λ (s : Session). s.revoked) whole
            ∙ bool_field-eq-holds_true _ (laws.single db n.uid "session.revoked" refl);
        canonical = canon;
      }

  pub first_session-IsFound :
      (q : Query) (db : Db) (ns : List Node) (s : Session)
      → q.best_effort ≡ false
      → q.fields ≡ session_fields
      → q.filter ≡ has_type "Session"
      → dg.query q db ≡ found ns
      → first_session ns ≡ some s
      → IsFound q db s
  first_session-IsFound q db [] s b f t e h = cc
  first_session-IsFound q db (n ∷ ns) s b f t e h =
      let same : read_session n.uid n.vals ≡ s = cc in
      rw same at (node-IsFound q db n f t (laws.sound q db (n ∷ ns) b e).0)

  -- What `queryOne` returns is stored, is a session, and holds the value under the predicate.
  pub query_one-IsFound :
      (p : String) (t : Text) (w : World Db) (s : Session)
      → (query_one p t w).0 ≡ ok (some s)
      → IsFound (hash_query p t) w.db s
  unfolding query_one fetch hash_query
  query_one-IsFound p t w s h = answered (dg.query (hash_query p t) w.db) refl
    where
      answered : (r : Reply) → dg.query (hash_query p t) w.db ≡ r → IsFound (hash_query p t) w.db s
      answered failed e = cc (rw e at h)
      answered malformed e = cc (rw e at h)
      answered (found ns) e = first_session-IsFound _ w.db ns s refl refl refl e (ground arith)
