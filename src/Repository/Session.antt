-- ===== src/Repository/Session.antt =====
-- internal/repository/dgraph/session.go: the operations of `SessionRepo`, over Dgraph. RFC 3339
-- texts of UTC times are represented by the seconds that they denote.
pub mod Wire
pub mod Quads
pub mod Revoked
pub mod Lookup
pub mod Bulk
pub mod Rotation
pub mod Creation
use elysium.Prelude.{
  ℕ, ◌/◌, String, Bool, true, false, ◌&&◌, ◌||◌, Option, none, some, List, [], ◌∷◌, ◌++◌, map, Text,
  ◌==◌, lit, leb, nat_eq, has_prefix, drop_prefix, if◌then◌else◌, length, is_empty,
}
use elysium.Errors.{Error, sentinel, outside, wrap, refresh_token_replayed}
use elysium.Dgraph.{
  Object, str, int, bool, time, uid, blank, Quad, Node, by_uid, by_eq, by_type, unfiltered,
  has_type, not_true, le_time, unordered, orderasc, Query, set, delete, Uids, uid_of, Dgraph, about,
  each_text,
}
use elysium.World.{
  World, Action, ◌>>=◌, ◌>>◌, return, fail, time_now, begin, fetch, txn_fetch, mutate_now,
  txn_mutate, txn_commit,
}
use elysium.Domain.Session.{second, Session, SessionCreateInput, SessionRefreshInput}
use Wire.{
  SessionNode, unmarshal_session, node_to_session, format_rfc3339, session_fields, rotation_fields,
}
use Quads.{session_pairs, snapshot_pairs, revocation_pairs, rotation_quads, revoke_each}

abbrev is_hex_digit : ℕ → Bool
is_hex_digit c =
    (leb b'0' c && leb c b'9') || (leb b'a' c && leb c b'f') || (leb b'A' c && leb c b'F')

abbrev all_hex : Text → Bool
all_hex [] = true
all_hex (c ∷ cs) = is_hex_digit c && all_hex cs

-- `validDgraphUID.MatchString(id)`: ^0x[0-9a-fA-F]+$
unfoldable pub valid_dgraph_uid : Text → Bool
unfolding has_prefix drop_prefix
valid_dgraph_uid id =
    let digits = drop_prefix id (lit "0x") in
    has_prefix id (lit "0x") && (if is_empty digits then false else all_hex digits)

abbrev pub first_session : List Node → Option Session
first_session [] = none
first_session (n ∷ ns) = some (node_to_session (unmarshal_session n.uid n.vals))

abbrev pub nodes_uids : List Node → List Text
nodes_uids ns = map (λ (n : Node). n.uid) ns

-- The queries.
unfoldable pub id_query : Text → List String → Query
id_query id fields = record {
  root = by_uid id;
  filter = has_type "Session";
  order = unordered;
  fields = fields;
  best_effort = false;
}

unfoldable pub hash_query : String → Text → Query
hash_query predicate value = record {
  root = by_eq predicate value;
  filter = has_type "Session";
  order = unordered;
  fields = session_fields;
  best_effort = false;
}

unfoldable pub active_query : Text → Query
active_query user_id = record {
  root = by_eq "session.user_id" user_id;
  filter = not_true "session.revoked";
  order = unordered;
  fields = [];
  best_effort = false;
}

unfoldable pub list_query : Text → Query
list_query user_id = record {
  root = by_eq "session.user_id" user_id;
  filter = not_true "session.revoked";
  order = orderasc "session.last_seen_at";
  fields = session_fields;
  best_effort = false;
}

unfoldable pub expired_query : ℕ → Query
expired_query threshold = record {
  root = by_type "Session";
  filter = le_time "session.refresh_expires_at" threshold;
  order = unordered;
  fields = [];
  best_effort = false;
}

module _ {Db : Type 0} ⦃dg : Dgraph Db⦄ where
  -- `queryOne`.
  unfoldable pub query_one : String → Text → Action Db (Option Session)
  query_one predicate value = do
    ns ← fetch "dgraph: query session" (hash_query predicate value)
    return (first_session ns)

  unfoldable pub get_by_access_hash : Text → Action Db (Option Session)
  get_by_access_hash hash = query_one "session.access_token_hash" hash

  unfoldable pub get_by_refresh_hash : Text → Action Db (Option Session)
  get_by_refresh_hash hash = query_one "session.refresh_token_hash" hash

  unfoldable pub get_by_id : Text → Action Db (Option Session)
  get_by_id id =
      if valid_dgraph_uid id
      then (do
        ns ← fetch "dgraph: get session by id" (id_query id session_fields)
        return (first_session ns))
      else fail (outside "dgraph: get session by id: invalid uid format")

  -- The end of `Create` and of `RotateTokens`: read the node with the uid returned.
  unfoldable pub read_back : String → Text → Action Db (Option Session)
  read_back missing u = if u == [] then fail (outside missing) else get_by_id u

  unfoldable pub create : SessionCreateInput → Action Db (Option Session)
  create i = do
    now ← time_now
    uids ←
        mutate_now "dgraph: create session"
          (set (about (blank "session") (session_pairs i now ++ snapshot_pairs i)))
    read_back "dgraph: create session: no uid returned" (uid_of uids "session")

  -- The tests on what a rotation has read: the session is there, and it is not revoked.
  unfoldable pub check_old : List Node → Action Db SessionNode
  check_old [] = fail (outside "dgraph: session not found during rotation")
  check_old (n ∷ ns) =
      let old = unmarshal_session n.uid n.vals in
      if old.revoked then fail (sentinel refresh_token_replayed) else return old

  -- `RotateTokens` up to those tests, in the transaction that began on the state `start`.
  unfoldable pub rotation_read : Db → Text → Action Db SessionNode
  rotation_read start id = do
    ns ← txn_fetch "dgraph: rotate tokens read" start (id_query id rotation_fields)
    check_old ns

  -- The rest of `RotateTokens`: write, commit and read the new session.
  unfoldable pub rotation_write :
      Db → SessionNode → SessionRefreshInput → Action Db (Option Session)
  rotation_write start old i = do
    now ← time_now
    uids ← txn_mutate "dgraph: rotate tokens mutate" start (rotation_quads old i now)
    txn_commit "dgraph: rotate tokens commit" start (rotation_quads old i now) uids
    read_back "dgraph: rotate tokens: no uid returned for new session" (uid_of uids "new")

  unfoldable pub rotate_tokens : SessionRefreshInput → Action Db (Option Session)
  rotate_tokens i =
      if valid_dgraph_uid i.old_session_id
      then (do
        start ← begin
        old ← rotation_read start i.old_session_id
        rotation_write start old i)
      else fail (outside "dgraph: rotate tokens: invalid uid format")

  unfoldable pub revoke : Text → Action Db (Unit {0})
  revoke session_id = do
    now ← time_now
    mutate_now "dgraph: revoke session" (set (about (uid session_id) (revocation_pairs now)))
    return tt

  -- Nothing is written where no session is active.
  unfoldable pub revoke_nodes : List Node → Action Db (Unit {0})
  revoke_nodes [] = return tt
  revoke_nodes (n ∷ ns) = do
    now ← time_now
    mutate_now "dgraph: bulk revoke sessions" (set (revoke_each now (n ∷ ns)))
    return tt

  unfoldable pub revoke_all_for_user : Text → Action Db (Unit {0})
  revoke_all_for_user user_id = do
    ns ← fetch "dgraph: list sessions for bulk revoke" (active_query user_id)
    revoke_nodes ns

  unfoldable pub list_for_user : Text → Action Db (List Session)
  list_for_user user_id = do
    ns ← fetch "dgraph: list sessions for user" (list_query user_id)
    return (map (λ (n : Node). node_to_session (unmarshal_session n.uid n.vals)) ns)

  unfoldable pub touch : Text → Action Db (Unit {0})
  touch session_id = do
    now ← time_now
    mutate_now "dgraph: touch session"
        (set (about (uid session_id) (("session.last_seen_at", format_rfc3339 now) ∷ [])))
    return tt

  unfoldable pub delete_nodes : List Node → Action Db ℕ
  delete_nodes [] = return 0
  delete_nodes (n ∷ ns) = do
    mutate_now "dgraph: delete expired sessions" (delete (nodes_uids (n ∷ ns)))
    return (length (n ∷ ns))

  unfoldable pub delete_expired : Action Db ℕ
  delete_expired = do
    now ← time_now
    ns ← fetch "dgraph: query expired sessions" (expired_query (now / second))
    delete_nodes ns

-- Opening this opens every operation and what it calls.
unfoldable pub session_repo : Unit {0}
unfolding query_one get_by_access_hash get_by_refresh_hash get_by_id read_back create check_old
    rotation_read rotation_write rotate_tokens revoke revoke_nodes revoke_all_for_user list_for_user
    touch delete_nodes delete_expired valid_dgraph_uid id_query hash_query active_query list_query
    expired_query session_pairs snapshot_pairs revocation_pairs rotation_quads revoke_each
    unmarshal_session node_to_session format_rfc3339 time_now begin fetch txn_fetch mutate_now
    txn_mutate txn_commit ◌==◌
session_repo = tt
