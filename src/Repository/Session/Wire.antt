-- ===== src/Repository/Session/Wire.antt =====
-- internal/repository/dgraph/session.go: the wire format of a session, its fields in a query, and
-- the conversion to the domain.
use elysium.Prelude.{ℕ, ◌*◌, ◌/◌, String, Bool, false, Option, none, some, List, [], ◌∷◌, Text}
use elysium.Dgraph.{Object, str, int, bool, time, Values}
use elysium.Domain.Session.{Session, second}

-- `json.Unmarshal` into a field: the zero value where the predicate is absent.
unfoldable pub text_field : List Object → Text
text_field (str t ∷ os) = t
text_field _ = []

unfoldable pub texts_field : List Object → List Text
texts_field [] = []
texts_field (str t ∷ os) = t ∷ texts_field os
texts_field (_ ∷ os) = texts_field os

unfoldable pub int_field : List Object → ℕ
int_field (int n ∷ os) = n
int_field _ = 0

unfoldable pub bool_field : List Object → Bool
bool_field (bool b ∷ os) = b
bool_field _ = false

unfoldable pub time_field : List Object → Option ℕ
time_field (time t ∷ os) = some t
time_field _ = none

-- `t.UTC().Format(time.RFC3339)`.
unfoldable pub format_rfc3339 : ℕ → Object
format_rfc3339 t = time (t / second)

-- `t, _ := time.Parse(time.RFC3339, text)`: the zero time where there is none.
unfoldable pub parse_rfc3339 : Option ℕ → ℕ
parse_rfc3339 none = 0
parse_rfc3339 (some t) = t * second

-- `sessionNode`, with the JSON key of each field.
pub record SessionNode : Type 0 where
  pub uid : Text
  pub kind : Text
  pub user_id : Text
  pub client_id : Text
  pub actor_id : Text
  pub actor_type : Text
  pub access_token_hash : Text
  pub refresh_token_hash : Text
  pub refresh_jti : Text
  pub replaced_by_jti : Text
  pub permissions : List Text
  pub deleg_perms : List Text
  pub policy_groups : List Text
  pub perm_version : ℕ
  pub created_at : Option ℕ
  pub updated_at : Option ℕ
  pub last_seen_at : Option ℕ
  pub expires_at : Option ℕ
  pub refresh_expires_at : Option ℕ
  pub revoked : Bool
  pub revoked_at : Option ℕ
  pub user_agent : Text
  pub ip_address : Text

unfoldable pub unmarshal_session : Text → Values → SessionNode
unfolding text_field texts_field int_field bool_field time_field
unmarshal_session u vals = record {
  uid = u;
  kind = text_field (vals "session.kind");
  user_id = text_field (vals "session.user_id");
  client_id = text_field (vals "session.client_id");
  actor_id = text_field (vals "session.actor_id");
  actor_type = text_field (vals "session.actor_type");
  access_token_hash = text_field (vals "session.access_token_hash");
  refresh_token_hash = text_field (vals "session.refresh_token_hash");
  refresh_jti = text_field (vals "session.refresh_jti");
  replaced_by_jti = text_field (vals "session.replaced_by_jti");
  permissions = texts_field (vals "session.permissions");
  deleg_perms = texts_field (vals "session.delegated_permissions");
  policy_groups = texts_field (vals "session.policy_groups");
  perm_version = int_field (vals "session.permission_version");
  created_at = time_field (vals "session.created_at");
  updated_at = time_field (vals "session.updated_at");
  last_seen_at = time_field (vals "session.last_seen_at");
  expires_at = time_field (vals "session.expires_at");
  refresh_expires_at = time_field (vals "session.refresh_expires_at");
  revoked = bool_field (vals "session.revoked");
  revoked_at = time_field (vals "session.revoked_at");
  user_agent = text_field (vals "session.user_agent");
  ip_address = text_field (vals "session.ip_address");
}

-- `var revokedAt *time.Time; if n.RevokedAt != "" { … revokedAt = &t }`
unfoldable pub parse_revoked_at : Option ℕ → Option ℕ
parse_revoked_at none = none
parse_revoked_at (some t) = some (t * second)

-- `nodeToSession`.
unfoldable pub node_to_session : SessionNode → Session
unfolding parse_rfc3339 parse_revoked_at
node_to_session n = record {
  id = n.uid;
  kind = n.kind;
  user_id = n.user_id;
  client_id = n.client_id;
  actor_id = n.actor_id;
  actor_type = n.actor_type;
  access_token_hash = n.access_token_hash;
  refresh_token_hash = n.refresh_token_hash;
  refresh_jti = n.refresh_jti;
  replaced_by_jti = n.replaced_by_jti;
  permissions = n.permissions;
  delegated_permissions = n.deleg_perms;
  policy_groups = n.policy_groups;
  permission_version = n.perm_version;
  created_at = parse_rfc3339 n.created_at;
  updated_at = parse_rfc3339 n.updated_at;
  last_seen_at = parse_rfc3339 n.last_seen_at;
  expires_at = parse_rfc3339 n.expires_at;
  refresh_expires_at = parse_rfc3339 n.refresh_expires_at;
  revoked = n.revoked;
  revoked_at = parse_revoked_at n.revoked_at;
  user_agent = n.user_agent;
  ip_address = n.ip_address;
}

-- `sessionFields`.
abbrev pub session_fields : List String
session_fields =
    "session.kind" ∷ "session.user_id" ∷ "session.client_id" ∷ "session.actor_id"
    ∷ "session.actor_type" ∷ "session.access_token_hash" ∷ "session.refresh_token_hash"
    ∷ "session.refresh_jti" ∷ "session.replaced_by_jti" ∷ "session.permissions"
    ∷ "session.delegated_permissions" ∷ "session.policy_groups" ∷ "session.permission_version"
    ∷ "session.created_at" ∷ "session.updated_at" ∷ "session.last_seen_at" ∷ "session.expires_at"
    ∷ "session.refresh_expires_at" ∷ "session.revoked" ∷ "session.revoked_at" ∷ "session.user_agent"
    ∷ "session.ip_address" ∷ []

-- The predicates that `RotateTokens` reads of the old session.
abbrev pub rotation_fields : List String
rotation_fields =
    "session.revoked" ∷ "session.kind" ∷ "session.user_id" ∷ "session.client_id"
    ∷ "session.actor_id" ∷ "session.actor_type" ∷ "session.permissions"
    ∷ "session.delegated_permissions" ∷ "session.policy_groups" ∷ "session.permission_version"
    ∷ "session.user_agent" ∷ "session.ip_address" ∷ []

-- `session.revoked`, read of a node's values.
abbrev pub read_session : Text → Values → Session
read_session u vals = node_to_session (unmarshal_session u vals)
