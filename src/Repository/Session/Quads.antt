-- ===== src/Repository/Session/Quads.antt =====
-- internal/repository/dgraph/session.go: the N-Quads that the operations on sessions write.
use elysium.Prelude.{
  ℕ, String, false, true, List, [], ◌∷◌, ◌++◌, Text, lit, if◌then◌else◌, is_empty,
}
use elysium.Dgraph.{Object, str, int, bool, uid, blank, Quad, Node, about, each_text}
use elysium.Domain.Session.{SessionCreateInput, SessionRefreshInput}
use elysium.Repository.Session.Wire.{SessionNode, format_rfc3339}

-- The N-Quads of a new session, as `Create` and `RotateTokens` write them: `now` is the time of the
-- repository's own reading of the clock.
unfoldable pub session_pairs : SessionCreateInput → ℕ → List (String × Object)
unfolding format_rfc3339
session_pairs i now =
    ("dgraph.type", str (lit "Session"))
    ∷ ("session.kind", str i.kind)
    ∷ ("session.user_id", str i.user_id)
    ∷ ("session.client_id", str i.client_id)
    ∷ ("session.actor_id", str i.actor_id)
    ∷ ("session.actor_type", str i.actor_type)
    ∷ ("session.access_token_hash", str i.access_token_hash)
    ∷ ("session.refresh_token_hash", str i.refresh_token_hash)
    ∷ ("session.refresh_jti", str i.refresh_jti)
    ∷ ("session.permission_version", int i.permission_version)
    ∷ ("session.expires_at", format_rfc3339 i.expires_at)
    ∷ ("session.refresh_expires_at", format_rfc3339 i.refresh_expires_at)
    ∷ ("session.revoked", bool false)
    ∷ ("session.created_at", format_rfc3339 now)
    ∷ ("session.updated_at", format_rfc3339 now)
    ∷ ("session.last_seen_at", format_rfc3339 now)
    ∷ ("session.user_agent", str i.user_agent)
    ∷ ("session.ip_address", str i.ip_address)
    ∷ []

-- The three loops over the permissions, the delegated permissions and the policy groups.
unfoldable pub snapshot_pairs : SessionCreateInput → List (String × Object)
unfolding each_text
snapshot_pairs i =
    each_text "session.permissions" i.permissions
    ++ (each_text "session.delegated_permissions" i.delegated_permissions
        ++ each_text "session.policy_groups" i.policy_groups)

unfoldable pub revocation_pairs : ℕ → List (String × Object)
unfolding format_rfc3339
revocation_pairs now =
    ("session.revoked", bool true)
    ∷ ("session.revoked_at", format_rfc3339 now)
    ∷ ("session.updated_at", format_rfc3339 now)
    ∷ []

-- `revokeNquads` of `RotateTokens`.
unfoldable pub rotation_pairs : Text → ℕ → List (String × Object)
unfolding format_rfc3339
rotation_pairs new_jti now =
    ("session.revoked", bool true)
    ∷ ("session.revoked_at", format_rfc3339 now)
    ∷ ("session.replaced_by_jti", str new_jti)
    ∷ ("session.updated_at", format_rfc3339 now)
    ∷ []

-- The session that replaces `old`: the identity of the old one, the tokens of the input, and the
-- permissions of the input, or all four of the old session's where the input has none.
unfoldable pub successor : SessionNode → SessionRefreshInput → SessionCreateInput
successor old i =
    let keep = is_empty i.permissions in
    record {
      kind = old.kind;
      user_id = old.user_id;
      client_id = old.client_id;
      actor_id = old.actor_id;
      actor_type = old.actor_type;
      access_token_hash = i.new_access_token_hash;
      refresh_token_hash = i.new_refresh_token_hash;
      refresh_jti = i.new_refresh_jti;
      permissions = if keep then old.permissions else i.permissions;
      delegated_permissions = if keep then old.deleg_perms else i.delegated_permissions;
      policy_groups = if keep then old.policy_groups else i.policy_groups;
      permission_version = if keep then old.perm_version else i.permission_version;
      expires_at = i.new_expires_at;
      refresh_expires_at = i.new_refresh_expires_at;
      user_agent = i.user_agent;
      ip_address = i.ip_address;
    }

-- The mutation of `RotateTokens`: revoke the old session, create the new one.
unfoldable pub rotation_quads : SessionNode → SessionRefreshInput → ℕ → List Quad
unfolding about
rotation_quads old i now =
    about (uid old.uid) (rotation_pairs i.new_refresh_jti now)
    ++ about (blank "new") (session_pairs (successor old i) now ++ snapshot_pairs (successor old i))

-- The uids that `RevokeAllForUser` revokes, three N-Quads each.
unfoldable pub revoke_each : ℕ → List Node → List Quad
unfolding about
revoke_each now [] = []
revoke_each now (n ∷ ns) = about (uid n.uid) (revocation_pairs now) ++ revoke_each now ns
