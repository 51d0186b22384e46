-- ===== src/Domain/Session.antt =====
-- internal/domain/session.go, and `Principal` of internal/domain/user.go.
use elysium.Prelude.{ℕ, Bool, ◌&&◌, ◌||◌, not, Option, List, Text, ◌==◌, [], lit, ltb, mem_text}
use elysium.Domain.Actor.{is_org_staff, is_valid}

-- `PrincipalKindUser`, `PrincipalKindService`.
abbrev pub kind_user : Text
kind_user = lit "user"

abbrev pub kind_service : Text
kind_service = lit "service"

-- `time.Second`, in nanoseconds.
abbrev pub second : ℕ
second = 1000000000

pub record Session : Type 0 where
  pub id : Text
  pub kind : Text
  pub user_id : Text
  pub client_id : Text
  pub actor_id : Text
  pub actor_type : Text
  pub access_token_hash : Text
  pub refresh_token_hash : Text
  pub refresh_jti : Text
  pub replaced_by_jti : Text
  pub permissions : List Text
  pub delegated_permissions : List Text
  pub policy_groups : List Text
  pub permission_version : ℕ
  pub created_at : ℕ
  pub updated_at : ℕ
  pub last_seen_at : ℕ
  pub expires_at : ℕ
  pub refresh_expires_at : ℕ
  pub revoked : Bool
  pub revoked_at : Option ℕ
  pub user_agent : Text
  pub ip_address : Text

-- The methods of `Session` at the reading `now` of the clock: `time.Now().After(t)` is `t < now`.
unfoldable pub is_expired : Session → ℕ → Bool
is_expired s now = ltb s.expires_at now

unfoldable pub is_refresh_expired : Session → ℕ → Bool
is_refresh_expired s now = ltb s.refresh_expires_at now

-- `!s.Revoked && !s.IsExpired()`
unfoldable pub session_is_valid : Session → ℕ → Bool
unfolding is_expired
session_is_valid s now = not s.revoked && not (is_expired s now)

pub record SessionCreateInput : Type 0 where
  pub kind : Text
  pub user_id : Text
  pub client_id : Text
  pub actor_id : Text
  pub actor_type : Text
  pub access_token_hash : Text
  pub refresh_token_hash : Text
  pub refresh_jti : Text
  pub permissions : List Text
  pub delegated_permissions : List Text
  pub policy_groups : List Text
  pub permission_version : ℕ
  pub expires_at : ℕ
  pub refresh_expires_at : ℕ
  pub user_agent : Text
  pub ip_address : Text

pub record SessionRefreshInput : Type 0 where
  pub old_session_id : Text
  pub new_access_token_hash : Text
  pub new_refresh_token_hash : Text
  pub new_refresh_jti : Text
  pub permissions : List Text
  pub delegated_permissions : List Text
  pub policy_groups : List Text
  pub permission_version : ℕ
  pub new_expires_at : ℕ
  pub new_refresh_expires_at : ℕ
  pub user_agent : Text
  pub ip_address : Text

pub record Principal : Type 0 where
  pub kind : Text
  pub actor_type : Text
  pub user_id : Text
  pub actor_id : Text
  pub nickname : Text
  pub email : Text
  pub permissions : List Text
  pub delegated_permissions : List Text
  pub policy_groups : List Text
  pub client_id : Text
  pub name : Text

-- `HasPermission`: the loop over the permissions, then the loop over the delegated ones.
unfoldable pub has_permission : Principal → Text → Bool
unfolding mem_text
has_permission p action = mem_text action p.permissions || mem_text action p.delegated_permissions

unfoldable pub is_actor_type : Principal → Text → Bool
unfolding ◌==◌
is_actor_type p t = p.actor_type == t

unfoldable pub principal_is_org_staff : Principal → Bool
unfolding is_org_staff
principal_is_org_staff p = is_org_staff p.actor_type

-- `p.ActorID != "" && p.ActorType.IsValid()`
unfoldable pub has_context : Principal → Bool
unfolding ◌==◌ is_valid
has_context p = not (p.actor_id == []) && is_valid p.actor_type
