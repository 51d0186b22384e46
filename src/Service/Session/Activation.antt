-- ===== src/Service/Session/Activation.antt =====
-- internal/service/session.go: `ActivateContext`, which replaces a session by one with an actor.
use elysium.Prelude.{ℕ, Bool, true, false, Option, none, some, List, Text, []}
use elysium.Errors.{sentinel, session_not_found}
use elysium.Dgraph.{Dgraph}
use elysium.World.{Action, ◌>>=◌, ◌>>◌, fail, wrapped}
use elysium.Domain.Session.{Session}
use elysium.Token.{Digest, hash_token}
use elysium.Repository.Session as Repo
use elysium.Service.Session.{SessionConfig, CreateSessionInput, SessionOutput, create, is_valid_now}

-- The arguments of `ActivateContext` besides the token.
pub record ActivateInput : Type 0 where
  pub actor_id : Text
  pub actor_type : Text
  pub perms : List Text
  pub deleg_perms : List Text
  pub pgroups : List Text
  pub perm_version : ℕ

-- The identity of the old session, the actor and the permissions of the arguments.
unfoldable pub activation_input : Session → ActivateInput → CreateSessionInput
activation_input sess a = record {
  kind = sess.kind;
  user_id = sess.user_id;
  client_id = sess.client_id;
  actor_id = a.actor_id;
  actor_type = a.actor_type;
  permissions = a.perms;
  delegated_permissions = a.deleg_perms;
  policy_groups = a.pgroups;
  permission_version = a.perm_version;
  user_agent = [];
  ip_address = [];
}

module _ {Db : Type 0} ⦃dg : Dgraph Db⦄ ⦃d : Digest⦄ where
  -- `ActivateContext` on the answer of `IsValid`.
  unfoldable pub activate_valid :
      SessionConfig → ActivateInput → Session → Bool → Action Db SessionOutput
  activate_valid c a sess false = fail (sentinel session_not_found)
  activate_valid c a sess true = do
    wrapped "revoking old session during context activation" (Repo.revoke sess.id)
    create c (activation_input sess a)

  unfoldable pub activate_found :
      SessionConfig → ActivateInput → Option Session → Action Db SessionOutput
  activate_found c a none = fail (sentinel session_not_found)
  activate_found c a (some sess) = do valid ← is_valid_now sess; activate_valid c a sess valid

  unfoldable pub activate_context : SessionConfig → Text → ActivateInput → Action Db SessionOutput
  activate_context c raw a = do
    found ←
        wrapped "looking up session for context activation"
          (Repo.get_by_access_hash (hash_token raw))
    activate_found c a found
