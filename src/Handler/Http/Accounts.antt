-- ===== src/Handler/Http/Accounts.antt =====
-- internal/handler/http/handler.go: the endpoints that open a session from credentials or from a
-- context, and those on one user. Their decoded bodies are arguments.
use elysium.Prelude.{◌/◌, not, Option, none, some, [], ◌==◌, lit, trim_prefix, if◌then◌else◌}
use elysium.Errors.{Error, Result, ok, err}
use elysium.Dgraph.{Dgraph}
use elysium.World.{Action, ◌>>=◌, return, attempt}
use elysium.Domain.Actor.{ContextActivationInput}
use elysium.Domain.User.{User, LoginInput}
use elysium.Domain.ServiceAccount.{ServiceAccount, ServiceLoginInput}
use elysium.Domain.Session.{Session, Principal, kind_user, kind_service, second}
use elysium.Token.{Digest}
use elysium.Service.Outside.{Crypto, UserRepository, ServiceAccountRepository}
use elysium.Service.Session.{
  SessionConfig, SessionOutput, CreateSessionInput, config_access_ttl, create,
}
use elysium.Service.Session.Activation as Activation
use elysium.Service.Session.Activation.{ActivateInput}
use elysium.Service.Auth as Auth
use elysium.Service.ServiceAuth as ServiceAuth
use elysium.Handler.Status.{handle_service_error}
use elysium.Handler.Middleware.{Request, Response, respond, panic, write_error, activated, stored}
use elysium.Handler.Http.{client_ip, opened, answer}

unfoldable pub service_error : Error → Response
service_error e = write_error (handle_service_error e).0 (handle_service_error e).1

-- What `login` and `serviceLogin` open for the account authenticated.
unfoldable pub user_session : Request → User → CreateSessionInput
user_session r user = record {
  kind = kind_user;
  user_id = user.id;
  client_id = [];
  actor_id = [];
  actor_type = [];
  permissions = [];
  delegated_permissions = [];
  policy_groups = [];
  permission_version = 0;
  user_agent = r.user_agent;
  ip_address = client_ip r;
}

unfoldable pub service_session : Request → ServiceAccount → CreateSessionInput
service_session r acct = record {
  kind = kind_service;
  user_id = [];
  client_id = acct.client_id;
  actor_id = [];
  actor_type = acct.actor_type;
  permissions = acct.permissions;
  delegated_permissions = [];
  policy_groups = [];
  permission_version = 0;
  user_agent = r.user_agent;
  ip_address = client_ip r;
}

unfoldable pub login_opened : SessionConfig → Result SessionOutput → Response
login_opened c (err e) = write_error 500 "could not create session"
login_opened c (ok out) = opened c out out.session

-- `activateContext` for the session that it opened.
unfoldable pub context_opened : SessionConfig → SessionOutput → Option Session → Response
context_opened c out none = panic
context_opened c out (some sess) =
    respond 200 (activated out.access_token (config_access_ttl c / second) sess.actor_type)
      (stored out.refresh_token sess.refresh_expires_at) []

unfoldable pub context_answer : SessionConfig → Result SessionOutput → Response
context_answer c (err e) = write_error 500 "context activation failed"
context_answer c (ok out) = context_opened c out out.session

-- The arguments of `sessions.ActivateContext`.
unfoldable pub activate_input : ContextActivationInput → ActivateInput
activate_input v = record {
  actor_id = v.actor_id;
  actor_type = v.actor_type;
  perms = v.permissions;
  deleg_perms = v.delegated_permissions;
  pgroups = v.policy_groups;
  perm_version = 0;
}

module _ {Db : Type 0} ⦃dg : Dgraph Db⦄ ⦃d : Digest⦄ (c : SessionConfig) (crypto : Crypto Db) where
  -- `login` on what `AuthService.Login` answered.
  unfoldable pub login_user : Request → Result User → Action Db Response
  login_user r (err e) = return (service_error e)
  login_user r (ok user) = answer (login_opened c) (create c (user_session r user))

  unfoldable pub login : UserRepository Db → Request → LoginInput → Action Db Response
  login repo r input = do user ← attempt (Auth.login crypto repo input); login_user r user

  -- `serviceLogin` on what `ServiceAuthService.Login` answered.
  unfoldable pub login_service : Request → Result ServiceAccount → Action Db Response
  login_service r (err e) = return (service_error e)
  login_service r (ok acct) = answer (login_opened c) (create c (service_session r acct))

  unfoldable pub service_login :
      ServiceAccountRepository Db → Request → ServiceLoginInput → Action Db Response
  service_login repo r input = do
    acct ← attempt (ServiceAuth.login crypto repo input)
    login_service r acct

module _ {Db : Type 0} ⦃dg : Dgraph Db⦄ ⦃d : Digest⦄ (c : SessionConfig) where
  -- `activateContext` on the answer of `AuthService.ActivateContext`.
  unfoldable pub activate_validated : Request → Result ContextActivationInput → Action Db Response
  activate_validated r (err e) = return (service_error e)
  activate_validated r (ok validated) = answer (context_answer c) (
      Activation.activate_context c (trim_prefix r.authorization (lit "Bearer "))
        (activate_input validated))

  unfoldable pub activate_as :
      Request → ContextActivationInput → Option Principal → Action Db Response
  activate_as r input none = return (write_error 401 "unauthorized")
  activate_as r input (some p) =
      if not (p.kind == kind_user) then return (write_error 401 "unauthorized") else (do
        validated ← attempt (Auth.activate_context p.user_id input)
        activate_validated r validated)

  unfoldable pub activate_context : Request → ContextActivationInput → Action Db Response
  activate_context r input = activate_as r input r.principal
