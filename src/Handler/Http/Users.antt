-- ===== src/Handler/Http/Users.antt =====
-- internal/handler/http/handler.go: the endpoints on users and on service accounts, `me`, the health
-- endpoints, and the routes. Their decoded bodies and query values are arguments.
use elysium.Prelude.{
  ℕ, String, Bool, true, false, Option, none, some, List, [], ◌∷◌, map, Text, ◌==◌, if◌then◌else◌,
}
use elysium.Errors.{Result, ok, err}
use elysium.World.{Action, ◌>>=◌, return, attempt, time_now}
use elysium.Domain.Session.{Principal, kind_user, kind_service}
use elysium.Domain.ServiceAccount.{ServiceAccount, CreateServiceAccountInput}
use elysium.Domain.User.{
  ℤ, pos, User, CreateUserInput, UpdateUserInput, ListFilter, ListResult, trim_space,
}
use elysium.Domain.Zookie.{Zookie}
use elysium.Service.Outside.{Crypto, UserRepository, ServiceAccountRepository}
use elysium.Service.Auth as Auth
use elysium.Service.ServiceAuth as ServiceAuth
use elysium.Vault.Secrets.{atoi}
use elysium.Handler.Middleware.{
  Request, Response, respond, write_error, UserView, user, user_written, message, user_list,
  account_written, user_identity, service_identity, unknown_identity, health, status, untouched,
}
use elysium.Handler.Http.{read_zookie, set_zookie_header}
use elysium.Handler.Http.Accounts.{service_error}

unfoldable pub user_view : User → UserView
user_view u = record {
  id = u.id;
  first_name = u.first_name;
  last_name = u.last_name;
  nickname = u.nickname;
  email = u.email;
  country = u.country;
  active = u.active;
  created_at = u.created_at;
  updated_at = u.updated_at;
}

-- The answers of `register` and `updateUser`, with their status.
unfoldable pub written_answer : ℕ → Result (User × Zookie) → Response
unfolding service_error user_view set_zookie_header
written_answer code (err e) = service_error e
written_answer code (ok (u, z)) =
    respond code (user_written (user_view u) z.token) untouched (set_zookie_header z)

unfoldable pub user_answer : Result User → Response
unfolding service_error user_view
user_answer (err e) = service_error e
user_answer (ok u) = respond 200 (user (user_view u)) untouched []

-- The answers of `deleteUser` and `deactivateServiceAccount`.
unfoldable pub message_answer : String → Result Zookie → Response
unfolding service_error set_zookie_header
message_answer text (err e) = service_error e
message_answer text (ok z) = respond 200 (message text z.token) untouched (set_zookie_header z)

unfoldable pub list_answer : Result ListResult → Response
unfolding service_error user_view
list_answer (err e) = service_error e
list_answer (ok r) =
    respond 200 (user_list (map user_view r.users) r.total r.page r.pages) untouched []

unfoldable pub account_answer : Result (ServiceAccount × Zookie) → Response
unfolding service_error set_zookie_header
account_answer (err e) = service_error e
account_answer (ok (sa, z)) =
    respond 201 (account_written (record sa { secret_hash = [] }) z.token) untouched
      (set_zookie_header z)

-- `n, _ := strconv.Atoi(text)`.
abbrev pub int_or_zero : Option ℤ → ℤ
int_or_zero none = pos 0
int_or_zero (some z) = z

unfoldable pub list_filter : Text → Text → Text → ListFilter
list_filter country page page_size = record {
  country = trim_space country;
  page = int_or_zero (atoi page);
  page_size = int_or_zero (atoi page_size);
}

module _ {Db : Type 0} (crypto : Crypto Db) where
  module _ (repo : UserRepository Db) where
    unfoldable pub register : ℕ → CreateUserInput → Action Db Response
    register cost input = do
      r ← attempt (Auth.register crypto repo cost input)
      return (written_answer 201 r)

    unfoldable pub get_user : Request → Action Db Response
    get_user r = do
      u ← attempt (Auth.get_user crypto repo r.path_value (read_zookie r))
      return (user_answer u)

    unfoldable pub update_as : Request → UpdateUserInput → Option Principal → Action Db Response
    update_as r input none = return (write_error 401 "unauthorized")
    update_as r input (some claims) = do
      u ← attempt (Auth.update_user crypto repo claims.user_id r.path_value input)
      return (written_answer 200 u)

    unfoldable pub update_user : Request → UpdateUserInput → Action Db Response
    update_user r input = update_as r input r.principal

    unfoldable pub delete_as : Request → Option Principal → Action Db Response
    delete_as r none = return (write_error 401 "unauthorized")
    delete_as r (some claims) = do
      z ← attempt (Auth.delete_user crypto repo claims.user_id r.path_value)
      return (message_answer "user deleted" z)

    unfoldable pub delete_user : Request → Action Db Response
    delete_user r = delete_as r r.principal

    unfoldable pub list_users : Request → Text → Text → Text → Action Db Response
    list_users r country page page_size = do
      l ← attempt (Auth.list_users crypto repo (list_filter country page page_size) (read_zookie r))
      return (list_answer l)

  module _ (repo : ServiceAccountRepository Db) where
    unfoldable pub create_service_account : ℕ → CreateServiceAccountInput → Action Db Response
    create_service_account cost input = do
      r ← attempt (ServiceAuth.create_service_account crypto repo cost input)
      return (account_answer r)

    unfoldable pub deactivate_service_account : Request → Action Db Response
    deactivate_service_account r = do
      z ← attempt (ServiceAuth.deactivate_service_account crypto repo r.path_value)
      return (message_answer "service account deactivated" z)

-- `me` for the principal that the middleware stored.
unfoldable pub me_as : Option Principal → Response
me_as none = write_error 401 "unauthorized"
me_as (some p) =
    if p.kind == kind_user
    then respond 200 (user_identity p) untouched []
    else if p.kind == kind_service
    then respond 200 (service_identity p) untouched []
    else respond 200 (unknown_identity p.kind) untouched []

unfoldable pub me : Request → Response
me r = me_as r.principal

unfoldable pub ready_answer : Result (Unit {0}) → Response
ready_answer (err e) = respond 503 (status "not ready") untouched []
ready_answer (ok u) = respond 200 (status "ready") untouched []

module _ {Db : Type 0} where
  unfoldable pub health_check : Action Db Response
  health_check = do now ← time_now; return (respond 200 (health now) untouched [])

  -- `ready`, over `Ping` of the repository.
  unfoldable pub ready : Action Db (Unit {0}) → Action Db Response
  ready ping = do r ← attempt ping; return (ready_answer r)

-- `RegisterRoutes`: the patterns, and whether `authMW` guards them.
abbrev pub routes : List (String × Bool)
routes =
    ("POST /auth/register", false)
    ∷ ("POST /auth/login", false)
    ∷ ("POST /auth/service/token", false)
    ∷ ("GET /health", false)
    ∷ ("GET /ready", false)
    ∷ ("POST /auth/context/activate", true)
    ∷ ("GET /users", true)
    ∷ ("GET /users/{id}", true)
    ∷ ("PUT /users/{id}", true)
    ∷ ("DELETE /users/{id}", true)
    ∷ ("POST /service-accounts", true)
    ∷ ("DELETE /service-accounts/{client_id}", true)
    ∷ ("POST /auth/refresh", false)
    ∷ ("POST /auth/logout", true)
    ∷ ("POST /auth/logout-all", true)
    ∷ ("GET /auth/sessions", true)
    ∷ ("DELETE /auth/sessions/{id}", true)
    ∷ ("GET /auth/verify", false)
    ∷ ("GET /auth/me", true)
    ∷ []
