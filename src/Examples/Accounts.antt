-- ===== src/Examples/Accounts.antt =====
-- Examples on accounts, inputs and the transports.
use mathlib.Core.Bool.{false≢true}
use elysium.Prelude.{ℕ, ◌≤◌, ◌≡◌, refl, ◌≢◌, true, none, some, [], ◌∷◌, ◌==◌, eq_iff, lit}
use elysium.Errors.{Error, ok, sentinel, wrap, user_not_found}
use elysium.Dgraph.Memory.{Memory, memory}
use elysium.World.{Action, return}
use elysium.Domain.Zookie.{strong_read}
use elysium.Domain.User.{
  User, CreateUserInput, UpdateUserInput, LoginInput, ListFilter, pos, negsuc, sanitised, validate,
  normalise, validation,
}
use elysium.Domain.User.Laws.{validate-validate, normalise-bounds}
use elysium.Domain.ServiceAccount.{ServiceAccount, ServiceLoginInput, validate_login}
use elysium.Service.Outside.{Crypto, UserRepository, ServiceAccountRepository}
use elysium.Service.Auth.{login, get_user}
use elysium.Service.Auth.Laws.{login_verdict, login-verdict, get_user-active}
use elysium.Service.ServiceAuth.{login as service_login, login_found}
use elysium.Service.ServiceAuth.Laws.{service_login_sound}
use elysium.Service.Session.{verify_token}
use elysium.Handler.Status.{
  http_status, domain_to_grpc_error, handle_service_error, transports-agree,
}
use elysium.Handler.Middleware.{Request, Response, respond, no_body, untouched, authenticate}
use elysium.Handler.Grpc.{principal_from_ctx}
use elysium.Handler.Http.{verify}
use elysium.Handler.Http.Laws.{Agree, transports-decide_alike}
use elysium.Examples.{digest, start}

abbrev ann : User
ann = record {
  id = lit "1";
  first_name = lit "Ann";
  last_name = lit "Lee";
  nickname = lit "ann";
  password_hash = lit "secret12";
  email = lit "ann@example.org";
  country = lit "KE";
  active = true;
  created_at = 0;
  updated_at = 0;
}

abbrev account : ServiceAccount
account = record {
  id = lit "2";
  client_id = lit "billing";
  name = lit "Billing";
  secret_hash = lit "s3cret";
  actor_type = lit "ADMIN";
  permissions = [];
  active = true;
  created_at = 0;
  updated_at = 0;
}

-- A stand-in for bcrypt, which hashes a password to itself.
unfoldable crypto : Crypto Memory
unfolding ◌==◌
crypto = record {
  generate = λ p cost. return p;
  compare = λ hash p. hash == p;
  new_uuid = return (lit "1");
}

-- Repositories that hold one user, and one service account.
unfoldable users : UserRepository Memory
users = record {
  create = λ u. return strong_read;
  get_by_id = λ id z. return ann;
  get_by_email = λ email z. return ann;
  update = λ id i. return (ann, strong_read);
  delete = λ id. return strong_read;
  list = λ f z. return (record { users = ann ∷ []; total = 1; page = 1; pages = 1 });
}

unfoldable accounts : ServiceAccountRepository Memory
accounts = record {
  create_service_account = λ sa. return strong_read;
  get_by_client_id = λ id z. return account;
  deactivate = λ id. return strong_read;
}

abbrev typed : LoginInput
typed = record { email = lit " Ann@Example.org"; password = lit "secret12" }

abbrev cleaned : LoginInput
cleaned = record { email = lit "ann@example.org"; password = lit "secret12" }

login-verdict_example :
    (login crypto users typed start).0
    ≡ login_verdict crypto users cleaned
        (users.get_by_email cleaned.email (some strong_read) start).0
unfolding validation
login-verdict_example = login-verdict crypto users typed cleaned start refl

one-ne-two : lit "1" ≢ lit "2"
unfolding ◌==◌
one-ne-two e = false≢true ((eq_iff (lit "1") (lit "2")).1 e)

abbrev rename : UpdateUserInput
rename = record { first_name = some (lit "Bob"); last_name = none; nickname = none; country = none }

get_user-active_example : (ann.active ≡ true) × ((users.get_by_id (lit "1") none start).0 ≡ ok ann)
unfolding get_user users
get_user-active_example = get_user-active crypto users (lit "1") none start ann refl

abbrev secret : ServiceLoginInput
secret = record { client_id = lit "billing"; client_secret = lit "s3cret" }

service_login_sound_example :
    ((accounts.get_by_client_id (lit "billing") (some strong_read) start).0 ≡ ok account)
    × (crypto.compare account.secret_hash (lit "s3cret") ≡ true)
    × (account.active ≡ true)
unfolding accounts crypto ◌==◌ service_login login_found validate_login
service_login_sound_example = service_login_sound crypto accounts secret start account refl

abbrev form : CreateUserInput
form = record {
  first_name = lit " Ann";
  last_name = lit "Lee ";
  nickname = lit "ann";
  password = lit "secret12";
  email = lit "ANN@example.org ";
  country = lit "KE";
}

validate-validate_example : validate (sanitised form) ≡ ok (sanitised form)
unfolding validation
validate-validate_example = validate-validate form (sanitised form) refl

abbrev filter : ListFilter
filter = record { country = []; page = negsuc 3; page_size = pos 500 }

normalise-bounds_example :
    (n : ℕ) × (m : ℕ) × ((normalise filter).page ≡ pos n)
    × ((normalise filter).page_size ≡ pos m)
    × (1 ≤ n)
    × (1 ≤ m)
    × (m ≤ 100)
    × (normalise (normalise filter) ≡ normalise filter)
normalise-bounds_example = normalise-bounds filter

abbrev lost : Error
lost = wrap "get user" (sentinel user_not_found)

transports-agree_example :
    (http_status (domain_to_grpc_error lost).0 ≡ (handle_service_error lost).0)
    × ((domain_to_grpc_error lost).1 ≡ (handle_service_error lost).1)
transports-agree_example = transports-agree lost

abbrev request : Request
request = record {
  authorization = lit "Bearer atk_2";
  forwarded_for = [];
  remote_addr = lit "10.0.0.1:80";
  refresh_cookie = none;
  user_agent = [];
  zookie = [];
  path_value = [];
  principal = none;
}

abbrev next : Request → Action Memory Response
next r = return (respond 200 no_body untouched [])

transports-decide_alike_example :
    Agree next request
      (verify_token (lit "atk_2") start).1
      (authenticate next request start)
      (principal_from_ctx (some (lit "Bearer atk_2" ∷ [])) start)
      (verify request start)
transports-decide_alike_example = transports-decide_alike next request (lit "atk_2") [] start refl
