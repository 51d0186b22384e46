-- ===== src/Handler/Grpc/Methods.antt =====
-- internal/handler/grpc/server.go: the methods of the gRPC server. A getter of a missing field gives the
-- zero value, so requests are records of values.
use elysium.Prelude.{
  ℕ, ◌-◌, ◌/◌, ◌%◌, ◌^◌, String, Bool, Option, none, some, List, [], map, Text, is_empty, ltb,
  if◌then◌else◌,
}
use elysium.Errors.{Error, Result, ok, err}
use elysium.Dgraph.{Dgraph}
use elysium.World.{Action, ◌>>=◌, return, attempt, time_now}
use elysium.Domain.Session.{Principal, kind_user, second}
use elysium.Domain.User.{
  ℤ, pos, negsuc, User, CreateUserInput, UpdateUserInput, LoginInput, ListResult,
}
use elysium.Domain.Zookie.{Zookie}
use elysium.Token.{Digest}
use elysium.Service.Outside.{Crypto, UserRepository}
use elysium.Service.Session.{
  SessionConfig, SessionOutput, CreateSessionInput, config_access_ttl, create,
}
use elysium.Service.Auth as Auth
use elysium.Handler.Status.{domain_to_grpc_error, code_internal, code_unauthenticated}
use elysium.Handler.Grpc.{Caller, caller, unauthenticated, principal_from_ctx, zookie_from_proto}

-- A response, or `status.Error(code, message)`.
pub data Rpc (A : Type 0) : Type 0 where
  replied : A → Rpc A
  status : ℕ → String → Rpc A

unfoldable pub rpc_error : {A : Type 0} → Error → Rpc A
rpc_error e = status (domain_to_grpc_error e).0 (domain_to_grpc_error e).1

-- `pb.User`; times are the seconds of their RFC 3339 texts.
pub record ProtoUser : Type 0 where
  pub id : Text
  pub first_name : Text
  pub last_name : Text
  pub nickname : Text
  pub email : Text
  pub country : Text
  pub active : Bool
  pub created_at : ℕ
  pub updated_at : ℕ

unfoldable pub domain_user_to_proto : User → ProtoUser
domain_user_to_proto u = record {
  id = u.id;
  first_name = u.first_name;
  last_name = u.last_name;
  nickname = u.nickname;
  email = u.email;
  country = u.country;
  active = u.active;
  created_at = u.created_at / second;
  updated_at = u.updated_at / second;
}

pub record LoginResponse : Type 0 where
  pub access_token : Text
  pub refresh_token : Text
  pub expires_in : ℕ

pub record WriteUserResponse : Type 0 where
  pub user : ProtoUser
  pub zookie : Text

pub record DeleteUserResponse : Type 0 where
  pub message : String
  pub zookie : Text

pub record ListUsersResponse : Type 0 where
  pub users : List ProtoUser
  pub total : ℤ
  pub page : ℤ
  pub pages : ℤ

pub record UpdateUserRequest : Type 0 where
  pub id : Text
  pub first_name : Text
  pub last_name : Text
  pub nickname : Text
  pub country : Text

pub record ListUsersRequest : Type 0 where
  pub country : Text
  pub page : ℤ
  pub page_size : ℤ
  pub zookie : Text

-- `int32(n)`.
unfoldable pub to_int32 : ℕ → ℤ
to_int32 n = let m = n % 2 ^ 32 in if ltb m (2 ^ 31) then pos m else negsuc (2 ^ 32 - 1 - m)

-- `if v := req.GetX(); v != "" { input.X = &v }`.
unfoldable pub non_empty : Text → Option Text
non_empty v = if is_empty v then none else some v

unfoldable pub update_input : UpdateUserRequest → UpdateUserInput
unfolding non_empty
update_input req = record {
  first_name = non_empty req.first_name;
  last_name = non_empty req.last_name;
  nickname = non_empty req.nickname;
  country = non_empty req.country;
}

-- The answers of the methods to those of the services.
unfoldable pub write_reply : Result (User × Zookie) → Rpc WriteUserResponse
unfolding rpc_error domain_user_to_proto
write_reply (err e) = rpc_error e
write_reply (ok (u, z)) = replied (record { user = domain_user_to_proto u; zookie = z.token })

unfoldable pub user_reply : Result User → Rpc ProtoUser
unfolding rpc_error domain_user_to_proto
user_reply (err e) = rpc_error e
user_reply (ok u) = replied (domain_user_to_proto u)

unfoldable pub delete_reply : Result Zookie → Rpc DeleteUserResponse
unfolding rpc_error
delete_reply (err e) = rpc_error e
delete_reply (ok z) = replied (record { message = "user deleted"; zookie = z.token })

unfoldable pub list_reply : Result ListResult → Rpc ListUsersResponse
unfolding rpc_error domain_user_to_proto to_int32
list_reply (err e) = rpc_error e
list_reply (ok r) = replied (record {
  users = map domain_user_to_proto r.users;
  total = to_int32 r.total;
  page = to_int32 r.page;
  pages = to_int32 r.pages;
})

unfoldable pub grpc_session : User → CreateSessionInput
grpc_session user = record {
  kind = kind_user;
  user_id = user.id;
  client_id = [];
  actor_id = [];
  actor_type = [];
  permissions = [];
  delegated_permissions = [];
  policy_groups = [];
  permission_version = 0;
  user_agent = [];
  ip_address = [];
}

unfoldable pub login_reply : SessionConfig → Result SessionOutput → Rpc LoginResponse
login_reply c (err e) = status code_internal "could not create session"
login_reply c (ok out) = replied (record {
  access_token = out.access_token;
  refresh_token = out.refresh_token;
  expires_in = config_access_ttl c / second;
})

module _ {Db : Type 0} ⦃dg : Dgraph Db⦄ ⦃d : Digest⦄ (crypto : Crypto Db)
    (repo : UserRepository Db) where
  unfoldable pub register : ℕ → CreateUserInput → Action Db (Rpc WriteUserResponse)
  register cost input = do
    r ← attempt (Auth.register crypto repo cost input)
    return (write_reply r)

  unfoldable pub login_user : SessionConfig → Result User → Action Db (Rpc LoginResponse)
  login_user c (err e) = return (rpc_error e)
  login_user c (ok user) = do
    out ← attempt (create c (grpc_session user))
    return (login_reply c out)

  unfoldable pub login : SessionConfig → LoginInput → Action Db (Rpc LoginResponse)
  login c input = do user ← attempt (Auth.login crypto repo input); login_user c user

  -- A method that needs a caller, on what `principalFromCtx` answered.
  unfoldable pub with_caller :
      {A : Type 0} → (Principal → Action Db (Rpc A)) → Caller → Action Db (Rpc A)
  with_caller method (caller p) = method p
  with_caller method (unauthenticated message) = return (status code_unauthenticated message)

  unfoldable pub called :
      {A : Type 0} → Option (List Text) → (Principal → Action Db (Rpc A)) → Action Db (Rpc A)
  called authorization method w =
      with_caller method (principal_from_ctx authorization w).0
        (principal_from_ctx authorization w).1

  unfoldable pub get_user : Option (List Text) → Text → Text → Action Db (Rpc ProtoUser)
  get_user authorization id zookie = called authorization λ p. do
    u ← attempt (Auth.get_user crypto repo id (zookie_from_proto zookie))
    return (user_reply u)

  unfoldable pub update_user :
      Option (List Text) → UpdateUserRequest → Action Db (Rpc WriteUserResponse)
  update_user authorization req = called authorization λ p. do
    u ← attempt (Auth.update_user crypto repo p.user_id req.id (update_input req))
    return (write_reply u)

  unfoldable pub delete_user : Option (List Text) → Text → Action Db (Rpc DeleteUserResponse)
  delete_user authorization id =
      called authorization
        λ p. do z ← attempt (Auth.delete_user crypto repo p.user_id id); return (delete_reply z)

  unfoldable pub list_users :
      Option (List Text) → ListUsersRequest → Action Db (Rpc ListUsersResponse)
  list_users authorization req = called authorization λ p. do
    l ← attempt (
        Auth.list_users crypto repo
          (record { country = req.country; page = req.page; page_size = req.page_size })
          (zookie_from_proto req.zookie))
    return (list_reply l)

-- `HealthCheck`: the status and the time, in seconds.
module _ {Db : Type 0} where
  unfoldable pub health_check : Action Db (String × ℕ)
  health_check = do now ← time_now; return ("ok", now / second)
