-- ===== src/Handler/Middleware.antt =====
-- internal/middleware/middleware.go: `Authenticate`, `Chain` and the address of the client. A handler
-- is an action that ends with its response.
use elysium.Prelude.{
  ℕ, String, Bool, not, ◌&&◌, Option, none, some, List, [], ◌∷◌, Text, ◌==◌, lit, has_prefix,
  trim_prefix, nat_eq, if◌then◌else◌,
}
use elysium.Errors.{Error, errors_is, Result, ok, err, token_expired}
use elysium.Dgraph.{Dgraph}
use elysium.World.{Action, ◌>>=◌, return, attempt}
use elysium.Domain.User.{trim_space}
use elysium.Domain.Session.{Principal}
use elysium.Domain.ServiceAccount.{ServiceAccount}
use elysium.Token.{Digest}
use elysium.Service.Session.{verify_token}

-- What the handlers read of a request. An absent header is the empty text, as `Header.Get` gives it.
pub record Request : Type 0 where
  pub authorization : Text
  pub forwarded_for : Text
  pub remote_addr : Text
  pub refresh_cookie : Option Text
  pub user_agent : Text
  pub zookie : Text
  pub path_value : Text
  pub principal : Option Principal

pub data Cookie : Type 0 where
  untouched cleared : Cookie
  stored : Text → ℕ → Cookie

-- A view of a session, as `listSessions` builds it.
pub record SessionView : Type 0 where
  pub id : Text
  pub actor_type : Text
  pub created_at : ℕ
  pub last_seen_at : ℕ
  pub expires_at : ℕ
  pub user_agent : Text

-- The JSON of a `domain.User`, whose password hash has the tag `json:"-"`.
pub record UserView : Type 0 where
  pub id : Text
  pub first_name : Text
  pub last_name : Text
  pub nickname : Text
  pub email : Text
  pub country : Text
  pub active : Bool
  pub created_at : ℕ
  pub updated_at : ℕ

-- The JSON bodies; a service account is written with its fields, `secret_hash` included.
pub data Body : Type 0 where
  user : UserView → Body
  user_written : UserView → Text → Body
  message : String → Text → Body
  user_list : List UserView → ℕ → ℕ → ℕ → Body
  account_written : ServiceAccount → Text → Body
  user_identity : Principal → Body
  service_identity : Principal → Body
  unknown_identity : Text → Body
  health : ℕ → Body
  no_body : Body
  error : String → Body
  status : String → Body
  tokens : Text → ℕ → Body
  activated : Text → ℕ → Text → Body
  sessions : List SessionView → Body

-- A response, or the panic of a nil dereference, which net/http turns into a closed connection.
pub data Response : Type 0 where
  respond : ℕ → Body → Cookie → List (String × Text) → Response
  panic : Response

abbrev pub write_error : ℕ → String → Response
write_error code msg = respond code (error msg) untouched []

-- `strings.SplitN(xff, ",", 2)[0]`.
unfoldable pub before_comma : Text → Text
before_comma [] = []
before_comma (c ∷ cs) = let rest = before_comma cs in if nat_eq c b',' then [] else c ∷ rest

-- `clientIP` of the middleware, where `parse_ip` is `net.ParseIP` being non-nil and `split_host_port`
-- is `net.SplitHostPort`.
unfoldable pub client_ip : (Text → Bool) → (Text → Option Text) → Request → Text
client_ip parse_ip split_host_port r =
    let ip = trim_space (before_comma r.forwarded_for) in
    if not (r.forwarded_for == []) && parse_ip ip
    then ip
    else elim (split_host_port r.remote_addr) [ none ↦ r.remote_addr | some ip ↦ ip ]

-- `Chain`: the loop from the last middleware to the first.
unfoldable pub chain {ℓ} : {H : Type ℓ} → List (H → H) → H → H
chain [] final = final
chain (m ∷ ms) final = m (chain ms final)

-- `Authenticate` for an error of the verifier.
unfoldable pub refuse : Error → Response
refuse e =
    if errors_is e token_expired
    then write_error 401 "token expired"
    else write_error 401 "invalid token"

module _ {Db : Type 0} ⦃dg : Dgraph Db⦄ ⦃d : Digest⦄ where
  -- `Authenticate` on what the verifier answered.
  unfoldable pub authenticated :
      (Request → Action Db Response) → Request → Result Principal → Action Db Response
  authenticated next r (err e) = return (refuse e)
  authenticated next r (ok claims) = next (record r { principal = some claims })

  unfoldable pub authenticate : (Request → Action Db Response) → Request → Action Db Response
  authenticate next r =
      if not (has_prefix r.authorization (lit "Bearer "))
      then return (write_error 401 "missing or malformed authorization header")
      else (do
        claims ← attempt (verify_token (trim_prefix r.authorization (lit "Bearer ")))
        authenticated next r claims)
