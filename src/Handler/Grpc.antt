-- ===== src/Handler/Grpc.antt =====
-- internal/handler/grpc/server.go: the caller of a method, and the zookies of requests.
pub mod Methods
pub mod Laws
use elysium.Prelude.{
  String, not, Option, none, some, List, [], ◌∷◌, Text, ◌==◌, lit, has_prefix, trim_prefix,
  if◌then◌else◌,
}
use elysium.Errors.{errors_is, Result, ok, err, token_expired}
use elysium.Dgraph.{Dgraph}
use elysium.World.{World}
use elysium.Domain.Zookie.{Zookie}
use elysium.Domain.Session.{Principal}
use elysium.Token.{Digest}
use elysium.Service.Session.{verify_token}

-- A principal, or `status.Error(codes.Unauthenticated, …)` with its message.
pub data Caller : Type 0 where
  caller : Principal → Caller
  unauthenticated : String → Caller

-- `principalFromCtx` on what the verifier answered.
unfoldable pub caller_of : Result Principal → Caller
caller_of (ok p) = caller p
caller_of (err e) =
    if errors_is e token_expired
    then unauthenticated "token expired"
    else unauthenticated "invalid token"

module _ {Db : Type 0} ⦃dg : Dgraph Db⦄ ⦃d : Digest⦄ where
  -- `principalFromCtx` on the values of the metadata key `authorization`; no metadata is `none`.
  unfoldable pub principal_from_ctx : Option (List Text) → World Db → Caller × World Db
  principal_from_ctx none w = (unauthenticated "missing metadata", w)
  principal_from_ctx (some []) w = (unauthenticated "missing authorization header", w)
  principal_from_ctx (some (bearer ∷ vals)) w =
      if not (has_prefix bearer (lit "Bearer "))
      then (unauthenticated "malformed authorization header", w)
      else (
        caller_of (verify_token (trim_prefix bearer (lit "Bearer ")) w).0,
        (verify_token (trim_prefix bearer (lit "Bearer ")) w).1,
      )

-- `zookieFromProto`.
unfoldable pub zookie_from_proto : Text → Option Zookie
zookie_from_proto token = if token == [] then none else some (record { token = token })

-- `zookieMetaFromCtx` on the values of the metadata key `x-zookie`.
unfoldable pub zookie_meta_from_ctx : Option (List Text) → Option Zookie
unfolding zookie_from_proto
zookie_meta_from_ctx none = none
zookie_meta_from_ctx (some []) = none
zookie_meta_from_ctx (some (v ∷ vals)) = zookie_from_proto v
