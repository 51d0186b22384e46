-- ===== src/Handler/Http/Laws.antt =====
-- internal/handler/http/handler.go, internal/handler/grpc/server.go and
-- internal/middleware/middleware.go: who gets through the transports.
use elysium.Prelude.{
  String, ◌≡◌, ap, ◌∙◌, some, List, [], ◌∷◌, ◌++◌, Text, lit, has_prefix, trim_prefix,
  has_prefix-append, trim_prefix-append, Bool-cases, inl, inr,
}
use elysium.Errors.{errors_is, Result, ok, err, token_expired}
use elysium.Dgraph.{Dgraph}
use elysium.World.{World, Action}
use elysium.Domain.Session.{Principal}
use elysium.Token.{Digest}
use elysium.Service.Session.{verify_token}
use elysium.Handler.Middleware.{
  Request, Response, respond, write_error, no_body, untouched, authenticate, authenticated, refuse,
}
use elysium.Handler.Grpc.{Caller, caller, unauthenticated, caller_of, principal_from_ctx}
use elysium.Handler.Http.{verify, verify_answer, identity_headers}

-- The answers of the middleware, of the gRPC methods and of `verify` to one result of the verifier,
-- which left the world `w`.
pub data Agree {Db : Type 0} (next : Request → Action Db Response) (r : Request) (w : World Db)
    : Result Response × World Db → Caller × World Db → Result Response × World Db → Type 0 where
  passed :
      (p : Principal)
      → Agree next r w
          (next (record r { principal = some p }) w)
          (caller p, w)
          (ok (respond 200 no_body untouched (identity_headers p)), w)
  refused :
      (msg : String)
      → Agree next r w
          (ok (write_error 401 msg), w)
          (unauthenticated msg, w)
          (ok (respond 401 no_body untouched []), w)

module _ {Db : Type 0} ⦃dg : Dgraph Db⦄ ⦃d : Digest⦄ where
  answers-Agree :
      (next : Request → Action Db Response) (r : Request) (w : World Db) (result : Result Principal)
      → Agree next r w
          (authenticated next r result w)
          (caller_of result, w)
          (ok (verify_answer result), w)
  unfolding authenticated caller_of verify_answer refuse
  answers-Agree next r w (ok p) = passed p
  answers-Agree next r w (err e) = elim (Bool-cases (errors_is e token_expired)) [
    | inl h ↦ rw h (refused "token expired")
    | inr h ↦ rw h (refused "invalid token")
  ]

  -- For one bearer token the middleware, the gRPC methods and the forward-auth endpoint decide alike:
  -- all pass with the same principal, or all refuse, the first two with the same message.
  pub transports-decide_alike :
      (next : Request → Action Db Response) (r : Request) (raw : Text) (vals : List Text)
      (w : World Db)
      → r.authorization ≡ lit "Bearer " ++ raw
      → Agree next r
          (verify_token raw w).1
          (authenticate next r w)
          (principal_from_ctx (some ((lit "Bearer " ++ raw) ∷ vals)) w)
          (verify r w)
  unfolding authenticate principal_from_ctx verify
  transports-decide_alike next r raw vals w h =
      let starts =
        ap (λ s. has_prefix s (lit "Bearer ")) h ∙ has_prefix-append (lit "Bearer ") raw in
      let rest =
        ap (λ s. trim_prefix s (lit "Bearer ")) h ∙ trim_prefix-append (lit "Bearer ") raw in
      rw
        (
          starts,
          rest,
          has_prefix-append (lit "Bearer ") raw,
          trim_prefix-append (lit "Bearer ") raw,
        )
        (answers-Agree next r (verify_token raw w).1 (verify_token raw w).0)
