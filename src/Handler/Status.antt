-- ===== src/Handler/Status.antt =====
-- internal/handler/http/handler.go, internal/handler/grpc/server.go: the answers for errors of the
-- services. gRPC codes are the numbers of google.golang.org/grpc/codes.
use elysium.Prelude.{ℕ, String, ◌≡◌, arith, nat_eq, if◌then◌else◌}
use elysium.Errors.{
  Error, errors_is, user_not_found, user_already_exists, invalid_credentials, invalid_input,
  unauthorized, token_expired, token_invalid, rate_limited,
}

-- `http.Status…`.
abbrev pub bad_request : ℕ
bad_request = 400

abbrev pub status_unauthorized : ℕ
status_unauthorized = 401

abbrev pub forbidden : ℕ
forbidden = 403

abbrev pub not_found : ℕ
not_found = 404

abbrev pub conflict : ℕ
conflict = 409

abbrev pub too_many_requests : ℕ
too_many_requests = 429

abbrev pub internal_server_error : ℕ
internal_server_error = 500

-- `handleServiceError`: the status and the message.
unfoldable pub handle_service_error : Error → ℕ × String
handle_service_error e =
    if errors_is e user_not_found
    then (not_found, "user not found")
    else if errors_is e user_already_exists
    then (conflict, "user already exists")
    else if errors_is e invalid_credentials
    then (status_unauthorized, "invalid credentials")
    else if errors_is e invalid_input
    then (bad_request, "invalid input")
    else if errors_is e unauthorized
    then (forbidden, "forbidden")
    else if errors_is e token_expired
    then (status_unauthorized, "token expired")
    else if errors_is e token_invalid
    then (status_unauthorized, "invalid token")
    else if errors_is e rate_limited
    then (too_many_requests, "rate limit exceeded")
    else (internal_server_error, "internal server error")

-- `codes.…`.
abbrev pub code_invalid_argument : ℕ
code_invalid_argument = 3

abbrev pub code_not_found : ℕ
code_not_found = 5

abbrev pub code_already_exists : ℕ
code_already_exists = 6

abbrev pub code_permission_denied : ℕ
code_permission_denied = 7

abbrev pub code_resource_exhausted : ℕ
code_resource_exhausted = 8

abbrev pub code_internal : ℕ
code_internal = 13

abbrev pub code_unauthenticated : ℕ
code_unauthenticated = 16

-- `domainToGRPCError`: the code and the message.
unfoldable pub domain_to_grpc_error : Error → ℕ × String
domain_to_grpc_error e =
    if errors_is e user_not_found
    then (code_not_found, "user not found")
    else if errors_is e user_already_exists
    then (code_already_exists, "user already exists")
    else if errors_is e invalid_credentials
    then (code_unauthenticated, "invalid credentials")
    else if errors_is e invalid_input
    then (code_invalid_argument, "invalid input")
    else if errors_is e unauthorized
    then (code_permission_denied, "forbidden")
    else if errors_is e token_expired
    then (code_unauthenticated, "token expired")
    else if errors_is e token_invalid
    then (code_unauthenticated, "invalid token")
    else if errors_is e rate_limited
    then (code_resource_exhausted, "rate limit exceeded")
    else (code_internal, "internal server error")

-- The mapping of gRPC codes to HTTP statuses that google.rpc.Code documents, for the codes used.
unfoldable pub http_status : ℕ → ℕ
http_status code =
    if nat_eq code code_invalid_argument
    then 400
    else if nat_eq code code_not_found
    then 404
    else if nat_eq code code_already_exists
    then 409
    else if nat_eq code code_permission_denied
    then 403
    else if nat_eq code code_resource_exhausted
    then 429
    else if nat_eq code code_unauthenticated
    then 401
    else 500

-- The two transports answer every error, wrapped or not, with the same message and with statuses that
-- correspond by the mapping of google.rpc.Code.
pub transports-agree :
    (e : Error)
    → (http_status (domain_to_grpc_error e).0 ≡ (handle_service_error e).0)
      × ((domain_to_grpc_error e).1 ≡ (handle_service_error e).1)
unfolding domain_to_grpc_error handle_service_error http_status
transports-agree e = (ground arith, ground arith)
