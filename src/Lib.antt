-- ===== src/Lib.antt =====
-- A model of the authentication service: opaque session tokens stored in Dgraph, users and service
-- accounts, and the HTTP and gRPC transports over them.
--
-- How the parts interact: a handler (internal/handler/http, internal/handler/grpc) or the middleware
-- (internal/middleware) calls a service (internal/service), which calls a repository
-- (internal/repository/dgraph) and mints tokens (internal/token); the entities and their validation
-- are in internal/domain.
--
-- The files:
--   Prelude     texts as lists of bytes, Boolean tests, lists.
--   Errors      sentinel errors and `errors.Is`, results.
--   Base64      encoding/base64 as a parameter.
--   Dgraph      the database as a parameter: an interface record, the documented behaviour that
--               proofs rely on (Laws), conditional upserts, pages and commit timestamps (Upserts),
--               what writes leave in a node (Writes), JSON mutations (Json), the list predicates of
--               the schemas (Schema), and a database in memory that meets the laws (Memory).
--   World       the state in which a request runs (database, clock, random bytes, background tasks)
--               and the actions on it; what actions keep (Keeps), what their results satisfy
--               (Ensures), inversion of successes (Success).
--   Domain      internal/domain: Actor, Session, User, ServiceAccount, Zookie.
--   Token       internal/token: opaque tokens (opaque.go), the claims of a JWT (Claims) and its
--               issuing and verification (Jwt; jwt.go).
--   Vault       internal/vault: the login and the renewal of the token (Client), the secrets
--               (Secrets), the two signers of JWTs (Transit).
--   Config      internal/config/config.go.
--   Server      cmd/server/main.go: the effects of the start and of the shutdown, in their order.
--   Repository  internal/repository/dgraph: Session (session.go), User (repository.go) and
--               ServiceAccount (service_account.go). The JSON records are in Wire and the N-Quads
--               in Quads; the other children hold the proofs.
--   Service     internal/service: Session (session.go), Auth (auth.go), ServiceAuth
--               (service_auth.go), over the storage contracts and third parties of Outside.
--   Handler     internal/middleware/middleware.go (Middleware, RateLimit),
--               internal/handler/http/handler.go (Http, Status), internal/handler/grpc/server.go
--               (Grpc, Status).
--   Examples    the theorems applied to a concrete database and concrete inputs.
--
-- The correspondence: each operation is a function of the same name in snake case, an action on the
-- world that returns a result. A function that continues another after a call (`refresh_found`
-- after the lookup of `Refresh`) has the name of the operation and of what it continues on. The
-- goroutine that touches a session is a pending task, which a step of Service.Session.Trace runs at
-- any later time. A transaction of `RotateTokens` or `Update` reads the state it began on, and
-- commits on the state of that moment. A write that fails, a commit included, has written nothing,
-- or everything (its answer was lost). The sharded mutex of the rate limiter is a step
-- relation (Handler.RateLimit.Locks). A handler gets the decoded body of its request.
--
-- Numbers: times are nanoseconds and durations natural numbers, so sums do not wrap; Dgraph keeps
-- times to the second, as RFC 3339 texts do. `PermissionVersion` and the commit timestamps are
-- natural numbers, the latter taken modulo 2 ^ 64 where they are encoded; the offset of a page is
-- that of an int64, and durations and the bcrypt cost of the configuration are integers. The hash
-- that chooses a shard is computed modulo 2 ^ 64. No definition uses fuel: the loops of the source
-- run over lists, and the renewal of the Vault token over the rounds that it meets.
--
-- Parameters: Dgraph and its client, SHA-256, base64, bcrypt, uuid, the Vault server and its client,
-- the jwt library with encoding/json of claims, the limiter of golang.org/x/time/rate, the
-- environment, time.ParseDuration, strconv.ParseFloat, net.ParseIP and net.SplitHostPort.
-- `strings.ToLower` and `strings.TrimSpace` are modelled on ASCII texts.
--
-- Not modelled: the messages and stubs of the gRPC protocol (internal/handler/grpc/pb), which hold no
-- logic; deadlines, logging, the options of the servers, and the JSON decoding of request bodies,
-- which net/http and encoding/json do; the opening of connections and the texts of the schemas but
-- for their list predicates.
pub mod Prelude
pub mod Errors
pub mod Base64
pub mod Dgraph
pub mod World
pub mod Domain
pub mod Token
pub mod Vault
pub mod Config
pub mod Server
pub mod Repository
pub mod Service
pub mod Handler
pub mod Examples
