-- ===== src/Handler.antt =====
-- internal/handler and internal/middleware: the transports over the services.
pub mod Status
pub mod Middleware
pub mod RateLimit
pub mod Http
pub mod Grpc
