-- ===== src/Service.antt =====
-- internal/service: the business logic over the repositories.
pub mod Outside
pub mod Session
pub mod Auth
pub mod ServiceAuth
