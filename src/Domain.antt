-- ===== src/Domain.antt =====
-- internal/domain: the entities, their validity, and the inputs of the services.
pub mod Actor
pub mod Session
pub mod User
pub mod ServiceAccount
pub mod Zookie
