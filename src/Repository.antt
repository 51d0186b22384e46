-- ===== src/Repository.antt =====
-- internal/repository/dgraph: the repositories over Dgraph.
pub mod Session
pub mod User
pub mod ServiceAccount
