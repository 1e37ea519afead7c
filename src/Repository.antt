-- ===== src/Repository.antt =====
-- packages/repository/src: the key-value repository, its in-memory implementation and the
-- documents that are kept in one.
pub mod Memory
pub mod Interface
pub mod Document
