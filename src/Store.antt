-- ===== src/Store.antt =====
-- finassist/infrastructure/postgres: the tables, the session that a unit of work runs in, and the
-- repositories.
pub mod Rows
pub mod Session
pub mod Repository
pub mod ReviewQueue
pub mod Applicants
pub mod Documents
pub mod Extraction
pub mod Verification
pub mod Audit
pub mod UnitOfWork
