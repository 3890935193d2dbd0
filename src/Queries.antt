-- ===== src/Queries.antt =====
-- finassist/application/queries: what is read without being changed.
pub mod GetApplicationStatus
pub mod GetApplicationEvidence
