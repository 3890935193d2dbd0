-- ===== src/Temporal.antt =====
-- finassist/infrastructure/temporal: the activities over the handlers, and the workflow over them.
pub mod Activities
pub mod Workflow
pub mod Execution
pub mod Keeps
pub mod Decided
pub mod Retried
