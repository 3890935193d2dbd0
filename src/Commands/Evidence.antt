-- ===== src/Commands/Evidence.antt =====
-- What the handlers share that write extracted facts and verification runs.
pub mod Kept
pub mod Atomicity
