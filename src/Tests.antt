-- ===== src/Tests.antt =====
-- The theorems applied at concrete inputs, and runs of the handlers.
pub mod Domain
pub mod Scenario
pub mod Handlers
pub mod Kafka
pub mod Evidence
pub mod Temporal
