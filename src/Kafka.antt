-- ===== src/Kafka.antt =====
pub mod Envelope
pub mod Relay
pub mod Projection
