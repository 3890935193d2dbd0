-- ===== src/Api.antt =====
-- finassist/api: how what the handlers raise is answered.
pub mod Problems
