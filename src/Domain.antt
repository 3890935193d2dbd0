-- ===== src/Domain.antt =====
-- finassist/domain (under the repository's src): the value objects and entities of the
-- applications bounded context, and the errors that they and their clients raise.
pub mod Status
pub mod Error
pub mod Money
pub mod Double
pub mod Product
pub mod Applicant
pub mod Event
pub mod Files
pub mod Facts
pub mod Verification
pub mod Application
