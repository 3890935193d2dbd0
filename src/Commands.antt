-- ===== src/Commands.antt =====
-- finassist/application/commands: one module per handler. A handler runs in one transaction; what it
-- raises before the commit is rolled back.
pub mod Handlers
pub mod Common
pub mod CreateApplication
pub mod SubmitApplication
pub mod ResubmitApplication
pub mod AdvanceIntakeValidation
pub mod AdvanceDocumentProcessing
pub mod EnterHumanReview
pub mod ApplyReviewDecision
pub mod UploadDocument
pub mod ProcessDocument
pub mod VerifyFacts
pub mod Evidence
pub mod Atomicity
pub mod Kept
pub mod Decisions
pub mod Closed
pub mod Granted
pub mod Idempotency
pub mod AuditTrail
pub mod ReviewOnce
