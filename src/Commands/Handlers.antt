-- ===== src/Commands/Handlers.antt =====
-- The handlers as the steps of the system: a request names the handler and its command, and a run
-- is a sequence of requests, each served in its own session.
pub mod Later
pub mod Reachable
use loan_credit.Store.Session.{Env, Action, ◌>>=◌, ◌>>◌, pure}
use loan_credit.Commands.Common.{Runner}
use loan_credit.Commands.CreateApplication.{CreateApplicationCommand, create_application}
use loan_credit.Commands.SubmitApplication.{SubmitApplicationCommand, submit_application}
use loan_credit.Commands.ResubmitApplication.{ResubmitApplicationCommand, resubmit_application}
use loan_credit.Commands.AdvanceIntakeValidation.{
  AdvanceIntakeValidationCommand, advance_intake_validation,
}
use loan_credit.Commands.AdvanceDocumentProcessing.{
  AdvanceDocumentProcessingCommand, advance_document_processing,
}
use loan_credit.Commands.EnterHumanReview.{EnterHumanReviewCommand, handle_enter_human_review}
use loan_credit.Commands.ApplyReviewDecision.{ApplyReviewDecisionCommand, apply_review_decision}
use loan_credit.Commands.UploadDocument.{UploadDocumentCommand, upload_document}
use loan_credit.Commands.ProcessDocument.{ProcessDocumentCommand, process_document}
use loan_credit.Commands.VerifyFacts.{VerifyApplicationFactsCommand, verify_application_facts}

pub data Request : Type 0 where
  create : CreateApplicationCommand → Request
  submit : SubmitApplicationCommand → Request
  resubmit : ResubmitApplicationCommand → Request
  advance_intake : AdvanceIntakeValidationCommand → Request
  advance_documents : AdvanceDocumentProcessingCommand → Request
  enter_review : EnterHumanReviewCommand → Request
  apply_decision : ApplyReviewDecisionCommand → Request
  upload : UploadDocumentCommand → Request
  process : ProcessDocumentCommand → Request
  verify : VerifyApplicationFactsCommand → Request

-- The call of a handler whose result is not looked at.
unfoldable pub handle : Env → Runner → Request → Action (Unit {0})
handle env runner (create c) = create_application env c >> pure tt
handle env runner (submit c) = submit_application env runner c >> pure tt
handle env runner (resubmit c) = resubmit_application env runner c >> pure tt
handle env runner (advance_intake c) = advance_intake_validation env c >> pure tt
handle env runner (advance_documents c) = advance_document_processing env c >> pure tt
handle env runner (enter_review c) = handle_enter_human_review env c >> pure tt
handle env runner (apply_decision c) = apply_review_decision env c >> pure tt
handle env runner (upload c) = upload_document env c >> pure tt
handle env runner (process c) = process_document env c >> pure tt
handle env runner (verify c) = verify_application_facts env c >> pure tt
