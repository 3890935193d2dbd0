-- ===== src/Commands/Kept.antt =====
-- Invariants of the database under the handlers. `Primitives` is what an invariant has to say of the
-- repositories; a saved or added aggregate is one that is not approved or declined.
use loan_credit.Prelude.{
  ℕ, ◌≡◌, refl, Bool, false, none, some, List, String, ◌||◌, str_eq, arith, Bool-cases, inl, inr,
}
use loan_credit.Domain.Status.{
  ApplicationStatus, draft, submitted, document_processing, intake_validation, verification,
  awaiting_human_review, value,
}
use loan_credit.Domain.Error.{ok}
use loan_credit.Domain.Event.{DomainEvent}
use loan_credit.Domain.Applicant.{Applicant}
use loan_credit.Domain.Application
use loan_credit.Domain.Application.{Application}
use loan_credit.Store.Rows.{Db, ReviewQueueEntryRow, DocumentRow}
use loan_credit.Store.Session.{Env, World, WorkflowStart, Action, ◌>>=◌}
use loan_credit.Store.Session.Keeps.{
  Keeps, Good, keeps_rules, Keeps-bind, Keeps-bind-fact, Keeps-read, Keeps-or_raise, Keeps-lift,
  Good-new_id, Good-transaction-Keeps,
}
use loan_credit.Store.Repository.{
  get_application, get_product, save, add_application, add_applicant,
}
use loan_credit.Store.ReviewQueue.{add_entry}
use loan_credit.Store.Documents.{count_for_application, add_document}
use loan_credit.Store.UnitOfWork.{reserve_idempotency_key, record_domain_events}
use loan_credit.Commands.Common.{
  Runner, reserve, load, transition, record_pending, enter_human_review, start_workflow,
}
use loan_credit.Commands.SubmitApplication.{
  SubmitApplicationCommand, submit_in_transaction, submit_application,
}
use loan_credit.Commands.ResubmitApplication.{
  ResubmitApplicationCommand, resubmit_in_transaction, resubmit_application,
}
use loan_credit.Commands.EnterHumanReview.{
  EnterHumanReviewCommand, enter_in_transaction, handle_enter_human_review,
}
use loan_credit.Commands.AdvanceDocumentProcessing.{
  AdvanceDocumentProcessingCommand, enter_verification, advance_documents,
  advance_document_processing,
}
use loan_credit.Commands.AdvanceIntakeValidation.{
  AdvanceIntakeValidationCommand, enter_document_processing, advance_intake,
  advance_intake_validation,
}
use loan_credit.Commands.UploadDocument.{
  UploadDocumentCommand, upload_in_transaction, upload_document,
}
use loan_credit.Commands.CreateApplication.{
  CreateApplicationCommand, create_at_clock, create_checked, create_in_transaction,
  create_application,
}
use loan_credit.Commands.Evidence.Kept.{AllowsEvidence}
use loan_credit.Prelude.Int.{ℤ}
use loan_credit.Domain.Money.{Money}
use loan_credit.Domain.Product.{Product}

abbrev pub is_credit_decision : String → Bool
is_credit_decision status = str_eq status "APPROVED" || str_eq status "DECLINED"

-- The aggregate is neither approved nor declined.
abbrev pub IsOpen : Application → Type 0
IsOpen a = is_credit_decision (value a.status) ≡ false

pub record Primitives (env : Env) (I : Db → Type 0) : Type 0 where
  pub reserving :
      (key operation : String) → Keeps (Good I) (reserve_idempotency_key env key operation)
  pub saving : (a : Application) → IsOpen a → Keeps (Good I) (save env a)
  pub queueing : (e : ReviewQueueEntryRow) → Keeps (Good I) (add_entry e)
  pub recording : (es : List DomainEvent) → Keeps (Good I) (record_domain_events env es)
  pub adding_applicant : (a : Applicant) → Keeps (Good I) (add_applicant env a)
  pub adding_document : (d : DocumentRow) → Keeps (Good I) (add_document d)
  pub adding_application : (a : Application) → IsOpen a → Keeps (Good I) (add_application env a)
  pub allowing : AllowsEvidence I

transition_status :
    (env : Env) (a : Application) (s : ApplicationStatus) (reason : String) (w : World)
    (b : Application)
    → (transition env a s reason w).0 ≡ ok b
    → b.status ≡ s
unfolding transition Application.transition_to ◌>>=◌
transition_status env a s reason w b h = ground arith

created_status :
    (env : Env) (application_id tenant_id applicant_id : String) (product : Product) (m : Money)
    (term : ℤ) (w : World) (a : Application)
    → (create_at_clock env application_id tenant_id applicant_id product m term w).0 ≡ ok a
    → a.status ≡ draft
unfolding create_at_clock Application.create ◌>>=◌
created_status env application_id tenant_id applicant_id product m term w a h = ground arith

module _ {env : Env} {I : Db → Type 0} (p : Primitives env I) where
  open p use {
    reserving, saving, queueing, recording, adding_applicant, adding_application, adding_document,
  }

  pub reserve-Good : (key operation : String) → Keeps (Good I) (reserve env key operation)
  unfolding reserve
  reserve-Good key operation = search (keeps_rules, reserving)

  pub load-Good : (tenant id : String) → Keeps (Good I) (load tenant id)
  unfolding load get_application
  load-Good tenant id = search keeps_rules

  pub transition-Good :
      (a : Application) (s : ApplicationStatus) (reason : String)
      → Keeps (Good I) (transition env a s reason)
  unfolding transition
  transition-Good a s reason = search keeps_rules

  pub record_pending-Good : (a : Application) → Keeps (Good I) (record_pending env a)
  unfolding record_pending
  record_pending-Good a = search (keeps_rules, recording)

  -- The rest of a handler may use that the transition has set the status.
  then_transition :
      {A : Type 0} (a : Application) (s : ApplicationStatus) (reason : String)
      (f : Application → Action A)
      → is_credit_decision (value s) ≡ false
      → ((b : Application) → IsOpen b → Keeps (Good I) (f b))
      → Keeps (Good I) (transition env a s reason >>= f)
  then_transition a s reason f open' kf =
      Keeps-bind-fact IsOpen (transition env a s reason) f (transition-Good a s reason)
        (λ w b e. rw (transition_status env a s reason w b e) open') kf

  enter_human_review-Good :
      (a : Application) (reason : String) → Keeps (Good I) (enter_human_review env a reason)
  unfolding enter_human_review
  enter_human_review-Good a reason =
      then_transition a awaiting_human_review reason _ refl
        λ b open'. search (keeps_rules, saving, queueing)

  submit_in_transaction-Good :
      (c : SubmitApplicationCommand) → Keeps (Good I) (submit_in_transaction env c)
  unfolding submit_in_transaction Application.attach_workflow
  submit_in_transaction-Good c = Keeps-bind _ _ (reserve-Good _ _) λ _.
      Keeps-bind _ _ (load-Good _ _) λ a.
        then_transition a submitted _ _ refl
          λ b open'. search (keeps_rules, record_pending-Good, saving)

  start_workflow-Good :
      (runner : Runner) (start : WorkflowStart) → Keeps (Good I) (start_workflow runner start)
  unfolding start_workflow
  start_workflow-Good none start = record { at = λ w h. h }
  start_workflow-Good (some accepts) start = record {
    at = λ w h. elim (Bool-cases (accepts start)) [
      | inl yes' ↦ rw yes' (record { committed = h.committed; current = h.current })
      | inr no' ↦ rw no' h
    ];
  }

  pub submit_application-Good :
      (runner : Runner) (c : SubmitApplicationCommand)
      → Keeps (Good I) (submit_application env runner c)
  unfolding submit_application
  submit_application-Good runner c =
      search (keeps_rules, submit_in_transaction-Good, start_workflow-Good)

  resubmit_in_transaction-Good :
      (c : ResubmitApplicationCommand) → Keeps (Good I) (resubmit_in_transaction env c)
  unfolding resubmit_in_transaction Application.attach_workflow
  resubmit_in_transaction-Good c = Keeps-bind _ _ (reserve-Good _ _) λ _.
      Keeps-bind _ _ (load-Good _ _) λ a.
        then_transition a document_processing _ _ refl
          λ b open'. search (keeps_rules, record_pending-Good, saving)

  pub resubmit_application-Good :
      (runner : Runner) (c : ResubmitApplicationCommand)
      → Keeps (Good I) (resubmit_application env runner c)
  unfolding resubmit_application
  resubmit_application-Good runner c =
      search (keeps_rules, resubmit_in_transaction-Good, start_workflow-Good)

  pub handle_enter_human_review-Good :
      (c : EnterHumanReviewCommand) → Keeps (Good I) (handle_enter_human_review env c)
  unfolding handle_enter_human_review enter_in_transaction
  handle_enter_human_review-Good c =
      search (keeps_rules, reserve-Good, load-Good, enter_human_review-Good, record_pending-Good)
        depth 9

  enter_verification-Good : (a : Application) (n : ℕ) → Keeps (Good I) (enter_verification env a n)
  unfolding enter_verification
  enter_verification-Good a n =
      then_transition a verification _ _ refl λ b open'. search (keeps_rules, saving)

  pub advance_document_processing-Good :
      (c : AdvanceDocumentProcessingCommand) → Keeps (Good I) (advance_document_processing env c)
  unfolding advance_document_processing advance_documents count_for_application
  advance_document_processing-Good c =
      search
        (
          keeps_rules, reserve-Good, load-Good, enter_verification-Good, enter_human_review-Good,
          record_pending-Good,
        )
        depth 9

  enter_document_processing-Good :
      (a : Application) → Keeps (Good I) (enter_document_processing env a)
  unfolding enter_document_processing
  enter_document_processing-Good a =
      then_transition a document_processing _ _ refl λ b open'. search (keeps_rules, saving)

  pub advance_intake_validation-Good :
      (c : AdvanceIntakeValidationCommand) → Keeps (Good I) (advance_intake_validation env c)
  unfolding advance_intake_validation advance_intake get_product
  advance_intake_validation-Good c = Good-transaction-Keeps _ _ (
      Keeps-bind _ _ (reserve-Good _ _) λ _. Keeps-bind _ _ (load-Good _ _) λ a.
        Keeps-bind _ _ (Keeps-read _) λ found. Keeps-bind _ _ (Keeps-or_raise _ _) λ product.
          then_transition a intake_validation _ _ refl λ b open'.
            search
              (
                keeps_rules, saving, enter_document_processing-Good, enter_human_review-Good,
                record_pending-Good,
              )
              depth 9)

  create_at_clock-Good :
      (application_id tenant_id applicant_id : String) (product : Product) (m : Money) (term : ℤ)
      → Keeps (Good I) (create_at_clock env application_id tenant_id applicant_id product m term)
  unfolding create_at_clock
  create_at_clock-Good application_id tenant_id applicant_id product m term = search keeps_rules

  -- From the check of the product on.
  create_checked-Good :
      (c : CreateApplicationCommand) (product : Product)
      → Keeps (Good I) (create_checked env c product)
  unfolding create_checked
  create_checked-Good c product = Keeps-bind _ _ (Good-new_id _) λ applicant_id.
      Keeps-bind _ _ (Keeps-lift _) λ applicant. Keeps-bind _ _ (adding_applicant _) λ _.
        Keeps-bind _ _ (Good-new_id _) λ application_id.
          Keeps-bind-fact IsOpen _ _ (create_at_clock-Good _ _ _ _ _ _)
            (λ w a e. rw (created_status _ _ _ _ _ _ _ w a e) refl)
            λ a open'. search (keeps_rules, adding_application, record_pending-Good)

  pub create_application-Good :
      (c : CreateApplicationCommand) → Keeps (Good I) (create_application env c)
  unfolding create_application create_in_transaction get_product
  create_application-Good c = search (keeps_rules, reserve-Good, create_checked-Good) depth 9

  pub upload_document-Good : (c : UploadDocumentCommand) → Keeps (Good I) (upload_document env c)
  unfolding upload_document upload_in_transaction
  upload_document-Good c =
      search (keeps_rules, reserve-Good, load-Good, adding_document, recording) depth 14
