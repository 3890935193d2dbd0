-- ===== src/Commands/Atomicity.antt =====
-- Atomicity of the handlers: what is committed when one of them raises.
use loan_credit.Prelude.{ℕ, refl, Option, none, some, List, [], ◌∷◌, String}
use loan_credit.Domain.Event.{DomainEvent}
use loan_credit.Domain.Application.{Application}
use loan_credit.Domain.Applicant.{Applicant}
use loan_credit.Domain.Product.{Product}
use loan_credit.Domain.Money.{Money}
use loan_credit.Prelude.Int.{ℤ}
use loan_credit.Store.Session.{Env, WorkflowStart}
use loan_credit.Store.Session.Atomic.{
  Leaves, Returns, IsAtomic, leaves_rules, IsAtomic-bind, IsAtomic-commit, IsAtomic-then,
  IsAtomic-transaction, Returns-bind, Returns-pure, Leaves-bind,
}
use loan_credit.Store.Repository.{
  get_application, get_product, write_application, insert_version, insert_application, save,
  add_application, add_applicant,
}
use loan_credit.Store.ReviewQueue.{add_entry, mark_decided, own_entry, find_entry, write_decision}
use loan_credit.Store.Documents.{count_for_application, add_document}
use loan_credit.Store.UnitOfWork.{
  insert_outbox, insert_audit, record_event, record_domain_events, reserve_idempotency_key,
}
use loan_credit.Store.Rows.{ReviewQueueEntryRow, DocumentRow}
use loan_credit.Commands.Common.{
  Runner, reserve, load, transition, record_pending, enter_human_review, start_workflow,
}
use loan_credit.Domain.Status.{ApplicationStatus}
use loan_credit.Store.ReviewQueue.{Decided}
use loan_credit.Commands.SubmitApplication.{
  SubmitApplicationCommand, submit_in_transaction, submit_application,
}
use loan_credit.Commands.ResubmitApplication.{
  ResubmitApplicationCommand, resubmit_in_transaction, resubmit_application,
}
use loan_credit.Commands.EnterHumanReview.{
  EnterHumanReviewCommand, enter_in_transaction, handle_enter_human_review,
}
use loan_credit.Commands.AdvanceDocumentProcessing.{
  AdvanceDocumentProcessingCommand, enter_verification, advance_documents,
  advance_document_processing,
}
use loan_credit.Commands.AdvanceIntakeValidation.{
  AdvanceIntakeValidationCommand, enter_document_processing, advance_intake,
  advance_intake_validation,
}
use loan_credit.Commands.ApplyReviewDecision.{
  ApplyReviewDecisionCommand, decide_in_transaction, apply_review_decision,
}
use loan_credit.Commands.UploadDocument.{
  UploadDocumentCommand, upload_in_transaction, upload_document,
}
use loan_credit.Commands.CreateApplication.{
  CreateApplicationCommand, create_at_clock, create_checked, create_in_transaction,
  create_application,
}

pub reserve-Leaves : (env : Env) (key operation : String) → Leaves (reserve env key operation)
unfolding reserve reserve_idempotency_key
reserve-Leaves env key operation = search leaves_rules

pub load-Leaves : (tenant id : String) → Leaves (load tenant id)
unfolding load get_application
load-Leaves tenant id = search leaves_rules

product-Leaves : (id : String) → Leaves (get_product id)
unfolding get_product
product-Leaves id = search leaves_rules

transition-Leaves :
    (env : Env) (a : Application) (s : ApplicationStatus) (reason : String)
    → Leaves (transition env a s reason)
unfolding transition
transition-Leaves env a s reason = search leaves_rules

write-Leaves : (a : Application) → Leaves (write_application a)
unfolding write_application
write-Leaves a = record { durable = λ w. refl }

pub save-Leaves : (env : Env) (a : Application) → Leaves (save env a)
unfolding save insert_version
save-Leaves env a = search (leaves_rules, write-Leaves)

record_event-Leaves : (env : Env) (e : DomainEvent) → Leaves (record_event env e)
unfolding record_event insert_outbox insert_audit
record_event-Leaves env e = search leaves_rules depth 8

events-Leaves : (env : Env) (es : List DomainEvent) → Leaves (record_domain_events env es)
unfolding record_domain_events
events-Leaves env [] = search leaves_rules
events-Leaves env (e ∷ es) = Leaves-bind _ _ (record_event-Leaves env e) (λ _. events-Leaves env es)

record_pending-Leaves : (env : Env) (a : Application) → Leaves (record_pending env a)
unfolding record_pending
record_pending-Leaves env a = search (leaves_rules, events-Leaves)

add_entry-Leaves : (e : ReviewQueueEntryRow) → Leaves (add_entry e)
unfolding add_entry
add_entry-Leaves e = search leaves_rules

write_decision-durable :
    (id : String) (d : Decided) (o : Option ReviewQueueEntryRow) → Leaves (write_decision id d o)
write_decision-durable id d none = record { durable = λ w. refl }
write_decision-durable id d (some row) = record { durable = λ w. refl }

mark_decided-Leaves : (tenant id : String) (d : Decided) → Leaves (mark_decided tenant id d)
unfolding mark_decided
mark_decided-Leaves tenant id d = record {
  durable = λ w. (write_decision-durable id d (own_entry tenant (find_entry id w))).durable w;
}

ruleset shared_steps = (
  leaves_rules, reserve-Leaves, load-Leaves, product-Leaves, transition-Leaves, save-Leaves,
  record_pending-Leaves, add_entry-Leaves, mark_decided-Leaves,
)

enter_human_review-Leaves :
    (env : Env) (a : Application) (reason : String) → Leaves (enter_human_review env a reason)
unfolding enter_human_review
enter_human_review-Leaves env a reason = search shared_steps depth 7

start_workflow-Returns :
    (runner : Runner) (start : WorkflowStart) → Returns (start_workflow runner start)
unfolding start_workflow
start_workflow-Returns none start = record { result = λ w e h. cc }
start_workflow-Returns (some accepts) start = record { result = λ w e h. cc }

ruleset atomic_rules = (
  shared_steps, IsAtomic-bind, IsAtomic-commit, IsAtomic-then, IsAtomic-transaction, Returns-bind,
  Returns-pure, start_workflow-Returns, enter_human_review-Leaves,
)

pub submit_application-IsAtomic :
    (env : Env) (runner : Runner) (c : SubmitApplicationCommand)
    → IsAtomic (submit_application env runner c)
unfolding submit_application submit_in_transaction
submit_application-IsAtomic env runner c = search atomic_rules depth 14

pub resubmit_application-IsAtomic :
    (env : Env) (runner : Runner) (c : ResubmitApplicationCommand)
    → IsAtomic (resubmit_application env runner c)
unfolding resubmit_application resubmit_in_transaction
resubmit_application-IsAtomic env runner c = search atomic_rules depth 14

pub handle_enter_human_review-IsAtomic :
    (env : Env) (c : EnterHumanReviewCommand) → IsAtomic (handle_enter_human_review env c)
unfolding handle_enter_human_review enter_in_transaction
handle_enter_human_review-IsAtomic env c = search atomic_rules depth 14

enter_verification-Leaves :
    (env : Env) (a : Application) (n : ℕ) → Leaves (enter_verification env a n)
unfolding enter_verification
enter_verification-Leaves env a n = search shared_steps depth 8

count-Leaves : (tenant id : String) → Leaves (count_for_application tenant id)
unfolding count_for_application
count-Leaves tenant id = search leaves_rules

pub advance_document_processing-IsAtomic :
    (env : Env) (c : AdvanceDocumentProcessingCommand)
    → IsAtomic (advance_document_processing env c)
unfolding advance_document_processing advance_documents
advance_document_processing-IsAtomic env c =
    search (atomic_rules, enter_verification-Leaves, count-Leaves) depth 14

enter_document_processing-Leaves :
    (env : Env) (a : Application) → Leaves (enter_document_processing env a)
unfolding enter_document_processing
enter_document_processing-Leaves env a = search shared_steps depth 8

pub advance_intake_validation-IsAtomic :
    (env : Env) (c : AdvanceIntakeValidationCommand) → IsAtomic (advance_intake_validation env c)
unfolding advance_intake_validation advance_intake
advance_intake_validation-IsAtomic env c =
    search (atomic_rules, enter_document_processing-Leaves) depth 18

pub apply_review_decision-IsAtomic :
    (env : Env) (c : ApplyReviewDecisionCommand) → IsAtomic (apply_review_decision env c)
unfolding apply_review_decision decide_in_transaction
apply_review_decision-IsAtomic env c = search atomic_rules depth 16

create_at_clock-Leaves :
    (env : Env) (application_id tenant_id applicant_id : String) (product : Product) (m : Money)
    (term : ℤ)
    → Leaves (create_at_clock env application_id tenant_id applicant_id product m term)
unfolding create_at_clock
create_at_clock-Leaves env application_id tenant_id applicant_id product m term =
    search leaves_rules

add_applicant-Leaves : (env : Env) (a : Applicant) → Leaves (add_applicant env a)
unfolding add_applicant
add_applicant-Leaves env a = search leaves_rules

add_application-Leaves : (env : Env) (a : Application) → Leaves (add_application env a)
unfolding add_application insert_application insert_version
add_application-Leaves env a = search leaves_rules depth 8

create_checked-IsAtomic :
    (env : Env) (c : CreateApplicationCommand) (product : Product)
    → IsAtomic (create_checked env c product)
unfolding create_checked
create_checked-IsAtomic env c product =
    search (atomic_rules, create_at_clock-Leaves, add_applicant-Leaves, add_application-Leaves)
      depth 16

pub create_application-IsAtomic :
    (env : Env) (c : CreateApplicationCommand) → IsAtomic (create_application env c)
unfolding create_application create_in_transaction
create_application-IsAtomic env c = search (atomic_rules, create_checked-IsAtomic) depth 14

add_document-Leaves : (d : DocumentRow) → Leaves (add_document d)
unfolding add_document
add_document-Leaves d = search leaves_rules

pub upload_document-IsAtomic :
    (env : Env) (c : UploadDocumentCommand) → IsAtomic (upload_document env c)
unfolding upload_document upload_in_transaction
upload_document-IsAtomic env c = search (atomic_rules, add_document-Leaves, events-Leaves) depth 18
