-- ===== src/Commands/Idempotency.antt =====
-- Requests whose idempotency key is taken.
use loan_credit.Prelude.{
  ◌≡◌, refl, not, Bool, true, false, ◌&&◌, List, [], ◌∷◌, String, any-append, str_eq, eq_refl,
}
use loan_credit.Domain.Status.{contains}
use loan_credit.Domain.Error.{Error, Result, ok, err, duplicate_request}
use loan_credit.Domain.Event.{DomainEvent}
use loan_credit.Store.Rows.{Db}
use loan_credit.Store.Session.{
  Env, World, Action, continue, ◌>>=◌, caught, now, insert_row, transaction, raise_if,
}
use loan_credit.Store.Session.Keeps.{Keeps, Good, keeps_rules, Keeps-bind, Good-insert_row}
use loan_credit.Store.UnitOfWork.{
  is_reserved, reserve_idempotency_key, insert_outbox, insert_audit, record_event,
  record_domain_events,
}
use loan_credit.Commands.Common.{Runner, reserve}
use loan_credit.Commands.Closed.{IsClosed}
use loan_credit.Commands.CreateApplication.{create_application, create_in_transaction}
use loan_credit.Commands.SubmitApplication.{submit_application, submit_in_transaction}
use loan_credit.Commands.ResubmitApplication.{resubmit_application, resubmit_in_transaction}
use loan_credit.Commands.AdvanceIntakeValidation
use loan_credit.Commands.AdvanceIntakeValidation.{advance_intake_validation}
use loan_credit.Commands.AdvanceDocumentProcessing
use loan_credit.Commands.AdvanceDocumentProcessing.{advance_document_processing}
use loan_credit.Commands.EnterHumanReview.{handle_enter_human_review, enter_in_transaction}
use loan_credit.Commands.ApplyReviewDecision.{
  apply_review_decision, decide_in_transaction, allowed_decisions,
}
use loan_credit.Commands.UploadDocument.{upload_document, upload_in_transaction}
use loan_credit.Commands.ProcessDocument.{process_document, process_in_transaction}
use loan_credit.Commands.VerifyFacts.{verify_application_facts, verify_in_transaction}
use loan_credit.Commands.Handlers.Reachable.{handle_atomic}
use loan_credit.Commands.Handlers.{
  Request, create, submit, resubmit, advance_intake, advance_documents, enter_review,
  apply_decision, upload, process, verify, handle,
}

-- The tenant, the name of the operation and the idempotency key of a request.
pub record RequestKey : Type 0 where
  pub tenant_id : String
  pub operation_name : String
  pub idempotency_key : String

abbrev pub key_of : Request → RequestKey
key_of (create c) = record {
  tenant_id = c.tenant_id;
  operation_name = "create_application";
  idempotency_key = c.idempotency_key;
}
key_of (submit c) = record {
  tenant_id = c.tenant_id;
  operation_name = "submit_application";
  idempotency_key = c.idempotency_key;
}
key_of (resubmit c) = record {
  tenant_id = c.tenant_id;
  operation_name = "resubmit_application";
  idempotency_key = c.idempotency_key;
}
key_of (advance_intake c) = record {
  tenant_id = c.tenant_id;
  operation_name = "advance_intake_validation";
  idempotency_key = c.idempotency_key;
}
key_of (advance_documents c) = record {
  tenant_id = c.tenant_id;
  operation_name = "advance_document_processing";
  idempotency_key = c.idempotency_key;
}
key_of (enter_review c) = record {
  tenant_id = c.tenant_id;
  operation_name = "enter_human_review";
  idempotency_key = c.idempotency_key;
}
key_of (apply_decision c) = record {
  tenant_id = c.tenant_id;
  operation_name = "apply_review_decision";
  idempotency_key = c.idempotency_key;
}
key_of (upload c) = record {
  tenant_id = c.tenant_id;
  operation_name = "upload_document";
  idempotency_key = c.idempotency_key;
}
key_of (process c) = record {
  tenant_id = c.tenant_id;
  operation_name = "process_document";
  idempotency_key = c.idempotency_key;
}
key_of (verify c) = record {
  tenant_id = c.tenant_id;
  operation_name = "verify_application_facts";
  idempotency_key = c.idempotency_key;
}

-- A decision is one of the four that ApplyReviewDecision takes.
abbrev pub is_allowed : Request → Bool
is_allowed (apply_decision c) = contains allowed_decisions c.decision
is_allowed _ = true

abbrev pub HasKey : RequestKey → Db → Type 0
HasKey k db = is_reserved k.tenant_id k.idempotency_key k.operation_name db ≡ true

-- The step raises the error from any state where `P` holds.
record Raises {A : Type 0} (P : World → Type 0) (e : Error) (m : Action A) : Type 0 where
  at : (w : World) → P w → (m w).0 ≡ err e

continue-raises :
    {A B : Type 0} (r : Result A) (f : A → Action B) (w : World) (e : Error)
    → r ≡ err e
    → (continue r f w).0 ≡ err e
continue-raises (ok a) f w e h = cc
continue-raises (err e') f w e h = cc

module _ {P : World → Type 0} {e : Error} {A B : Type 0} where
  Raises-bind : (m : Action A) (f : A → Action B) → Raises P e m → Raises P e (m >>= f)
  unfolding ◌>>=◌
  Raises-bind m f r = record { at = λ w h. continue-raises (m w).0 f (m w).1 e (r.at w h) }

-- The session's tenant has reserved the key for the operation in the transaction's view.
abbrev Taken : (tenant key operation : String) → World → Type 0
Taken tenant key operation w =
    (w.tenant ≡ tenant) × (is_reserved tenant key operation w.view ≡ true)

reserve-Raises :
    (env : Env) (tenant key operation : String)
    → Raises
        (Taken tenant key operation)
        (duplicate_request operation key)
        (reserve env key operation)
unfolding reserve reserve_idempotency_key ◌>>=◌ caught now insert_row
reserve-Raises env tenant key operation = record {
  at = λ w h. rw h.0 (rw (eq_refl tenant) (rw h.1 refl));
}

transaction-Raises :
    {A : Type 0} (tenant key operation : String) (e : Error) (m : Action A)
    → Raises (Taken tenant key operation) e m
    → Raises (λ w. is_reserved tenant key operation w.durable ≡ true) e (transaction tenant m)
unfolding transaction
transaction-Raises tenant key operation e m r = record {
  at = λ w h. r.at (record w { view = w.durable; tenant = tenant }) (refl, h);
}

after_check :
    {A : Type 0} {P : World → Type 0} {e : Error} (b : Bool) (refusal : Error) (m : Action A)
    → b ≡ true
    → Raises P e m
    → Raises P e (raise_if (not b) refusal >>= λ _. m)
unfolding ◌>>=◌ raise_if
after_check true refusal m holds r = record { at = λ w h. r.at w h }
after_check false refusal m holds r = cc

ruleset raises_rules = (Raises-bind, reserve-Raises, transaction-Raises)

taken-Raises :
    (env : Env) (runner : Runner) (r : Request)
    → is_allowed r ≡ true
    → Raises
        (λ w. HasKey (key_of r) w.durable)
        (duplicate_request (key_of r).operation_name (key_of r).idempotency_key)
        (handle env runner r)
unfolding handle process_document process_in_transaction verify_application_facts
    verify_in_transaction upload_document upload_in_transaction create_application
    create_in_transaction submit_application submit_in_transaction resubmit_application
    resubmit_in_transaction advance_intake_validation AdvanceIntakeValidation.advance_intake
    advance_document_processing AdvanceDocumentProcessing.advance_documents
    handle_enter_human_review enter_in_transaction apply_review_decision decide_in_transaction
taken-Raises env runner (create c) allowed = search raises_rules
taken-Raises env runner (submit c) allowed = search raises_rules
taken-Raises env runner (resubmit c) allowed = search raises_rules
taken-Raises env runner (advance_intake c) allowed = search raises_rules
taken-Raises env runner (advance_documents c) allowed = search raises_rules
taken-Raises env runner (enter_review c) allowed = search raises_rules
taken-Raises env runner (upload c) allowed = search raises_rules
taken-Raises env runner (process c) allowed = search raises_rules
taken-Raises env runner (verify c) allowed = search raises_rules
taken-Raises env runner (apply_decision c) allowed =
    Raises-bind _ _ (after_check _ _ _ allowed (search raises_rules))

record_event-HasKey :
    (env : Env) (k : RequestKey) (e : DomainEvent) → Keeps (Good (HasKey k)) (record_event env e)
unfolding record_event insert_outbox insert_audit
record_event-HasKey env k e = search (keeps_rules, Good-insert_row) depth 8

events-HasKey :
    (env : Env) (k : RequestKey) (es : List DomainEvent)
    → Keeps (Good (HasKey k)) (record_domain_events env es)
unfolding record_domain_events
events-HasKey env k [] = search keeps_rules
events-HasKey env k (e ∷ es) =
    Keeps-bind _ _ (record_event-HasKey env k e) (λ _. events-HasKey env k es)

pub HasKey-IsClosed : (env : Env) (k : RequestKey) → IsClosed env (HasKey k)
HasKey-IsClosed env k = record {
  key_added = λ db row h.
      rw
        (any-append
          (λ r.
            str_eq r.tenant_id k.tenant_id
            && (str_eq r.operation_name k.operation_name
                && str_eq r.idempotency_key k.idempotency_key))
          db.idempotency_keys (row ∷ []))
        (rw h refl);
  applicant_added = λ db row h. h;
  applications_written = λ db rows h. h;
  version_added = λ db row h. h;
  entry_added = λ db row h. h;
  document_added = λ db row h. h;
  allowing = record {
    run_added = λ db row h. h;
    fact_added = λ db row h. h;
    verification_added = λ db row h. h;
    check_added = λ db row h. h;
    contradiction_added = λ db row h. h;
    snapshot_added = λ db row h. h;
  };
  entries_decided = λ db w id d h. h;
  recording = events-HasKey env k;
}

-- If the request's tenant has a committed reservation of its idempotency key for its operation, the
-- handler raises DuplicateRequestError, with the operation and the key, and commits nothing. (A
-- decision that ApplyReviewDecision does not take is refused before the key is looked at.)
pub duplicate_is_rejected :
    (env : Env) (runner : Runner) (r : Request) (w : World)
    → is_allowed r ≡ true
    → HasKey (key_of r) w.durable
    → ((handle env runner r w).0
        ≡ err (duplicate_request (key_of r).operation_name (key_of r).idempotency_key))
      × ((handle env runner r w).1.durable ≡ w.durable)
duplicate_is_rejected env runner r w allowed taken =
    let raised = (taken-Raises env runner r allowed).at w taken in
    (raised, handle_atomic env runner r w _ raised)
