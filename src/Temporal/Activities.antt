-- ===== src/Temporal/Activities.antt =====
-- finassist/infrastructure/temporal/activities.py and activity_io.py. An activity calls one handler
-- with a key made of the ids that Temporal gives; a duplicate request is one that a former attempt
-- has served, and is answered from what is stored.
use Prim.Native.String.{◌++◌}
use loan_credit.Prelude.{
  ℕ, ◌+◌, Bool, true, false, if◌then◌else◌, Option, List, [], ◌∷◌, String, length,
}
use loan_credit.Domain.Status.{ApplicationStatus, value, of_value}
use loan_credit.Domain.Error.{Error, Result, ok, err}
use loan_credit.Store.Rows.{DocumentRow}
use loan_credit.Store.Session.{Env, Action, ◌>>=◌, pure, lift, transaction}
use loan_credit.Store.Documents.{list_for_application}
use loan_credit.Store.Repository.{status_of}
use loan_credit.Store.Verification.{get_checks_for_application, contradiction_count}
use loan_credit.Commands.AdvanceIntakeValidation.{advance_intake_validation}
use loan_credit.Commands.AdvanceDocumentProcessing.{advance_document_processing}
use loan_credit.Commands.EnterHumanReview.{handle_enter_human_review}
use loan_credit.Commands.ApplyReviewDecision.{apply_review_decision}
use loan_credit.Commands.ProcessDocument.{process_document}
use loan_credit.Commands.VerifyFacts.{verify_application_facts, build_verification_summary}
use loan_credit.Queries.GetApplicationStatus.{get_application_status}

pub record ActivityContext : Type 0 where
  pub tenant_id : String
  pub application_id : String

pub record ActivityStatusResult : Type 0 where
  pub status : String
  pub version : ℕ

pub record ApplyReviewDecisionActivityInput : Type 0 where
  pub tenant_id : String
  pub application_id : String
  pub decision : String
  pub reason : String
  pub reviewer_id : Option String

pub record ExtractDocumentFactsActivityResult : Type 0 where
  pub document_count : ℕ
  pub fact_count : ℕ

pub record VerifyFactsActivityResult : Type 0 where
  pub contradiction_count : ℕ
  pub summary : String

pub record EnterHumanReviewActivityInput : Type 0 where
  pub tenant_id : String
  pub application_id : String
  pub reason : String

-- What `activity.info()` says.
pub record ActivityInfo : Type 0 where
  pub workflow_id : String
  pub activity_id : String

-- `_idempotency_key`
abbrev pub activity_key : ActivityInfo → String
activity_key info = info.workflow_id ++ ":" ++ info.activity_id

abbrev pub document_key : ActivityInfo → (document_id : String) → String
document_key info document_id = activity_key info ++ ":" ++ document_id

abbrev pub is_duplicate : Error → Bool
is_duplicate (Error.duplicate_request operation key) = true
is_duplicate _ = false

-- `try: ... except DuplicateRequestError: ...`
abbrev pub rescue : {A : Type 0} → Action A → Result A → Action A
rescue fallback (ok a) w = (ok a, w)
rescue fallback (err e) w = if is_duplicate e then fallback w else (err e, w)

unfoldable pub on_duplicate : {A : Type 0} → Action A → Action A → Action A
on_duplicate m fallback w = let (r, w') = m w in rescue fallback r w'

abbrev pub status_result : ApplicationStatus → ℕ → ActivityStatusResult
status_result status version = record { status = value status; version = version }

-- `_current_status`
unfoldable pub current_status : (tenant application_id : String) → Action ActivityStatusResult
current_status tenant application_id = do
  result ← get_application_status (record { tenant_id = tenant; application_id = application_id })
  pure (status_result result.status result.version)

unfoldable pub validate_intake_activity :
    Env → ActivityInfo → ActivityContext → Action ActivityStatusResult
validate_intake_activity env info ctx =
    on_duplicate
      (do
        result ← advance_intake_validation env (record {
          tenant_id = ctx.tenant_id;
          application_id = ctx.application_id;
          idempotency_key = activity_key info;
        })
        pure (status_result result.status result.version))
      (current_status ctx.tenant_id ctx.application_id)

unfoldable pub check_required_documents_activity :
    Env → ActivityInfo → ActivityContext → Action ActivityStatusResult
check_required_documents_activity env info ctx =
    on_duplicate
      (do
        result ← advance_document_processing env (record {
          tenant_id = ctx.tenant_id;
          application_id = ctx.application_id;
          idempotency_key = activity_key info;
        })
        pure (status_result result.status result.version))
      (current_status ctx.tenant_id ctx.application_id)

-- One document: how many facts this attempt has stored.
unfoldable pub extract_document : Env → ActivityInfo → ActivityContext → DocumentRow → Action ℕ
extract_document env info ctx document =
    on_duplicate
      (do
        result ← process_document env (record {
          tenant_id = ctx.tenant_id;
          application_id = ctx.application_id;
          document_id = document.document_id;
          idempotency_key = document_key info document.document_id;
        })
        pure result.fact_count)
      (pure 0)

unfoldable pub extract_documents :
    Env → ActivityInfo → ActivityContext → List DocumentRow → (fact_count : ℕ) → Action ℕ
extract_documents env info ctx [] fact_count = pure fact_count
extract_documents env info ctx (d ∷ ds) fact_count = extract_document env info ctx d >>= λ found.
    extract_documents env info ctx ds (fact_count + found)

unfoldable pub extract_document_facts_activity :
    Env → ActivityInfo → ActivityContext → Action ExtractDocumentFactsActivityResult
extract_document_facts_activity env info ctx = do
  documents ← transaction ctx.tenant_id (list_for_application ctx.tenant_id ctx.application_id)
  fact_count ← extract_documents env info ctx documents 0
  pure (record { document_count = length documents; fact_count = fact_count })

unfoldable pub verify_facts_activity :
    Env → ActivityInfo → ActivityContext → Action VerifyFactsActivityResult
verify_facts_activity env info ctx =
    on_duplicate
      (do
        result ← verify_application_facts env (record {
          tenant_id = ctx.tenant_id;
          application_id = ctx.application_id;
          idempotency_key = activity_key info;
        })
        pure
            (record { contradiction_count = result.contradiction_count; summary = result.summary }))
      (do
        checks ←
            transaction ctx.tenant_id (get_checks_for_application ctx.tenant_id ctx.application_id)
        pure (record {
          contradiction_count = contradiction_count checks;
          summary = build_verification_summary env checks;
        }))

unfoldable pub enter_human_review_activity :
    Env → ActivityInfo → EnterHumanReviewActivityInput → Action ActivityStatusResult
enter_human_review_activity env info input =
    on_duplicate
      (do
        result ← handle_enter_human_review env (record {
          tenant_id = input.tenant_id;
          application_id = input.application_id;
          idempotency_key = activity_key info;
          reason = input.reason;
        })
        pure (status_result result.status result.version))
      (current_status input.tenant_id input.application_id)

-- The text of the decision is read inside the `try`; its ValueError is not a duplicate request.
unfoldable pub apply_review_decision_activity :
    Env → ActivityInfo → ApplyReviewDecisionActivityInput → Action ActivityStatusResult
apply_review_decision_activity env info input =
    on_duplicate
      (do
        decision ← lift (status_of (of_value input.decision))
        result ← apply_review_decision env (record {
          tenant_id = input.tenant_id;
          application_id = input.application_id;
          idempotency_key = activity_key info;
          decision = decision;
          reason = input.reason;
          reviewer_id = input.reviewer_id;
        })
        pure (status_result result.status result.version))
      (current_status input.tenant_id input.application_id)
