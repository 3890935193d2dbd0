-- ===== src/Temporal/Workflow.antt =====
-- finassist/infrastructure/temporal/workflows.py. Temporal is a parameter: `execute` is
-- `workflow.execute_activity` with the retry policy, `info_of` the ids that it gives to an activity.
-- What `workflow.wait_condition` leads to is an argument: the signal that came, or none in time.
use loan_credit.Prelude.{ℕ, Bool, true, false, Option, none, some, String, str_eq, if◌then◌else◌}
use loan_credit.Domain.Error.{value_error}
use loan_credit.Store.Session.{Env, Action, ◌>>=◌, ◌>>◌, pure, raise}
use loan_credit.Temporal.Activities.{
  ActivityContext, ActivityStatusResult, ActivityInfo, validate_intake_activity,
  check_required_documents_activity, extract_document_facts_activity, verify_facts_activity,
  enter_human_review_activity, apply_review_decision_activity,
}

pub record ApplicationWorkflowInput : Type 0 where
  pub tenant_id : String
  pub application_id : String
  pub version : ℕ
  pub starting_status : String

pub record ApplicationWorkflowResult : Type 0 where
  pub final_status : String
  pub final_version : ℕ

pub record ReviewDecisionSignal : Type 0 where
  pub decision : String
  pub reason : String
  pub reviewer_id : String

abbrev pub Execute : Type 1
Execute = (A : Type 0) → (activity : String) → Action A → Action A

abbrev pub InfoOf : Type 0
InfoOf = (activity : String) → ActivityInfo

abbrev pub is_in_review : ActivityStatusResult → Bool
is_in_review r = str_eq r.status "AWAITING_HUMAN_REVIEW"

abbrev pub context_of : ApplicationWorkflowInput → ActivityContext
context_of input = record { tenant_id = input.tenant_id; application_id = input.application_id }

-- `except TimeoutError`: no signal in time.
abbrev pub decision_of : Option ReviewDecisionSignal → ReviewDecisionSignal
decision_of (some signal) = signal
decision_of none = record {
  decision = "ESCALATED";
  reason = "human review SLA timeout: no decision recorded within the review window";
  reviewer_id = "";
}

-- `decision.reviewer_id or None`
abbrev pub reviewer_of : String → Option String
reviewer_of reviewer_id = if str_eq reviewer_id "" then none else some reviewer_id

module _ (execute : Execute) (info_of : InfoOf) (env : Env) where
  -- The intake, which a resubmitted case skips: whether it has reached human review.
  unfoldable pub intake_stage : ApplicationWorkflowInput → ActivityContext → Action Bool
  intake_stage input ctx =
      if str_eq input.starting_status "SUBMITTED"
      then (do
        result ←
            execute _ "validate_intake_activity"
              (validate_intake_activity env (info_of "validate_intake_activity") ctx)
        pure (is_in_review result))
      else if str_eq input.starting_status "DOCUMENT_PROCESSING"
      then pure false
      else raise (value_error "ApplicationWorkflow does not support starting_status")

  unfoldable pub document_stage : ActivityContext → (reached : Bool) → Action Bool
  document_stage ctx true = pure true
  document_stage ctx false = do
    result ←
        execute _ "check_required_documents_activity"
          (check_required_documents_activity env (info_of "check_required_documents_activity") ctx)
    pure (is_in_review result)

  unfoldable pub verification_stage : ActivityContext → (reached : Bool) → Action (Unit {0})
  verification_stage ctx true = pure tt
  verification_stage ctx false = do
    execute _ "extract_document_facts_activity"
        (extract_document_facts_activity env (info_of "extract_document_facts_activity") ctx)
    verified ←
        execute _ "verify_facts_activity"
          (verify_facts_activity env (info_of "verify_facts_activity") ctx)
    execute _ "enter_human_review_activity" (
        enter_human_review_activity env (info_of "enter_human_review_activity") (record {
          tenant_id = ctx.tenant_id;
          application_id = ctx.application_id;
          reason = verified.summary;
        }))
    pure tt

  unfoldable pub decision_stage :
      ActivityContext → ReviewDecisionSignal → Action ApplicationWorkflowResult
  decision_stage ctx decision = do
    final ← execute _ "apply_review_decision_activity" (
        apply_review_decision_activity env (info_of "apply_review_decision_activity") (record {
          tenant_id = ctx.tenant_id;
          application_id = ctx.application_id;
          decision = decision.decision;
          reason = decision.reason;
          reviewer_id = reviewer_of decision.reviewer_id;
        }))
    pure (record { final_status = final.status; final_version = final.version })

  -- `ApplicationWorkflow.run`
  unfoldable pub run_workflow :
      ApplicationWorkflowInput → Option ReviewDecisionSignal → Action ApplicationWorkflowResult
  run_workflow input signal = do
    in_review ← intake_stage input (context_of input)
    reached ← document_stage (context_of input) in_review
    verification_stage (context_of input) reached
    decision_stage (context_of input) (decision_of signal)
