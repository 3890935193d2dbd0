-- ===== src/Tests/Temporal.antt =====
-- Runs of the workflow under a Temporal that executes each activity twice.
use loan_credit.Prelude.{◌≡◌, refl, none, some}
use loan_credit.Domain.Error.{ok}
use loan_credit.Temporal.Activities.{
  on_duplicate, current_status, validate_intake_activity, check_required_documents_activity,
  apply_review_decision_activity,
}
use loan_credit.Temporal.Workflow.{
  Execute, InfoOf, ApplicationWorkflowInput, ReviewDecisionSignal, context_of, intake_stage,
  document_stage, verification_stage, decision_stage, run_workflow,
}
use loan_credit.Commands.Idempotency.{HasKey, key_of}
use loan_credit.Temporal.Retried.{Attempt, intake, request_of, IsAnswered, retried-IsAnswered}
use loan_credit.Temporal.Execution.{IsAtLeastOnce, retries, completes}
use loan_credit.Commands.Granted.{AreGranted}
use loan_credit.Temporal.Decided.{granted, run_workflow-AreGranted}
use loan_credit.Queries.GetApplicationStatus.{get_application_status}
use loan_credit.Store.Session.{World}
use loan_credit.Tests.Scenario.{env, seeded, apply_for, app, sent, after, everything}

abbrev twice : Execute
twice = λ A activity m w. m (m w).1

twice-IsAtLeastOnce : IsAtLeastOnce twice
twice-IsAtLeastOnce = λ A activity m w. retries w (completes (m w).1)

abbrev ids : InfoOf
ids = λ activity. record { workflow_id = "w"; activity_id = activity }

abbrev first_submission : ApplicationWorkflowInput
first_submission = record {
  tenant_id = "t1";
  application_id = app;
  version = 1;
  starting_status = "SUBMITTED";
}

abbrev approval : ReviewDecisionSignal
approval = record { decision = "APPROVED"; reason = "fine"; reviewer_id = "r" }

approved_by_workflow :
    (run_workflow twice ids env first_submission
      (some approval)
      (after sent (after apply_for seeded))).0
    ≡ ok (record { final_status = "APPROVED"; final_version = 6 })
unfolding run_workflow intake_stage document_stage verification_stage decision_stage on_duplicate
    current_status validate_intake_activity check_required_documents_activity
    apply_review_decision_activity everything get_application_status
approved_by_workflow = refl

abbrev submitted_case : World
submitted_case = after sent (after apply_for seeded)

submitted_case-view : submitted_case.view ≡ submitted_case.durable
unfolding everything
submitted_case-view = refl

run_workflow-AreGranted_example :
    AreGranted
      (granted submitted_case.durable.applications first_submission (some approval))
      (run_workflow twice ids env first_submission (some approval) submitted_case).1.durable
run_workflow-AreGranted_example =
    run_workflow-AreGranted twice ids env twice-IsAtLeastOnce first_submission (some approval)
      submitted_case submitted_case-view

abbrev intake_attempt : Attempt
intake_attempt = intake (context_of first_submission)

-- The worker has served the first attempt, and its answer was lost.
abbrev attempted : World
attempted =
    after (request_of (ids "validate_intake_activity") intake_attempt)
      (after sent (after apply_for seeded))

key_reserved :
    HasKey (key_of (request_of (ids "validate_intake_activity") intake_attempt)) attempted.durable
unfolding everything
key_reserved = refl

retried-IsAnswered_example :
    IsAnswered env (ids "validate_intake_activity") intake_attempt attempted
retried-IsAnswered_example =
    retried-IsAnswered env none (ids "validate_intake_activity") intake_attempt attempted
      key_reserved
