-- ===== src/Commands/ApplyReviewDecision.antt =====
-- finassist/application/commands/apply_review_decision.py.
use loan_credit.Prelude.{ℕ, List, [], ◌∷◌, Option, not, String}
use loan_credit.Domain.Status.{
  ApplicationStatus, approved, declined, needs_more_information, escalated, contains, value,
}
use loan_credit.Domain.Error.{invalid_application_data}
use loan_credit.Domain.Application
use loan_credit.Domain.Application.{Application}
use loan_credit.Store.Session.{Env, Action, ◌>>=◌, ◌>>◌, pure, raise_if, now, commit, transaction}
use loan_credit.Store.Repository.{save}
use loan_credit.Store.ReviewQueue.{mark_decided}
use loan_credit.Commands.Common.{reserve, load, transition, record_pending}

abbrev pub operation_name : String
operation_name = "apply_review_decision"

abbrev pub allowed_decisions : List ApplicationStatus
allowed_decisions = approved ∷ declined ∷ needs_more_information ∷ escalated ∷ []

pub record ApplyReviewDecisionCommand : Type 0 where
  pub tenant_id : String
  pub application_id : String
  pub idempotency_key : String
  pub decision : ApplicationStatus
  pub reason : String
  pub reviewer_id : Option String

pub record ApplyReviewDecisionResult : Type 0 where
  pub application_id : String
  pub status : ApplicationStatus
  pub version : ℕ

unfoldable pub decide_in_transaction :
    Env → ApplyReviewDecisionCommand → Action ApplyReviewDecisionResult
decide_in_transaction env c = do
  reserve env c.idempotency_key operation_name
  a ← load c.tenant_id c.application_id
  b ← transition env a c.decision c.reason
  let d = Application.detach_workflow b
  decided_at ← now env
  mark_decided c.tenant_id c.application_id (record {
    decision = value c.decision;
    reason = c.reason;
    reviewer_id = c.reviewer_id;
    decided_at = decided_at;
  })
  save env d
  e ← record_pending env d
  commit
  pure (record { application_id = e.application_id; status = e.status; version = e.version })

-- `ApplyReviewDecisionHandler.handle`
unfoldable pub apply_review_decision :
    Env → ApplyReviewDecisionCommand → Action ApplyReviewDecisionResult
apply_review_decision env c = do
  raise_if (not (contains allowed_decisions c.decision))
      (invalid_application_data "the decision is not a valid human-review outcome")
  transaction c.tenant_id (decide_in_transaction env c)
