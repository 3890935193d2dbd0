-- ===== src/Commands/EnterHumanReview.antt =====
-- finassist/application/commands/enter_human_review.py.
use loan_credit.Prelude.{ℕ, String}
use loan_credit.Domain.Status.{ApplicationStatus}
use loan_credit.Store.Session.{Env, Action, ◌>>=◌, ◌>>◌, pure, commit, transaction}
use loan_credit.Commands.Common.{reserve, load, enter_human_review, record_pending}

abbrev pub operation_name : String
operation_name = "enter_human_review"

pub record EnterHumanReviewCommand : Type 0 where
  pub tenant_id : String
  pub application_id : String
  pub idempotency_key : String
  pub reason : String

pub record EnterHumanReviewResult : Type 0 where
  pub application_id : String
  pub status : ApplicationStatus
  pub version : ℕ

unfoldable pub enter_in_transaction : Env → EnterHumanReviewCommand → Action EnterHumanReviewResult
enter_in_transaction env c = do
  reserve env c.idempotency_key operation_name
  a ← load c.tenant_id c.application_id
  b ← enter_human_review env a c.reason
  d ← record_pending env b
  commit
  pure (record { application_id = d.application_id; status = d.status; version = d.version })

-- `EnterHumanReviewHandler.handle`
unfoldable pub handle_enter_human_review :
    Env → EnterHumanReviewCommand → Action EnterHumanReviewResult
handle_enter_human_review env c = transaction c.tenant_id (enter_in_transaction env c)
