-- ===== src/Queries/GetApplicationStatus.antt =====
-- finassist/application/queries/get_application_status.py.
pub mod Current
use loan_credit.Prelude.{ℕ, ◌≡◌, refl, Option, String}
use loan_credit.Domain.Status.{ApplicationStatus}
use loan_credit.Domain.Application.{Application}
use loan_credit.Store.Session.{Env, World, Action, ◌>>=◌, pure, transaction}
use loan_credit.Commands.Common.{load}

pub record GetApplicationStatusQuery : Type 0 where
  pub tenant_id : String
  pub application_id : String

pub record ApplicationStatusResult : Type 0 where
  pub application_id : String
  pub status : ApplicationStatus
  pub version : ℕ
  pub active_workflow_id : Option String

-- `GetApplicationStatusHandler.handle`: the transaction is left without a commit.
unfoldable pub get_application_status : GetApplicationStatusQuery → Action ApplicationStatusResult
get_application_status query = transaction query.tenant_id (do
  a ← load query.tenant_id query.application_id
  pure (record {
    application_id = a.application_id;
    status = a.status;
    version = a.version;
    active_workflow_id = a.active_workflow_id;
  }))
