-- ===== src/Commands/ResubmitApplication.antt =====
-- finassist/application/commands/resubmit_application.py.
use loan_credit.Prelude.{ℕ, Option, some, String}
use loan_credit.Domain.Status.{ApplicationStatus, document_processing, value}
use loan_credit.Domain.Application
use loan_credit.Domain.Application.{Application}
use loan_credit.Store.Session.{Env, Action, ◌>>=◌, ◌>>◌, pure, commit, transaction}
use loan_credit.Store.Repository.{save}
use loan_credit.Commands.Common.{
  Runner, reserve, load, transition, record_pending, application_workflow_id, start_workflow,
}

abbrev pub operation_name : String
operation_name = "resubmit_application"

pub record ResubmitApplicationCommand : Type 0 where
  pub tenant_id : String
  pub application_id : String
  pub idempotency_key : String

pub record ResubmitApplicationResult : Type 0 where
  pub application_id : String
  pub status : ApplicationStatus
  pub version : ℕ
  pub workflow_id : Option String

-- The body of `async with`: the aggregate and the workflow's id.
unfoldable pub resubmit_in_transaction :
    Env → ResubmitApplicationCommand → Action (Application × String)
resubmit_in_transaction env c = do
  reserve env c.idempotency_key operation_name
  a ← load c.tenant_id c.application_id
  b ← transition env a document_processing "applicant resubmitted with additional information"
  let workflow_id = application_workflow_id env c.tenant_id c.application_id b.version
  let d = Application.attach_workflow b workflow_id
  save env d
  e ← record_pending env d
  commit
  pure (e, workflow_id)

-- `ResubmitApplicationHandler.handle`
unfoldable pub resubmit_application :
    Env → Runner → ResubmitApplicationCommand → Action ResubmitApplicationResult
resubmit_application env runner c = do
  (a, workflow_id) ← transaction c.tenant_id (resubmit_in_transaction env c)
  start_workflow runner (record {
    workflow_id = workflow_id;
    tenant_id = c.tenant_id;
    application_id = c.application_id;
    version = a.version;
    starting_status = value document_processing;
  })
  pure (record {
    application_id = a.application_id;
    status = a.status;
    version = a.version;
    workflow_id = some workflow_id;
  })
