-- ===== src/Commands/Common.antt =====
-- The steps that the handlers share: the idempotency guard, the load of the aggregate, a transition
-- at the clock's time, `_enter_human_review.py`, `_workflow_id.py` and the start of a workflow.
use Prim.Native.String.{◌++◌ as ◌+++◌}
use loan_credit.Prelude.{ℕ, Bool, not, Option, none, some, [], ◌∷◌, ◌++◌, String, if◌then◌else◌}
use loan_credit.Prelude.Int.{pos}
use loan_credit.Domain.Status.{ApplicationStatus, awaiting_human_review}
use loan_credit.Domain.Error.{ok, duplicate_request, application_not_found}
use loan_credit.Domain.Application
use loan_credit.Domain.Application.{Application}
use loan_credit.Store.Session.{
  Env, WorkflowStart, Action, read, ◌>>=◌, ◌>>◌, pure, raise_if, or_raise, now,
}
use loan_credit.Store.Repository.{get_application, save}
use loan_credit.Store.ReviewQueue.{add_entry}
use loan_credit.Store.UnitOfWork.{reserve_idempotency_key, record_domain_events}

-- `reserved = ...; if not reserved: raise DuplicateRequestError(...)`
unfoldable pub reserve : Env → (key operation : String) → Action (Unit {0})
reserve env key operation = do
  reserved ← reserve_idempotency_key env key operation
  raise_if (not reserved) (duplicate_request operation key)

-- `application = ...; if application is None: raise ApplicationNotFoundError(...)`
unfoldable pub load : (tenant id : String) → Action Application
load tenant id = do found ← get_application tenant id; or_raise found (application_not_found id)

-- `application.transition_to(status, reason=reason, clock=clock)`; the clock is read only if the
-- transition is legal.
unfoldable pub transition : Env → Application → ApplicationStatus → String → Action Application
transition env a status reason = do
  b ← read (λ w. Application.transition_to a status reason (env.now_at w.ticks))
  now env
  pure b

-- `uow.record_domain_events(application.pull_events())`
unfoldable pub record_pending : Env → Application → Action Application
record_pending env a = do
  record_domain_events env (Application.pull_events a).0
  pure (Application.pull_events a).1

-- `enter_human_review` of _enter_human_review.py
unfoldable pub enter_human_review : Env → Application → String → Action Application
enter_human_review env a reason = do
  b ← transition env a awaiting_human_review reason
  save env b
  entered ← now env
  add_entry (record {
    application_id = b.application_id;
    tenant_id = b.tenant_id;
    entered_queue_at = entered;
    status = "pending";
    decision = none;
    reason = none;
    reviewer_id = none;
    decided_at = none;
  })
  pure b

unfoldable pub application_workflow_id : Env → (tenant id : String) → (version : ℕ) → String
application_workflow_id env tenant id version =
    "application:" +++ tenant +++ ":" +++ id +++ ":v" +++ env.int_text (pos version)

-- A workflow runner, if one is configured: whether the start that it is asked for succeeds.
abbrev pub Runner : Type 0
Runner = Option (WorkflowStart → Bool)

-- Starting is best effort: a failure is logged and swallowed.
unfoldable pub start_workflow : Runner → WorkflowStart → Action (Unit {0})
start_workflow none start w = (ok tt, w)
start_workflow (some accepts) start w =
    (ok tt, if accepts start then record w { started = w.started ++ start ∷ [] } else w)
