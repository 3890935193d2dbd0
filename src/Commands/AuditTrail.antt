-- ===== src/Commands/AuditTrail.antt =====
-- The audit trail under the handlers: the chains of Store/UnitOfWork/Chain as a closed invariant.
use loan_credit.Store.Session.{Env}
use loan_credit.Store.UnitOfWork.{latest_hash}
use loan_credit.Store.UnitOfWork.Chain.{AreChained, record_domain_events-AreChained}
use loan_credit.Commands.Closed.{IsClosed}

pub AreChained-IsClosed : (env : Env) → IsClosed env (AreChained env)
unfolding latest_hash
AreChained-IsClosed env = record {
  key_added = λ db row h. h;
  applicant_added = λ db row h. h;
  applications_written = λ db rows h. h;
  version_added = λ db row h. h;
  entry_added = λ db row h. h;
  document_added = λ db row h. h;
  allowing = record {
    run_added = λ db row h. h;
    fact_added = λ db row h. h;
    verification_added = λ db row h. h;
    check_added = λ db row h. h;
    contradiction_added = λ db row h. h;
    snapshot_added = λ db row h. h;
  };
  entries_decided = λ db w id d h. h;
  recording = record_domain_events-AreChained env;
}
