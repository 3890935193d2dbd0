-- ===== src/Commands/Handlers/Reachable.antt =====
-- The states that the handlers can bring about, and what holds in each of them.
use loan_credit.Prelude.{◌≡◌, refl, sym, subst, []}
use loan_credit.Domain.Error.{Error, err}
use loan_credit.Store.Rows.{Db}
use loan_credit.Store.Session.{Env, World}
use loan_credit.Store.Session.Atomic.{IsAtomic, IsAtomic-then, Returns-pure}
use loan_credit.Store.Session.Keeps.{Keeps, Good, keeps_rules}
use loan_credit.Commands.Common.{Runner}
use loan_credit.Commands.Atomicity.{
  upload_document-IsAtomic, create_application-IsAtomic, submit_application-IsAtomic,
  resubmit_application-IsAtomic, advance_intake_validation-IsAtomic,
  advance_document_processing-IsAtomic, handle_enter_human_review-IsAtomic,
  apply_review_decision-IsAtomic,
}
use loan_credit.Commands.Kept.{
  reserve-Good, load-Good, upload_document-Good, create_application-Good, submit_application-Good,
  resubmit_application-Good, advance_intake_validation-Good, advance_document_processing-Good,
  handle_enter_human_review-Good,
}
use loan_credit.Commands.Evidence.Atomicity.{
  process_document-IsAtomic, verify_application_facts-IsAtomic,
}
use loan_credit.Commands.Evidence.Kept.{process_document-Good, verify_application_facts-Good}
use loan_credit.Commands.Decisions.{AreRecorded, AllRecorded, AreRecorded-Primitives}
use loan_credit.Commands.Decisions.Applied.{apply_review_decision-Good}
use loan_credit.Store.UnitOfWork.{latest_hash}
use loan_credit.Store.UnitOfWork.Chain.{AreChained}
use loan_credit.Commands.AuditTrail.{AreChained-IsClosed}
use loan_credit.Commands.Closed.{handle-Closed}
use loan_credit.Commands.Handlers.{
  Request, create, submit, resubmit, advance_intake, advance_documents, enter_review,
  apply_decision, upload, process, verify, handle,
}

ruleset handlers_atomic = (
  upload_document-IsAtomic, create_application-IsAtomic, submit_application-IsAtomic,
  resubmit_application-IsAtomic, advance_intake_validation-IsAtomic,
  advance_document_processing-IsAtomic, handle_enter_human_review-IsAtomic,
  apply_review_decision-IsAtomic, process_document-IsAtomic, verify_application_facts-IsAtomic,
  IsAtomic-then, Returns-pure,
)

handle-Atomic : (env : Env) (runner : Runner) (r : Request) → IsAtomic (handle env runner r)
unfolding handle
handle-Atomic env runner (create c) = search handlers_atomic
handle-Atomic env runner (submit c) = search handlers_atomic
handle-Atomic env runner (resubmit c) = search handlers_atomic
handle-Atomic env runner (advance_intake c) = search handlers_atomic
handle-Atomic env runner (advance_documents c) = search handlers_atomic
handle-Atomic env runner (enter_review c) = search handlers_atomic
handle-Atomic env runner (apply_decision c) = search handlers_atomic
handle-Atomic env runner (upload c) = search handlers_atomic
handle-Atomic env runner (process c) = search handlers_atomic
handle-Atomic env runner (verify c) = search handlers_atomic

-- Whichever handler is called, in whatever state: if it raises, the committed database is exactly
-- what it was before the call.
pub handle_atomic :
    (env : Env) (runner : Runner) (r : Request) (w : World) (e : Error)
    → (handle env runner r w).0 ≡ err e
    → (handle env runner r w).1.durable ≡ w.durable
handle_atomic env runner r = (handle-Atomic env runner r).at

ruleset handlers_record = (
  upload_document-Good, keeps_rules, create_application-Good, submit_application-Good,
  resubmit_application-Good, advance_intake_validation-Good, advance_document_processing-Good,
  handle_enter_human_review-Good, apply_review_decision-Good, AreRecorded-Primitives,
)

handle-AreRecorded :
    (env : Env) (runner : Runner) (r : Request) → Keeps (Good AreRecorded) (handle env runner r)
unfolding handle
handle-AreRecorded env runner (create c) = search handlers_record
handle-AreRecorded env runner (submit c) = search handlers_record
handle-AreRecorded env runner (resubmit c) = search handlers_record
handle-AreRecorded env runner (advance_intake c) = search handlers_record
handle-AreRecorded env runner (advance_documents c) = search handlers_record
handle-AreRecorded env runner (enter_review c) = search handlers_record
handle-AreRecorded env runner (apply_decision c) = search handlers_record
handle-AreRecorded env runner (upload c) = search handlers_record
handle-AreRecorded env runner (process c) =
    let p = AreRecorded-Primitives env in
    search (keeps_rules, process_document-Good, p.allowing, reserve-Good, p)
handle-AreRecorded env runner (verify c) =
    let p = AreRecorded-Primitives env in
    search (keeps_rules, verify_application_facts-Good, p.allowing, reserve-Good, load-Good, p)

-- A state at the end of a sequence of requests, the failed ones included, that starts with a
-- database without applications and audit records.
pub data Reach (env : Env) (runner : Runner) : World → Type 0 where
  start :
      (w : World)
      → w.view ≡ w.durable
      → w.durable.applications ≡ []
      → w.durable.audit_events ≡ []
      → w.durable.audit_hashes ≡ []
      → Reach env runner w
  serve :
      {w : World} (r : Request) → Reach env runner w → Reach env runner (handle env runner r w).1

pub Reach-Good :
    {I : Db → Type 0} {env : Env} {runner : Runner} {w : World}
    → ((db : Db) → db.applications ≡ [] → db.audit_events ≡ [] → db.audit_hashes ≡ [] → I db)
    → ((r : Request) → Keeps (Good I) (handle env runner r))
    → Reach env runner w
    → Good I w
Reach-Good {I = I} init kept (start w fresh no_rows no_events no_hashes) =
    let good = init w.durable no_rows no_events no_hashes in
    record { committed = good; current = subst I (sym fresh) good }
Reach-Good init kept (serve r p) = (kept r).at _ (Reach-Good init kept p)

-- From a database without applications and audit records, in every state that a sequence of
-- requests reaches, the failed ones included, each approved or declined application in the
-- committed database has an entry in the review queue, of its tenant, that is decided and whose
-- decision is the application's status.
pub reachable-AreRecorded :
    {env : Env} {runner : Runner} {w : World} → Reach env runner w → AreRecorded w.durable
reachable-AreRecorded p =
    (Reach-Good (λ db none' _ _. subst (AllRecorded db.review_queue_entries) (sym none') tt)
      (handle-AreRecorded _ _) p).committed

no_records-AreChained :
    (env : Env) (db : Db) → db.audit_events ≡ [] → db.audit_hashes ≡ [] → AreChained env db
unfolding latest_hash
no_records-AreChained env db no_events no_hashes tenant = rw no_events (rw no_hashes refl)

-- From a database without applications and audit records, in every state that a sequence of
-- requests reaches, the failed ones included, the committed audit records of each tenant are a
-- hash chain: the first names the genesis hash, each other one names the hash of the record before
-- it, each carries the hash of its own contents, and the tenant's checkpoint holds the last hash.
pub reachable-AreChained :
    {env : Env} {runner : Runner} {w : World} → Reach env runner w → AreChained env w.durable
reachable-AreChained p =
    (Reach-Good (λ db _ no_events no_hashes. no_records-AreChained _ db no_events no_hashes)
      (handle-Closed (AreChained-IsClosed _) _) p).committed
