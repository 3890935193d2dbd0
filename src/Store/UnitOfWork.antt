-- ===== src/Store/UnitOfWork.antt =====
-- finassist/infrastructure/postgres/unit_of_work.py: the outbox and the audit trail, written with
-- the aggregate in one transaction, and the reservation of idempotency keys. The commit, the
-- rollback and the scope of the transaction are in Store/Session.
pub mod Chain
use loan_credit.Prelude.{
  ℕ, Bool, true, false, ◌&&◌, Option, none, some, List, [], ◌∷◌, ◌++◌, map, String, any, find,
  str_eq, if◌then◌else◌,
}
use loan_credit.Domain.Error.{Error, Result, ok, err}
use loan_credit.Domain.Event.{DomainEvent}
use loan_credit.Store.Rows.{Db, OutboxEventRow, AuditEventRow, AuditHashRow}
use loan_credit.Store.Session.{
  Env, World, Action, read, caught, ◌>>=◌, ◌>>◌, pure, now, new_id, insert_row,
}
use loan_credit.Store.Audit.{
  genesis_hash, compute_audit_hash, event_type, event_payload, aggregate_type_application,
}

abbrev pub schema_version : ℕ
schema_version = 1

unfoldable pub outbox_row : DomainEvent → (event_id : String) → (created_at : ℕ) → OutboxEventRow
unfolding event_type event_payload
outbox_row e event_id created_at = record {
  event_id = event_id;
  tenant_id = e.tenant_id;
  event_type = event_type e.body;
  schema_version = schema_version;
  occurred_at = e.occurred_at;
  aggregate_type = aggregate_type_application;
  aggregate_id = e.application_id;
  correlation_id = none;
  causation_id = none;
  payload = event_payload e.body;
  published_at = none;
  created_at = created_at;
}

unfoldable pub audit_row :
    Env
    → DomainEvent
    → (event_id : String) → (created_at : ℕ) → (prev_hash : String) → AuditEventRow
unfolding event_type event_payload compute_audit_hash
audit_row env e event_id created_at prev_hash = record {
  event_id = event_id;
  tenant_id = e.tenant_id;
  occurred_at = e.occurred_at;
  event_type = event_type e.body;
  aggregate_type = aggregate_type_application;
  aggregate_id = e.application_id;
  payload = event_payload e.body;
  correlation_id = none;
  prev_hash = prev_hash;
  hash = compute_audit_hash env (record {
    prev_hash = prev_hash;
    event_id = event_id;
    event_type = event_type e.body;
    aggregate_id = e.application_id;
    occurred_at = e.occurred_at;
    payload = event_payload e.body;
  });
  created_at = created_at;
}

-- The hash at the checkpoint of a tenant, or the genesis hash.
unfoldable pub latest_hash : String → Db → String
latest_hash tenant db =
    elim (find (λ (c : AuditHashRow). str_eq c.tenant_id tenant) db.audit_hashes) [
      | none ↦ genesis_hash
      | some c ↦ c.latest_hash
    ]

abbrev pub checkpoint_row : AuditEventRow → AuditHashRow
checkpoint_row row = record {
  tenant_id = row.tenant_id;
  latest_event_id = some row.event_id;
  latest_hash = row.hash;
  updated_at = row.created_at;
}

-- The checkpoint of the row's tenant is moved to the row, or made.
unfoldable pub move_checkpoint : AuditEventRow → List AuditHashRow → List AuditHashRow
move_checkpoint row [] = checkpoint_row row ∷ []
move_checkpoint row (c ∷ cs) =
    if str_eq c.tenant_id row.tenant_id then checkpoint_row row ∷ cs else c ∷ move_checkpoint row cs

unfoldable pub insert_outbox : OutboxEventRow → Action (Unit {0})
unfolding insert_row
insert_outbox row =
    insert_row "outbox_events" row.tenant_id
      (λ db. any (λ r. str_eq r.event_id row.event_id) db.outbox_events)
      (λ db. record db { outbox_events = db.outbox_events ++ row ∷ [] })

-- The audit row and the moved checkpoint.
unfoldable pub insert_audit : AuditEventRow → Action (Unit {0})
unfolding insert_row move_checkpoint
insert_audit row =
    insert_row "audit_events" row.tenant_id
      (λ db. any (λ r. str_eq r.event_id row.event_id) db.audit_events)
      (λ db. record db {
        audit_events = db.audit_events ++ row ∷ [];
        audit_hashes = move_checkpoint row db.audit_hashes;
      })

-- One round of the loop in `record_domain_events`.
unfoldable pub record_event : Env → DomainEvent → Action (Unit {0})
record_event env e = do
  event_id ← new_id env
  created_at ← now env
  insert_outbox (outbox_row e event_id created_at)
  prev_hash ← read (λ w. ok (latest_hash e.tenant_id w.view))
  insert_audit (audit_row env e event_id created_at prev_hash)

unfoldable pub record_domain_events : Env → List DomainEvent → Action (Unit {0})
record_domain_events env [] = pure tt
record_domain_events env (e ∷ es) = record_event env e >> record_domain_events env es

abbrev pub is_reserved : (tenant key operation : String) → Db → Bool
is_reserved tenant key operation db =
    any
      (λ r.
        str_eq r.tenant_id tenant
        && (str_eq r.operation_name operation && str_eq r.idempotency_key key))
      db.idempotency_keys

-- `except IntegrityError: return False`
abbrev pub reserved_or_not : Result (Unit {0}) → Result Bool
reserved_or_not (ok _) = ok true
reserved_or_not (err (Error.integrity_error table)) = ok false
reserved_or_not (err e) = err e

-- `reserve_idempotency_key`
unfoldable pub reserve_idempotency_key : Env → (key operation : String) → Action Bool
reserve_idempotency_key env key operation = caught reserved_or_not (do
  tenant ← read (λ w. ok w.tenant)
  reserved_at ← now env
  insert_row "idempotency_keys" tenant (is_reserved tenant key operation) (λ db. record db {
    idempotency_keys =
        db.idempotency_keys
        ++ record {
          tenant_id = tenant;
          operation_name = operation;
          idempotency_key = key;
          reserved_at = reserved_at;
        }
          ∷ [];
  }))
