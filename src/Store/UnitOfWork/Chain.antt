-- ===== src/Store/UnitOfWork/Chain.antt =====
-- The hash chain of a tenant's audit records, and the checkpoint that closes it.
use loan_credit.Prelude.{
  ℕ, ◌≡◌, refl, sym, subst, ◌∙◌, true, false, none, some, List, [], ◌∷◌, ◌++◌, String, arith, any,
  ap, find, filter, str_eq, str_eq→eq, eq_iff, Bool-cases, inl, inr, if◌then◌else◌,
}
use loan_credit.Domain.Event.{DomainEvent}
use loan_credit.Store.Rows.{Db, AuditEventRow, AuditHashRow, OutboxEventRow}
use loan_credit.Store.Session.{Env, World, AuditMaterial, read, ◌>>=◌}
use loan_credit.Domain.Error.{ok}
use loan_credit.Store.Session.Keeps.{
  Keeps, Good, keeps_rules, Keeps-bind, Good-insert_row, insert_row-at,
}
use loan_credit.Store.Audit.{genesis_hash, compute_audit_hash}
use loan_credit.Store.UnitOfWork.{
  audit_row, latest_hash, checkpoint_row, move_checkpoint, insert_outbox, insert_audit,
  record_event, record_domain_events,
}

-- What was put under the hash of a stored record.
abbrev pub material : AuditEventRow → AuditMaterial
material row = record {
  prev_hash = row.prev_hash;
  event_id = row.event_id;
  event_type = row.event_type;
  aggregate_id = row.aggregate_id;
  occurred_at = row.occurred_at;
  payload = row.payload;
}

-- Each record names the hash before it and carries the hash of its contents.
abbrev pub IsChain : Env → (first : String) → List AuditEventRow → (last : String) → Type 0
IsChain env first [] last = first ≡ last
IsChain env first (row ∷ rows) last =
    (row.prev_hash ≡ first)
    × (row.hash ≡ compute_audit_hash env (material row))
    × IsChain env row.hash rows last

abbrev pub audit_of : String → List AuditEventRow → List AuditEventRow
audit_of tenant = filter (λ r. str_eq r.tenant_id tenant)

-- The records of every tenant are a chain from the genesis hash to its checkpoint.
abbrev pub AreChained : Env → Db → Type 0
AreChained env db =
    (tenant : String)
    → IsChain env genesis_hash (audit_of tenant db.audit_events) (latest_hash tenant db)

IsChain-snoc :
    (env : Env) (first last : String) (rows : List AuditEventRow) (row : AuditEventRow)
    → IsChain env first rows last
    → row.prev_hash ≡ last
    → row.hash ≡ compute_audit_hash env (material row)
    → IsChain env first (rows ++ row ∷ []) row.hash
IsChain-snoc env first last [] row c p h = (p ∙ sym c, h, refl)
IsChain-snoc env first last (x ∷ rows) row c p h =
    (c.0, c.1, IsChain-snoc env x.hash last rows row c.2 p h)

audit_of-snoc :
    (tenant : String) (rows : List AuditEventRow) (row : AuditEventRow)
    → audit_of tenant (rows ++ row ∷ []) ≡ (
        if str_eq row.tenant_id tenant
        then audit_of tenant rows ++ row ∷ []
        else audit_of tenant rows)
audit_of-snoc tenant [] row = refl
audit_of-snoc tenant (x ∷ rows) row = elim (Bool-cases (str_eq x.tenant_id tenant)) [
  | inl own ↦ rw own (rw (audit_of-snoc tenant rows row) (ground arith))
  | inr other ↦ rw other (audit_of-snoc tenant rows row)
]

-- `latest_hash` over the checkpoints alone.
abbrev checkpoint_hash : String → List AuditHashRow → String
checkpoint_hash tenant cs = elim (find (λ (c : AuditHashRow). str_eq c.tenant_id tenant) cs) [
  | none ↦ genesis_hash
  | some c ↦ c.latest_hash
]

absurd_tenants :
    (s t tenant : String) → str_eq s t ≡ false → str_eq s tenant ≡ true → str_eq t tenant ≡ true → ⊥
absurd_tenants s t tenant differ s_is t_is =
    let e = (eq_iff s t).1 (str_eq→eq s tenant s_is ∙ sym (str_eq→eq t tenant t_is)) in cc

checkpoint_cons :
    (tenant : String) (c : AuditHashRow) (cs : List AuditHashRow)
    → checkpoint_hash tenant (c ∷ cs)
      ≡ (if str_eq c.tenant_id tenant then c.latest_hash else checkpoint_hash tenant cs)
checkpoint_cons tenant c cs = elim (Bool-cases (str_eq c.tenant_id tenant)) [
  | inl mine ↦ rw (mine, checkpoint_hash) refl
  | inr foreign ↦ rw (foreign, checkpoint_hash) refl
]

checkpoint_other :
    (tenant : String) (c : AuditHashRow) (cs : List AuditHashRow)
    → str_eq c.tenant_id tenant ≡ false
    → checkpoint_hash tenant (c ∷ cs) ≡ checkpoint_hash tenant cs
checkpoint_other tenant c cs foreign = checkpoint_cons tenant c cs ∙ rw foreign refl

checkpoint_moved :
    (tenant : String) (row : AuditEventRow) (cs : List AuditHashRow)
    → checkpoint_hash tenant (move_checkpoint row cs)
      ≡ (if str_eq row.tenant_id tenant then row.hash else checkpoint_hash tenant cs)
unfolding move_checkpoint
checkpoint_moved tenant row [] = ground arith
checkpoint_moved tenant row (c ∷ cs) = elim (Bool-cases (str_eq c.tenant_id row.tenant_id)) [
  | inl same ↦ rw same (
      checkpoint_cons tenant (checkpoint_row row) cs
      ∙ (elim (Bool-cases (str_eq row.tenant_id tenant)) [
        | inl mine ↦ rw mine refl
        | inr foreign ↦ rw foreign (
            sym (
              checkpoint_other tenant c cs (
                subst (λ t. str_eq t tenant ≡ false)
                  (sym (str_eq→eq c.tenant_id row.tenant_id same)) foreign)))
      ]))
  | inr other ↦ elim (Bool-cases (str_eq c.tenant_id tenant)) [
    | inl mine ↦ rw other (
        rw (mine, checkpoint_hash)
          (elim (Bool-cases (str_eq row.tenant_id tenant)) [
            | inl row_mine ↦
                absurd (absurd_tenants c.tenant_id row.tenant_id tenant other mine row_mine)
            | inr foreign ↦ rw foreign refl
          ]))
    | inr not_mine ↦ rw other (rw (not_mine, checkpoint_hash) (checkpoint_moved tenant row cs))
  ]
]

abbrev with_audit : AuditEventRow → Db → Db
with_audit row db = record db {
  audit_events = db.audit_events ++ row ∷ [];
  audit_hashes = move_checkpoint row db.audit_hashes;
}

-- A record that names its tenant's checkpoint extends the chains.
with_audit-AreChained :
    (env : Env) (db : Db) (row : AuditEventRow)
    → row.prev_hash ≡ latest_hash row.tenant_id db
    → row.hash ≡ compute_audit_hash env (material row)
    → AreChained env db
    → AreChained env (with_audit row db)
unfolding latest_hash
with_audit-AreChained env db row prev hashed h tenant =
    elim (Bool-cases (str_eq row.tenant_id tenant)) [
      | inl own ↦ rw (audit_of-snoc tenant db.audit_events row) (
          rw (checkpoint_moved tenant row db.audit_hashes) (
            rw own (
              IsChain-snoc env _ _ (audit_of tenant db.audit_events) row (h tenant)
                (prev ∙ ap (λ t. latest_hash t db) (str_eq→eq row.tenant_id tenant own)) hashed)))
      | inr other ↦
          rw (audit_of-snoc tenant db.audit_events row)
            (rw (checkpoint_moved tenant row db.audit_hashes) (rw other (h tenant)))
    ]

insert_outbox-AreChained :
    (env : Env) (row : OutboxEventRow) → Keeps (Good (AreChained env)) (insert_outbox row)
unfolding insert_outbox latest_hash
insert_outbox-AreChained env row = Good-insert_row _ _ _ _ (λ db free h. h)

insert_audit-AreChained :
    (env : Env) (row : AuditEventRow) (w : World)
    → row.prev_hash ≡ latest_hash row.tenant_id w.view
    → row.hash ≡ compute_audit_hash env (material row)
    → Good (AreChained env) w
    → Good (AreChained env) (insert_audit row w).1
unfolding insert_audit
insert_audit-AreChained env row w prev hashed =
    insert_row-at "audit_events" row.tenant_id
      (λ db. any (λ r. str_eq r.event_id row.event_id) db.audit_events) (with_audit row) w
      (λ free h. with_audit-AreChained env w.view row prev hashed h)

append_audit :
    (env : Env) (e : DomainEvent) (event_id : String) (created_at : ℕ)
    → Keeps (Good (AreChained env)) (
        read (λ w. ok (latest_hash e.tenant_id w.view)) >>= λ prev_hash.
        insert_audit (audit_row env e event_id created_at prev_hash))
unfolding read ◌>>=◌ audit_row
append_audit env e event_id created_at = record {
  at = λ w h.
      insert_audit-AreChained env
        (audit_row env e event_id created_at (latest_hash e.tenant_id w.view)) w refl refl h;
}

record_event-AreChained :
    (env : Env) (e : DomainEvent) → Keeps (Good (AreChained env)) (record_event env e)
unfolding record_event
record_event-AreChained env e = Keeps-bind _ _ (search keeps_rules) λ event_id.
    Keeps-bind _ _ (search keeps_rules) λ created_at.
      Keeps-bind _ _ (insert_outbox-AreChained _ _) λ _. append_audit env e event_id created_at

pub record_domain_events-AreChained :
    (env : Env) (es : List DomainEvent)
    → Keeps (Good (AreChained env)) (record_domain_events env es)
unfolding record_domain_events
record_domain_events-AreChained env [] = search keeps_rules
record_domain_events-AreChained env (e ∷ es) =
    Keeps-bind _ _ (record_event-AreChained env e) (λ _. record_domain_events-AreChained env es)
