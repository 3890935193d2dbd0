-- ===== src/Store/Rows.antt =====
-- finassist/infrastructure/postgres/orm_models.py: one record per mapped table, and the database
-- as the lists of their rows in the order of insertion. Instants are numbers.
mod Messages
mod Evidence
pub use Messages.*
pub use Evidence.{
  ExtractionRunRow, ExtractedFactRow, VerificationRunRow, VerificationCheckRow, ContradictionRow,
  ExternalResponseSnapshotRow, Answer,
}
use loan_credit.Prelude.{ℕ, Bool, Option, List, [], String}
use loan_credit.Prelude.Int.{ℤ}

pub record ApplicantRow : Type 0 where
  pub applicant_id : String
  pub tenant_id : String
  pub given_name : String
  pub family_name : String
  pub date_of_birth : ℕ
  pub email : String
  pub created_at : ℕ

-- `requested_amount` is NUMERIC(18, 2): whole cents.
pub record ApplicationRow : Type 0 where
  pub application_id : String
  pub tenant_id : String
  pub applicant_id : String
  pub product_id : String
  pub requested_amount : ℤ
  pub currency : String
  pub requested_term_months : ℤ
  pub status : String
  pub version : ℕ
  pub created_at : ℕ
  pub updated_at : ℕ
  pub active_workflow_id : Option String

pub record ApplicationVersionRow : Type 0 where
  pub id : String
  pub application_id : String
  pub tenant_id : String
  pub version : ℕ
  pub status : String
  pub requested_amount : ℤ
  pub currency : String
  pub requested_term_months : ℤ
  pub applicant_id : String
  pub product_id : String
  pub recorded_at : ℕ

pub record ProductRow : Type 0 where
  pub product_id : String
  pub tenant_id : String
  pub code : String
  pub name : String
  pub currency : String
  pub min_amount : ℤ
  pub max_amount : ℤ
  pub min_term_months : ℤ
  pub max_term_months : ℤ
  pub is_active : Bool
  pub created_at : ℕ

-- The values of a JSON object that the events store.
pub data Json : Type 0 where
  text : String → Json
  number : ℕ → Json

abbrev pub Payload : Type 0
Payload = List (String × Json)

pub record OutboxEventRow : Type 0 where
  pub event_id : String
  pub tenant_id : String
  pub event_type : String
  pub schema_version : ℕ
  pub occurred_at : ℕ
  pub aggregate_type : String
  pub aggregate_id : String
  pub correlation_id : Option String
  pub causation_id : Option String
  pub payload : Payload
  pub published_at : Option ℕ
  pub created_at : ℕ

pub record IdempotencyKeyRow : Type 0 where
  pub tenant_id : String
  pub operation_name : String
  pub idempotency_key : String
  pub reserved_at : ℕ

pub record AuditEventRow : Type 0 where
  pub event_id : String
  pub tenant_id : String
  pub occurred_at : ℕ
  pub event_type : String
  pub aggregate_type : String
  pub aggregate_id : String
  pub payload : Payload
  pub correlation_id : Option String
  pub prev_hash : String
  pub hash : String
  pub created_at : ℕ

pub record AuditHashRow : Type 0 where
  pub tenant_id : String
  pub latest_event_id : Option String
  pub latest_hash : String
  pub updated_at : ℕ

pub record DocumentRow : Type 0 where
  pub document_id : String
  pub tenant_id : String
  pub application_id : String
  pub document_type : String
  pub object_key : String
  pub checksum_sha256 : String
  pub size_bytes : ℕ
  pub uploaded_at : ℕ

pub record ReviewQueueEntryRow : Type 0 where
  pub application_id : String
  pub tenant_id : String
  pub entered_queue_at : ℕ
  pub status : String
  pub decision : Option String
  pub reason : Option String
  pub reviewer_id : Option String
  pub decided_at : Option ℕ

pub record Db : Type 0 where
  pub applicants : List ApplicantRow
  pub applications : List ApplicationRow
  pub application_versions : List ApplicationVersionRow
  pub products : List ProductRow
  pub outbox_events : List OutboxEventRow
  pub idempotency_keys : List IdempotencyKeyRow
  pub audit_events : List AuditEventRow
  pub audit_hashes : List AuditHashRow
  pub documents : List DocumentRow
  pub review_queue_entries : List ReviewQueueEntryRow
  pub extraction_runs : List ExtractionRunRow
  pub extracted_facts : List ExtractedFactRow
  pub verification_runs : List VerificationRunRow
  pub verification_checks : List VerificationCheckRow
  pub contradictions : List ContradictionRow
  pub response_snapshots : List ExternalResponseSnapshotRow
  pub inbox_messages : List InboxMessageRow
  pub status_projection : List StatusProjectionRow
  -- The ids of `identity.tenants`.
  pub tenants : List String

abbrev pub empty_db : Db
empty_db = record {
  applicants = [];
  applications = [];
  application_versions = [];
  products = [];
  outbox_events = [];
  idempotency_keys = [];
  audit_events = [];
  audit_hashes = [];
  documents = [];
  review_queue_entries = [];
  extraction_runs = [];
  extracted_facts = [];
  verification_runs = [];
  verification_checks = [];
  contradictions = [];
  response_snapshots = [];
  inbox_messages = [];
  status_projection = [];
  tenants = [];
}
