-- ===== src/Store/Rows/Evidence.antt =====
-- finassist/infrastructure/postgres/orm_models.py: the tables of document extraction and of fact
-- verification. A `float` column holds a finite double, as a whole number of 2^-1074.
use loan_credit.Prelude.{ℕ, Bool, Option, List, String}
use loan_credit.Prelude.Int.{ℤ}

pub record ExtractionRunRow : Type 0 where
  pub run_id : String
  pub tenant_id : String
  pub application_id : String
  pub document_id : String
  pub classification : String
  pub fact_count : ℕ
  pub completed_at : ℕ

pub record ExtractedFactRow : Type 0 where
  pub fact_id : String
  pub run_id : String
  pub tenant_id : String
  pub application_id : String
  pub document_id : String
  pub fact_type : String
  pub value : String
  pub normalized_value : String
  pub confidence : ℤ
  pub page : ℤ
  pub extraction_method : String
  pub extractor_version : String
  pub source_checksum : String
  pub status : String
  pub created_at : ℕ

pub record VerificationRunRow : Type 0 where
  pub run_id : String
  pub tenant_id : String
  pub application_id : String
  pub check_count : ℕ
  pub contradiction_count : ℕ
  pub completed_at : ℕ

pub record VerificationCheckRow : Type 0 where
  pub check_id : String
  pub run_id : String
  pub tenant_id : String
  pub application_id : String
  pub source_system : String
  pub checked_fact_type : String
  pub declared_value : Option String
  pub external_value : Option String
  pub verdict : String
  pub confidence : ℤ
  pub detail : String
  pub created_at : ℕ

pub record ContradictionRow : Type 0 where
  pub contradiction_id : String
  pub check_id : String
  pub tenant_id : String
  pub application_id : String
  pub source_system : String
  pub checked_fact_type : String
  pub detail : String
  pub created_at : ℕ

-- The values of an external system's answer: texts, whole numbers, doubles and truth values.
pub data Answer : Type 0 where
  text : String → Answer
  whole : ℤ → Answer
  double : ℤ → Answer
  truth : Bool → Answer

pub record ExternalResponseSnapshotRow : Type 0 where
  pub snapshot_id : String
  pub run_id : String
  pub tenant_id : String
  pub application_id : String
  pub source_system : String
  pub response_payload : List (String × Answer)
  pub captured_at : ℕ
