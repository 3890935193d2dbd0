-- ===== src/Store/Extraction.antt =====
-- finassist/infrastructure/postgres/extraction_repository.py, and the port's `StoredFact`.
pub mod Roundtrip
pub mod Extracted
use loan_credit.Prelude.{
  ℕ, ◌+◌, zero, suc, Bool, not, ◌&&◌, Option, none, some, List, [], ◌∷◌, ◌++◌, String, any, filter,
  length, str_eq, ◌==◌, if◌then◌else◌,
}
use loan_credit.Domain.Error.{Error, Result, ok, err, value_error}
use loan_credit.Domain.Error
use loan_credit.Domain.Facts.{
  DocumentClassification, classification_name, ExtractedFact, fact_name, fact_type_of, fact_checked,
}
use loan_credit.Store.Rows.{Db, ExtractionRunRow, ExtractedFactRow}
use loan_credit.Store.Session.{
  Env, World, Action, read, pure, ◌>>=◌, ◌>>◌, raise_if, insert_row, visible,
}

pub record StoredFact : Type 0 where
  pub fact_id : String
  pub document_id : String
  pub run_id : String
  pub fact : ExtractedFact

-- The arguments of `add_run`.
pub record ExtractionRun : Type 0 where
  pub run_id : String
  pub tenant_id : String
  pub application_id : String
  pub document_id : String
  pub classification : DocumentClassification
  pub facts : List ExtractedFact
  pub fact_ids : List String
  pub completed_at : ℕ

unfoldable pub insert_extraction_run : ExtractionRunRow → Action (Unit {0})
insert_extraction_run row =
    insert_row "extraction_runs" row.tenant_id
      (λ db. any (λ r. str_eq r.run_id row.run_id) db.extraction_runs)
      (λ db. record db { extraction_runs = db.extraction_runs ++ row ∷ [] })

unfoldable pub insert_fact : ExtractedFactRow → Action (Unit {0})
insert_fact row =
    insert_row "extracted_facts" row.tenant_id
      (λ db. any (λ r. str_eq r.fact_id row.fact_id) db.extracted_facts)
      (λ db. record db { extracted_facts = db.extracted_facts ++ row ∷ [] })

unfoldable pub fact_row : ExtractionRun → (fact_id : String) → ExtractedFact → ExtractedFactRow
fact_row run fact_id f = record {
  fact_id = fact_id;
  run_id = run.run_id;
  tenant_id = run.tenant_id;
  application_id = run.application_id;
  document_id = run.document_id;
  fact_type = fact_name f.fact_type;
  value = f.value;
  normalized_value = f.normalized_value;
  confidence = f.confidence;
  page = f.page;
  extraction_method = f.extraction_method;
  extractor_version = f.extractor_version;
  source_checksum = f.source_checksum;
  status = "extracted";
  created_at = run.completed_at;
}

-- The loop over `zip(fact_ids, facts)`.
unfoldable pub insert_facts : ExtractionRun → List String → List ExtractedFact → Action (Unit {0})
insert_facts run (id ∷ ids) (f ∷ fs) = insert_fact (fact_row run id f) >> insert_facts run ids fs
insert_facts run [] fs = pure tt
insert_facts run (id ∷ ids) [] = pure tt

-- `SqlAlchemyExtractionRepository.add_run`
unfoldable pub add_extraction_run : ExtractionRun → Action (Unit {0})
add_extraction_run run = do
  raise_if (not (length run.facts == length run.fact_ids))
      (value_error "facts and fact_ids must be the same length")
  insert_extraction_run (record {
    run_id = run.run_id;
    tenant_id = run.tenant_id;
    application_id = run.application_id;
    document_id = run.document_id;
    classification = classification_name run.classification;
    fact_count = length run.facts;
    completed_at = run.completed_at;
  })
  insert_facts run run.fact_ids run.facts

-- `_row_to_stored_fact`
unfoldable pub row_to_stored_fact : ExtractedFactRow → Result StoredFact
row_to_stored_fact row = Error.◌>>=◌ (fact_type_of row.fact_type) λ kind.
    Error.◌>>=◌
      (fact_checked (record {
        fact_type = kind;
        value = row.value;
        normalized_value = row.normalized_value;
        confidence = row.confidence;
        page = row.page;
        extraction_method = row.extraction_method;
        extractor_version = row.extractor_version;
        source_checksum = row.source_checksum;
      }))
      λ f. ok (record {
        fact_id = row.fact_id;
        document_id = row.document_id;
        run_id = row.run_id;
        fact = f;
      })

unfoldable pub stored_facts : List ExtractedFactRow → Result (List StoredFact)
stored_facts [] = ok []
stored_facts (row ∷ rows) =
    Error.◌>>=◌ (row_to_stored_fact row) λ f. Error.◌>>=◌ (stored_facts rows) λ fs. ok (f ∷ fs)

unfoldable pub fact_rows_of : (tenant application_id : String) → World → List ExtractedFactRow
fact_rows_of tenant application_id w =
    filter
      (λ r.
        visible w r.tenant_id
        && (str_eq r.tenant_id tenant && str_eq r.application_id application_id))
      w.view.extracted_facts

-- `SqlAlchemyExtractionRepository.get_facts_for_application`
unfoldable pub get_facts_for_application :
    (tenant application_id : String) → Action (List StoredFact)
get_facts_for_application tenant application_id =
    read (λ w. stored_facts (fact_rows_of tenant application_id w))
