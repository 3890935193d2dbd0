-- ===== src/Commands/ProcessDocument.antt =====
-- finassist/application/commands/process_document.py.
use Prim.Native.String.{◌++◌ as ◌+++◌}
use loan_credit.Prelude.{
  ℕ, zero, suc, Option, none, some, List, [], ◌∷◌, String, find, length, str_eq,
}
use loan_credit.Domain.Error.{
  Error, Result, ok, err, document_not_found, unsupported_document_type, extraction_failed,
}
use loan_credit.Domain.Error
use loan_credit.Domain.Facts.{DocumentClassification, unknown, ExtractedFact}
use loan_credit.Domain.Facts.Extractor.{extract_text, classify, extract_facts}
use loan_credit.Store.Rows.{DocumentRow}
use loan_credit.Store.Session.{
  Env, Action, ◌>>=◌, ◌>>◌, pure, lift, or_raise, now, new_id, commit, transaction,
}
use loan_credit.Store.Documents.{list_for_application}
use loan_credit.Store.Extraction.{add_extraction_run}
use loan_credit.Commands.Common.{reserve}

abbrev pub operation_name : String
operation_name = "process_document"

pub record ProcessDocumentCommand : Type 0 where
  pub tenant_id : String
  pub application_id : String
  pub document_id : String
  pub idempotency_key : String

pub record ProcessDocumentResult : Type 0 where
  pub document_id : String
  pub classification : DocumentClassification
  pub fact_count : ℕ
  pub extraction_error : Option String

-- What the `try` leaves in the three variables.
pub record Extraction : Type 0 where
  pub classification : DocumentClassification
  pub facts : List ExtractedFact
  pub extraction_error : Option String

-- `except (UnsupportedDocumentTypeError, ExtractionFailedError) as exc`, with `str(exc)`.
unfoldable pub or_error_text : Env → Result Extraction → Result Extraction
or_error_text env (ok e) = ok e
or_error_text env (err (Error.unsupported_document_type kind)) = ok (record {
  classification = unknown;
  facts = [];
  extraction_error = some ("no document parser registered for content type " +++ env.repr kind);
})
or_error_text env (err (Error.extraction_failed id reason)) = ok (record {
  classification = unknown;
  facts = [];
  extraction_error = some ("extraction failed for document " +++ id +++ ": " +++ reason);
})
or_error_text env (err e) = err e

-- The body of the `try`.
unfoldable pub extraction_of :
    Env → (tenant content_type : String) → DocumentRow → Result Extraction
extraction_of env tenant content_type d = Error.◌>>=◌ (env.get_object tenant d.object_key) λ bytes.
    Error.◌>>=◌ (extract_text env.reader bytes content_type) λ pages. ok (record {
      classification = classify pages;
      facts = extract_facts env.reader pages (classify pages) d.checksum_sha256;
      extraction_error = none;
    })

-- One new id for each element.
unfoldable pub new_ids : Env → ℕ → Action (List String)
new_ids env zero = pure []
new_ids env (suc n) = do id ← new_id env; ids ← new_ids env n; pure (id ∷ ids)

unfoldable pub process_in_transaction : Env → ProcessDocumentCommand → Action ProcessDocumentResult
process_in_transaction env c = do
  reserve env c.idempotency_key operation_name
  documents ← list_for_application c.tenant_id c.application_id
  document ←
      or_raise (find (λ d. str_eq d.document_id c.document_id) documents)
        (document_not_found c.document_id)
  content_type ← lift (env.content_type_of c.tenant_id document.object_key)
  e ← lift (or_error_text env (extraction_of env c.tenant_id content_type document))
  fact_ids ← new_ids env (length e.facts)
  run_id ← new_id env
  completed_at ← now env
  add_extraction_run (record {
    run_id = run_id;
    tenant_id = c.tenant_id;
    application_id = c.application_id;
    document_id = c.document_id;
    classification = e.classification;
    facts = e.facts;
    fact_ids = fact_ids;
    completed_at = completed_at;
  })
  commit
  pure (record {
    document_id = c.document_id;
    classification = e.classification;
    fact_count = length e.facts;
    extraction_error = e.extraction_error;
  })

-- `ProcessDocumentHandler.handle`
unfoldable pub process_document : Env → ProcessDocumentCommand → Action ProcessDocumentResult
process_document env c = transaction c.tenant_id (process_in_transaction env c)
