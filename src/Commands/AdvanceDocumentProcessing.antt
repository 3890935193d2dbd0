-- ===== src/Commands/AdvanceDocumentProcessing.antt =====
-- finassist/application/commands/advance_document_processing.py.
use Prim.Native.String.{◌++◌}
use loan_credit.Prelude.{ℕ, String, leb, if◌then◌else◌}
use loan_credit.Prelude.Int.{pos}
use loan_credit.Domain.Status.{ApplicationStatus, verification}
use loan_credit.Domain.Application.{Application}
use loan_credit.Store.Session.{Env, Action, ◌>>=◌, ◌>>◌, pure, commit, transaction}
use loan_credit.Store.Repository.{save}
use loan_credit.Store.Documents.{count_for_application}
use loan_credit.Commands.Common.{reserve, load, transition, enter_human_review, record_pending}

abbrev pub operation_name : String
operation_name = "advance_document_processing"

pub record AdvanceDocumentProcessingCommand : Type 0 where
  pub tenant_id : String
  pub application_id : String
  pub idempotency_key : String

pub record AdvanceDocumentProcessingResult : Type 0 where
  pub application_id : String
  pub status : ApplicationStatus
  pub version : ℕ
  pub document_count : ℕ

-- The branch with at least one document.
unfoldable pub enter_verification : Env → Application → ℕ → Action Application
enter_verification env a document_count = do
  b ← transition env a verification (env.int_text (pos document_count) ++ " document(s) present")
  save env b
  pure b

unfoldable pub advance_documents :
    Env → AdvanceDocumentProcessingCommand → Action AdvanceDocumentProcessingResult
advance_documents env c = do
  reserve env c.idempotency_key operation_name
  a ← load c.tenant_id c.application_id
  document_count ← count_for_application c.tenant_id c.application_id
  b ←
      (if leb 1 document_count
        then enter_verification env a document_count
        else enter_human_review env a "no documents uploaded -- requires human review")
  d ← record_pending env b
  commit
  pure (record {
    application_id = d.application_id;
    status = d.status;
    version = d.version;
    document_count = document_count;
  })

-- `AdvanceDocumentProcessingHandler.handle`
unfoldable pub advance_document_processing :
    Env → AdvanceDocumentProcessingCommand → Action AdvanceDocumentProcessingResult
advance_document_processing env c = transaction c.tenant_id (advance_documents env c)
