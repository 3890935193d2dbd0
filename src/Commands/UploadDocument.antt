-- ===== src/Commands/UploadDocument.antt =====
-- finassist/application/commands/upload_document.py. The object store answers with the metadata of
-- the stored object or raises; what it stores is not part of the database, and stays when the
-- transaction is rolled back.
use Prim.Native.String.{◌++◌}
use loan_credit.Prelude.{ℕ, List, [], ◌∷◌, String}
use loan_credit.Domain.Event.{document_uploaded}
use loan_credit.Domain.Files.{scan}
use loan_credit.Store.Session.{
  Env, Action, ◌>>=◌, ◌>>◌, pure, lift, now, new_id, commit, transaction,
}
use loan_credit.Store.Documents.{add_document}
use loan_credit.Store.UnitOfWork.{record_domain_events}
use loan_credit.Commands.Common.{reserve, load}

abbrev pub operation_name : String
operation_name = "upload_document"

pub record UploadDocumentCommand : Type 0 where
  pub tenant_id : String
  pub application_id : String
  pub idempotency_key : String
  pub document_type : String
  pub filename : String
  pub content_type : String
  pub bytes : List ℕ

pub record UploadDocumentResult : Type 0 where
  pub document_id : String
  pub application_id : String
  pub object_key : String
  pub checksum_sha256 : String

unfoldable pub object_key_of : (application_id document_id filename : String) → String
object_key_of application_id document_id filename =
    "applications/" ++ application_id ++ "/" ++ document_id ++ "/" ++ filename

unfoldable pub upload_in_transaction : Env → UploadDocumentCommand → Action UploadDocumentResult
upload_in_transaction env c = do
  reserve env c.idempotency_key operation_name
  a ← load c.tenant_id c.application_id
  safety_report ← lift (scan env.scanner c.bytes c.filename c.content_type)
  document_id ← new_id env
  let object_key = object_key_of c.application_id document_id c.filename
  metadata ←
      lift (env.put_object c.tenant_id object_key c.bytes safety_report.detected_content_type)
  uploaded_at ← now env
  add_document (record {
    document_id = document_id;
    tenant_id = c.tenant_id;
    application_id = c.application_id;
    document_type = c.document_type;
    object_key = object_key;
    checksum_sha256 = metadata.checksum_sha256;
    size_bytes = metadata.size_bytes;
    uploaded_at = uploaded_at;
  })
  record_domain_events env (
      record {
        application_id = c.application_id;
        tenant_id = c.tenant_id;
        occurred_at = uploaded_at;
        body = document_uploaded document_id c.document_type object_key;
      }
      ∷ [])
  commit
  pure (record {
    document_id = document_id;
    application_id = c.application_id;
    object_key = object_key;
    checksum_sha256 = metadata.checksum_sha256;
  })

-- `UploadDocumentHandler.handle`
unfoldable pub upload_document : Env → UploadDocumentCommand → Action UploadDocumentResult
upload_document env c = transaction c.tenant_id (upload_in_transaction env c)
