-- ===== src/Commands/AdvanceIntakeValidation.antt =====
-- finassist/application/commands/advance_intake_validation.py.
use Prim.Native.String.{◌++◌}
use loan_credit.Prelude.{ℕ, Bool, String, if◌then◌else◌}
use loan_credit.Domain.Status.{ApplicationStatus, intake_validation, document_processing}
use loan_credit.Domain.Error.{product_not_found}
use loan_credit.Domain.Product
use loan_credit.Domain.Application.{Application}
use loan_credit.Store.Session.{Env, Action, ◌>>=◌, ◌>>◌, pure, lift, or_raise, commit, transaction}
use loan_credit.Store.Repository.{get_product, save}
use loan_credit.Commands.Common.{reserve, load, transition, enter_human_review, record_pending}

abbrev pub operation_name : String
operation_name = "advance_intake_validation"

pub record AdvanceIntakeValidationCommand : Type 0 where
  pub tenant_id : String
  pub application_id : String
  pub idempotency_key : String

pub record AdvanceIntakeValidationResult : Type 0 where
  pub application_id : String
  pub status : ApplicationStatus
  pub version : ℕ
  pub accepted : Bool

unfoldable pub flagged_reason : Env → Application → String
flagged_reason env a =
    "intake validation flagged: product "
    ++ a.product_id
    ++ " catalog bounds do not cover amount="
    ++ env.decimal_text a.requested_amount.amount
    ++ " term_months="
    ++ env.int_text a.requested_term_months
    ++ " -- requires human review"

unfoldable pub enter_document_processing : Env → Application → Action Application
enter_document_processing env a = do
  b ← transition env a document_processing "intake validation passed: within product catalog bounds"
  save env b
  pure b

unfoldable pub advance_intake :
    Env → AdvanceIntakeValidationCommand → Action AdvanceIntakeValidationResult
advance_intake env c = do
  reserve env c.idempotency_key operation_name
  a ← load c.tenant_id c.application_id
  found ← get_product a.product_id
  product ← or_raise found (product_not_found a.product_id)
  b ← transition env a intake_validation "entering automated intake validation"
  save env b
  accepted ← lift (Product.accepts product b.requested_amount b.requested_term_months)
  d ←
      (if accepted
        then enter_document_processing env b
        else enter_human_review env b (flagged_reason env b))
  e ← record_pending env d
  commit
  pure (record {
    application_id = e.application_id;
    status = e.status;
    version = e.version;
    accepted = accepted;
  })

-- `AdvanceIntakeValidationHandler.handle`
unfoldable pub advance_intake_validation :
    Env → AdvanceIntakeValidationCommand → Action AdvanceIntakeValidationResult
advance_intake_validation env c = transaction c.tenant_id (advance_intake env c)
