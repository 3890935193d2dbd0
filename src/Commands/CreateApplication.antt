-- ===== src/Commands/CreateApplication.antt =====
-- finassist/application/commands/create_application.py.
use loan_credit.Prelude.{ℕ, not, String}
use loan_credit.Prelude.Int.{ℤ}
use loan_credit.Domain.Status.{ApplicationStatus}
use loan_credit.Domain.Error.{product_not_found, product_rejected_request}
use loan_credit.Domain.Money.{Money}
use loan_credit.Domain.Product
use loan_credit.Domain.Applicant
use loan_credit.Domain.Application
use loan_credit.Domain.Application.{Application}
use loan_credit.Store.Session.{
  Env, Action, ◌>>=◌, ◌>>◌, pure, lift, read, or_raise, raise_if, now, new_id, commit, transaction,
}
use loan_credit.Store.Repository.{get_product, add_applicant, add_application}
use loan_credit.Commands.Common.{reserve, record_pending}

abbrev pub operation_name : String
operation_name = "create_application"

pub record CreateApplicationCommand : Type 0 where
  pub tenant_id : String
  pub idempotency_key : String
  pub applicant_given_name : String
  pub applicant_family_name : String
  pub applicant_date_of_birth : ℕ
  pub applicant_email : String
  pub product_id : String
  pub requested_amount : Money
  pub requested_term_months : ℤ

pub record CreateApplicationResult : Type 0 where
  pub application_id : String
  pub applicant_id : String
  pub status : ApplicationStatus
  pub version : ℕ

-- `Application.create(..., clock=clock)`; the clock is read only once the arguments are checked.
unfoldable pub create_at_clock :
    Env
    → (application_id tenant_id applicant_id : String) → Product.Product
    → Money
    → ℤ
    → Action Application
create_at_clock env application_id tenant_id applicant_id product amount term = do
  a ← read λ w.
      Application.create application_id tenant_id applicant_id product amount term
        (env.now_at w.ticks)
  now env
  pure a

-- From the new applicant on.
unfoldable pub create_checked :
    Env → CreateApplicationCommand → Product.Product → Action CreateApplicationResult
create_checked env c product = do
  applicant_id ← new_id env
  applicant ← lift (
      Applicant.validate env.repr (record {
        applicant_id = applicant_id;
        tenant_id = c.tenant_id;
        given_name = c.applicant_given_name;
        family_name = c.applicant_family_name;
        date_of_birth = c.applicant_date_of_birth;
        email = c.applicant_email;
      }))
  add_applicant env applicant
  application_id ← new_id env
  a ←
      create_at_clock env application_id c.tenant_id applicant_id product c.requested_amount
        c.requested_term_months
  add_application env a
  b ← record_pending env a
  commit
  pure (record {
    application_id = b.application_id;
    applicant_id = applicant_id;
    status = b.status;
    version = b.version;
  })

unfoldable pub create_in_transaction :
    Env → CreateApplicationCommand → Action CreateApplicationResult
create_in_transaction env c = do
  reserve env c.idempotency_key operation_name
  found ← get_product c.product_id
  product ← or_raise found (product_not_found c.product_id)
  accepted ← lift (Product.accepts product c.requested_amount c.requested_term_months)
  raise_if (not accepted)
      (product_rejected_request c.product_id c.requested_amount.amount c.requested_term_months)
  create_checked env c product

-- `CreateApplicationHandler.handle`
unfoldable pub create_application : Env → CreateApplicationCommand → Action CreateApplicationResult
create_application env c = transaction c.tenant_id (create_in_transaction env c)
