-- ===== src/Domain/Verification/External.antt =====
-- finassist/application/ports/external_verification.py: the answers of the external systems, and the
-- systems as functions that answer or raise.
use loan_credit.Prelude.{ℕ, Bool, List, String}
use loan_credit.Prelude.Int.{ℤ}
use loan_credit.Domain.Double.{Double}
use loan_credit.Domain.Error.{Result}

pub record KycVerificationResult : Type 0 where
  pub status : String
  pub name_match_score : Double
  pub address_match_score : Double
  pub date_of_birth_match : Bool
  pub reference_id : String

pub record EmploymentVerificationResult : Type 0 where
  pub is_employment_confirmed : Bool
  pub verified_annual_income : ℤ
  pub tenure_months : ℤ

pub record Tradeline : Type 0 where
  pub account_type : String
  pub opened_years_ago : ℤ
  pub balance : ℤ
  pub credit_limit : ℤ
  pub is_delinquent : Bool

pub record CreditReport : Type 0 where
  pub credit_score : ℤ
  pub tradelines : List Tradeline
  pub hard_inquiries_last_12_months : ℤ
  pub is_duplicate_identity_flag : Bool

pub record Transaction : Type 0 where
  pub occurred_at : ℕ
  pub amount_cents : ℤ
  pub description : String

pub record TransactionHistory : Type 0 where
  pub average_daily_balance_cents : ℤ
  pub nsf_count_last_90_days : ℤ
  pub recent_transactions : List Transaction

pub record ExternalSystems : Type 0 where
  pub verify_identity :
      (given_name family_name : String) (date_of_birth : ℕ)
      (synthetic_id street_address city : String)
      → Result KycVerificationResult
  pub verify_employment :
      (given_name family_name synthetic_id employer_name : String) (declared_annual_income : ℤ)
      → Result EmploymentVerificationResult
  pub get_credit_report :
      (given_name family_name : String) (date_of_birth : ℕ) (synthetic_id : String)
      → Result CreditReport
  pub get_transaction_history :
      (given_name family_name synthetic_id : String) (declared_annual_income : ℤ)
      → Result TransactionHistory
