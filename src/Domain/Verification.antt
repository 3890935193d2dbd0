-- ===== src/Domain/Verification.antt =====
-- finassist/domain/verification/contradiction.py.
pub mod External
use loan_credit.Prelude.{Bool, true, false, not, Option, String, str_eq, if◌then◌else◌}
use loan_credit.Domain.Double.{Double}
use loan_credit.Domain.Error.{Result, ok, err, value_error, ◌>>◌, raise_if}
use loan_credit.Domain.Facts.{is_confidence}

pub data VerificationVerdict : Type 0 where
  matched contradicted insufficient_evidence : VerificationVerdict

abbrev pub verdict_name : VerificationVerdict → String
verdict_name matched = "MATCHED"
verdict_name contradicted = "CONTRADICTED"
verdict_name insufficient_evidence = "INSUFFICIENT_EVIDENCE"

-- `VerificationVerdict(name)`
unfoldable pub verdict_of : String → Result VerificationVerdict
verdict_of name =
    if str_eq name "MATCHED"
    then ok matched
    else if str_eq name "CONTRADICTED"
    then ok contradicted
    else if str_eq name "INSUFFICIENT_EVIDENCE"
    then ok insufficient_evidence
    else err (value_error "not a valid VerificationVerdict")

abbrev pub is_contradicted : VerificationVerdict → Bool
is_contradicted contradicted = true
is_contradicted _ = false

abbrev pub is_matched : VerificationVerdict → Bool
is_matched matched = true
is_matched _ = false

abbrev pub is_insufficient : VerificationVerdict → Bool
is_insufficient insufficient_evidence = true
is_insufficient _ = false

pub data SourceSystem : Type 0 where
  mock_kyc mock_employer mock_bureau mock_core_banking : SourceSystem

abbrev pub source_name : SourceSystem → String
source_name mock_kyc = "MOCK_KYC"
source_name mock_employer = "MOCK_EMPLOYER"
source_name mock_bureau = "MOCK_BUREAU"
source_name mock_core_banking = "MOCK_CORE_BANKING"

-- `SourceSystem(name)`
unfoldable pub source_of : String → Result SourceSystem
source_of name =
    if str_eq name "MOCK_KYC"
    then ok mock_kyc
    else if str_eq name "MOCK_EMPLOYER"
    then ok mock_employer
    else if str_eq name "MOCK_BUREAU"
    then ok mock_bureau
    else if str_eq name "MOCK_CORE_BANKING"
    then ok mock_core_banking
    else err (value_error "not a valid SourceSystem")

pub record VerificationCheck : Type 0 where
  pub source_system : SourceSystem
  pub checked_fact_type : String
  pub declared_value : Option String
  pub external_value : Option String
  pub verdict : VerificationVerdict
  pub confidence : Double
  pub detail : String

-- `VerificationCheck.__post_init__`
unfoldable pub check_made : VerificationCheck → Result VerificationCheck
check_made c = do
  raise_if (not (is_confidence c.confidence)) (value_error "confidence must be in [0.0, 1.0]")
  ok c
