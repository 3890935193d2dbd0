-- ===== src/Domain/Facts.antt =====
-- finassist/domain/documents/document_fact.py and the text of finassist/domain/documents/exceptions.py.
pub mod Extractor
use Prim.Native.String.{◌++◌}
use loan_credit.Prelude.{
  ℕ, Bool, true, false, not, ◌&&◌, Option, none, some, String, str_eq, if◌then◌else◌,
}
use loan_credit.Prelude.Int.{ℤ, pos, leb_ℤ, ltb_ℤ}
use loan_credit.Domain.Double.{Double, one}
use loan_credit.Domain.Error.{Result, ok, err, value_error, ◌>>◌, raise_if}

pub data FactType : Type 0 where
  applicant_given_name applicant_family_name date_of_birth street_address city synthetic_id :
      FactType
  employer_name gross_monthly_income tenure_months : FactType

abbrev pub fact_name : FactType → String
fact_name applicant_given_name = "APPLICANT_GIVEN_NAME"
fact_name applicant_family_name = "APPLICANT_FAMILY_NAME"
fact_name date_of_birth = "DATE_OF_BIRTH"
fact_name street_address = "STREET_ADDRESS"
fact_name city = "CITY"
fact_name synthetic_id = "SYNTHETIC_ID"
fact_name employer_name = "EMPLOYER_NAME"
fact_name gross_monthly_income = "GROSS_MONTHLY_INCOME"
fact_name tenure_months = "TENURE_MONTHS"

-- `FactType(name)`
unfoldable pub fact_type_of : String → Result FactType
fact_type_of name =
    if str_eq name "APPLICANT_GIVEN_NAME"
    then ok applicant_given_name
    else if str_eq name "APPLICANT_FAMILY_NAME"
    then ok applicant_family_name
    else if str_eq name "DATE_OF_BIRTH"
    then ok date_of_birth
    else if str_eq name "STREET_ADDRESS"
    then ok street_address
    else if str_eq name "CITY"
    then ok city
    else if str_eq name "SYNTHETIC_ID"
    then ok synthetic_id
    else if str_eq name "EMPLOYER_NAME"
    then ok employer_name
    else if str_eq name "GROSS_MONTHLY_INCOME"
    then ok gross_monthly_income
    else if str_eq name "TENURE_MONTHS"
    then ok tenure_months
    else err (value_error "not a valid FactType")

pub data DocumentClassification : Type 0 where
  identity_document income_proof unknown : DocumentClassification

abbrev pub classification_name : DocumentClassification → String
classification_name identity_document = "IDENTITY_DOCUMENT"
classification_name income_proof = "INCOME_PROOF"
classification_name unknown = "UNKNOWN"

pub record ExtractedFact : Type 0 where
  pub fact_type : FactType
  pub value : String
  pub normalized_value : String
  pub confidence : Double
  pub page : ℤ
  pub extraction_method : String
  pub extractor_version : String
  pub source_checksum : String

-- `0.0 <= confidence <= 1.0`
unfoldable pub is_confidence : Double → Bool
is_confidence x = leb_ℤ (pos 0) x && leb_ℤ x one

-- `ExtractedFact.__post_init__`
unfoldable pub fact_checked : ExtractedFact → Result ExtractedFact
fact_checked f = do
  raise_if (not (is_confidence f.confidence)) (value_error "confidence must be in [0.0, 1.0]")
  raise_if (ltb_ℤ f.page (pos 1)) (value_error "page must be at least 1")
  ok f
