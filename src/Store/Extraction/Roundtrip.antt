-- ===== src/Store/Extraction/Roundtrip.antt =====
-- What is stored of extracted facts is what is read back.
use loan_credit.Prelude.{◌≡◌, refl, true, false, String}
use loan_credit.Prelude.Int.{ltb_ℤ, pos}
use loan_credit.Domain.Error.{ok}
use loan_credit.Domain.Facts.{
  FactType, applicant_given_name, applicant_family_name, date_of_birth, street_address, city,
  synthetic_id, employer_name, gross_monthly_income, tenure_months, fact_name, fact_type_of,
  ExtractedFact, is_confidence, fact_checked,
}
use loan_credit.Store.Extraction.{StoredFact, ExtractionRun, fact_row, row_to_stored_fact}

fact_type_of-fact_name : (kind : FactType) → fact_type_of (fact_name kind) ≡ ok kind
unfolding fact_type_of
fact_type_of-fact_name applicant_given_name = refl
fact_type_of-fact_name applicant_family_name = refl
fact_type_of-fact_name date_of_birth = refl
fact_type_of-fact_name street_address = refl
fact_type_of-fact_name city = refl
fact_type_of-fact_name synthetic_id = refl
fact_type_of-fact_name employer_name = refl
fact_type_of-fact_name gross_monthly_income = refl
fact_type_of-fact_name tenure_months = refl

-- What `ExtractedFact` accepts.
pub record IsValid (f : ExtractedFact) : Type 0 where
  pub confident : is_confidence f.confidence ≡ true
  pub paged : ltb_ℤ f.page (pos 1) ≡ false

fact_checked-IsValid : (f : ExtractedFact) → IsValid f → fact_checked f ≡ ok f
unfolding fact_checked
fact_checked-IsValid f v = rw (v.confident, v.paged) refl

-- The stored form of a fact of a run.
abbrev pub stored_as : ExtractionRun → (fact_id : String) → ExtractedFact → StoredFact
stored_as run fact_id f = record {
  fact_id = fact_id;
  document_id = run.document_id;
  run_id = run.run_id;
  fact = f;
}

-- A fact of a run that is stored and read back is the same fact, with its id, document and run, if its
-- confidence is between 0.0 and 1.0 and its page at least 1.
pub row_to_stored_fact-fact_row :
    (run : ExtractionRun) (fact_id : String) (f : ExtractedFact)
    → IsValid f
    → row_to_stored_fact (fact_row run fact_id f) ≡ ok (stored_as run fact_id f)
unfolding row_to_stored_fact fact_row
row_to_stored_fact-fact_row run fact_id f v =
    rw (fact_type_of-fact_name f.fact_type) (rw (fact_checked-IsValid f v) refl)
