-- ===== src/Tests/Evidence.antt =====
-- Extraction and verification of facts at concrete inputs.
use loan_credit.Prelude.{◌≡◌, refl, true, List, [], ◌∷◌, map, String, Memᴰ}
use mathlib.Core.List.Memᴰ.{head}
use loan_credit.Prelude.Int.{pos, ◌-ℤ◌}
use loan_credit.Domain.Double
use loan_credit.Domain.Double.{nearest, unit, one}
use loan_credit.Domain.Money.{round_half_even}
use loan_credit.Domain.Error.{ok, err}
use loan_credit.Domain.Applicant.{Applicant}
use loan_credit.Domain.Facts
use loan_credit.Domain.Facts.{
  FactType, synthetic_id, street_address, city, employer_name, gross_monthly_income, ExtractedFact,
  identity_document, income_proof,
}
use loan_credit.Domain.Facts.Extractor
use loan_credit.Domain.Facts.Extractor.{PageText, fact, extract_text, extract_facts}
use loan_credit.Domain.Verification
use loan_credit.Domain.Verification.{VerificationCheck, verdict_name}
use loan_credit.Store.Extraction.{StoredFact, ExtractionRun, fact_row, row_to_stored_fact}
use loan_credit.Store.Extraction.Roundtrip.{stored_as}
use loan_credit.Store.Extraction.Extracted.{extracted_facts_survive}
use loan_credit.Commands.VerifyFacts.Checks
use loan_credit.Commands.VerifyFacts.Checks.{
  Findings, no_findings, facts_by_type, run_checks, employer_findings,
}
use loan_credit.Commands.VerifyFacts.Confidence.{
  AreTwoChecks, run_checks-AreTwoChecks, employer_findings_return,
}
use loan_credit.Tests.Scenario.{env, app, everything}

abbrev ada : Applicant
ada = record {
  applicant_id = "a";
  tenant_id = "t1";
  given_name = "Ada";
  family_name = "Byron";
  date_of_birth = 700000;
  email = "ada@example.com";
}

abbrev page : PageText
page = record { page = 1; text = "GOVERNMENT-ISSUED ID" }

abbrev stored : FactType → String → StoredFact
stored kind value = record {
  fact_id = "f";
  document_id = "d";
  run_id = "r";
  fact = fact kind value value 1 "c";
}

abbrev five_facts : List StoredFact
five_facts =
    stored synthetic_id "s"
    ∷ stored street_address "x"
    ∷ stored city "y"
    ∷ stored employer_name "e"
    ∷ stored gross_monthly_income "5.00"
    ∷ []

-- What unfolds this computes extractions and verifications.
unfoldable evidence : Unit {0}
unfolding everything ◌-ℤ◌ nearest Double.spacing Double.round Double.minus round_half_even
    Facts.fact_type_of Facts.is_confidence Facts.fact_checked extract_text Extractor.joined
    Extractor.begins Extractor.occurs_in Extractor.classify Extractor.find_page fact
    Extractor.income_proof_facts Extractor.identity_document_facts extract_facts
    Verification.check_made Checks.facts_by_type Checks.kyc_matches Checks.kyc_findings
    Checks.unresolved_findings Checks.kyc_check Checks.annual_income_of
    Checks.declared_annual_income Checks.deviation_of Checks.employer_findings Checks.employer_check
    Checks.bureau_snapshots Checks.banking_snapshots run_checks
evidence = tt

abbrev found : Findings
found = elim (run_checks env ada (facts_by_type five_facts)) [ err e ↦ no_findings | ok f ↦ f ]

checked_five : run_checks env ada (facts_by_type five_facts) ≡ ok found
unfolding evidence
checked_five = refl

-- The income is twice what the employer confirms.
verdicts_of_five :
    map (λ (c : VerificationCheck). verdict_name c.verdict) found.checks
    ≡ "MATCHED" ∷ "CONTRADICTED" ∷ []
unfolding evidence
verdicts_of_five = refl

run_checks-AreTwoChecks_example : AreTwoChecks found.checks
run_checks-AreTwoChecks_example =
    run_checks-AreTwoChecks env ada (facts_by_type five_facts) found checked_five

employer_findings_return_example :
    (f : Findings) × (employer_findings env (fact employer_name "e" "e" 1 "c") (pos 60) (record {
      is_employment_confirmed = true;
      verified_annual_income = pos 30;
      tenure_months = pos 5;
    })
      ≡ ok f)
unfolding ◌-ℤ◌ nearest Double.spacing round_half_even
employer_findings_return_example =
    employer_findings_return env (fact employer_name "e" "e" 1 "c") 59
      (record {
        is_employment_confirmed = true;
        verified_annual_income = pos 30;
        tenure_months = pos 5;
      })
      refl

abbrev run : ExtractionRun
run = record {
  run_id = "r";
  tenant_id = "t1";
  application_id = app;
  document_id = "d";
  classification = income_proof;
  facts = [];
  fact_ids = [];
  completed_at = 0;
}

abbrev read_pages : List PageText
read_pages = page ∷ record { page = 2; text = "SYNTHETIC PAY STUB" } ∷ []

parsed : extract_text env.reader [] "application/pdf" ≡ ok read_pages
unfolding extract_text
parsed = refl

first_fact :
    Memᴰ
      (fact employer_name "GOVERNMENT-ISSUED ID" "GOVERNMENT-ISSUED ID" 1 "c")
      (extract_facts env.reader read_pages income_proof "c")
unfolding evidence
first_fact = head refl

extracted_facts_survive_example :
    row_to_stored_fact
      (fact_row run "f" (fact employer_name "GOVERNMENT-ISSUED ID" "GOVERNMENT-ISSUED ID" 1 "c"))
    ≡ ok
        (stored_as run "f" (fact employer_name "GOVERNMENT-ISSUED ID" "GOVERNMENT-ISSUED ID" 1 "c"))
extracted_facts_survive_example =
    extracted_facts_survive env.reader [] "application/pdf" read_pages income_proof "c" run "f"
      (fact employer_name "GOVERNMENT-ISSUED ID" "GOVERNMENT-ISSUED ID" 1 "c") parsed first_fact
