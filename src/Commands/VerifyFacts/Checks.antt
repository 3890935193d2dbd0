-- ===== src/Commands/VerifyFacts/Checks.antt =====
-- finassist/application/commands/verify_application_facts.py: the checks against the external systems.
use Prim.Native.String.{◌++◌ as ◌+++◌}
use loan_credit.Prelude.{
  ℕ, suc, ◌*◌, Bool, true, false, ◌&&◌, Option, none, some, List, [], ◌∷◌, ◌++◌, String, length,
  str_eq, if◌then◌else◌,
}
use loan_credit.Prelude.Int.{ℤ, pos, negsuc, ◌-ℤ◌, leb_ℤ}
use loan_credit.Domain.Double.{
  Double, one, unit, nearest, round, min, max, minus, magnitude, signed, is_below_zero, too_large,
}
use loan_credit.Domain.Error.{Result, ok, overflow_error, ◌>>=◌, ◌>>◌, raise_if}
use loan_credit.Domain.Applicant.{Applicant}
use loan_credit.Domain.Facts.{
  FactType, fact_name, synthetic_id, street_address, city, employer_name, gross_monthly_income,
  ExtractedFact,
}
use loan_credit.Domain.Verification.{
  VerificationCheck, VerificationVerdict, matched, contradicted, insufficient_evidence, mock_kyc,
  mock_employer, mock_bureau, mock_core_banking, check_made,
}
use loan_credit.Domain.Verification.External.{KycVerificationResult, EmploymentVerificationResult}
use loan_credit.Store.Rows.{Answer}
use loan_credit.Store.Session.{Env}
use loan_credit.Store.Extraction.{StoredFact}
use loan_credit.Store.Verification.{ExternalResponseSnapshot}

-- The two lists that the handler fills.
pub record Findings : Type 0 where
  pub checks : List VerificationCheck
  pub snapshots : List ExternalResponseSnapshot

abbrev pub no_findings : Findings
no_findings = record { checks = []; snapshots = [] }

-- The dictionary `facts_by_type`: the last fact of a type.
abbrev pub FactsByType : Type 0
FactsByType = FactType → Option ExtractedFact

abbrev pub is_fact_of : FactType → ExtractedFact → Bool
is_fact_of kind f = str_eq (fact_name f.fact_type) (fact_name kind)

abbrev pub or_earlier : Option ExtractedFact → Bool → ExtractedFact → Option ExtractedFact
or_earlier (some later) hit f = some later
or_earlier none hit f = if hit then some f else none

unfoldable pub facts_by_type : List StoredFact → FactsByType
facts_by_type [] kind = none
facts_by_type (s ∷ ss) kind = or_earlier (facts_by_type ss kind) (is_fact_of kind s.fact) s.fact

-- The double nearest to tenths.
abbrev pub tenths : ℕ → Double
tenths n = pos (nearest (n * unit) 10)

abbrev pub match_score_threshold : Double
match_score_threshold = tenths 8

abbrev pub income_deviation_threshold : Double
income_deviation_threshold = tenths 2

abbrev pub verdict_if : Bool → VerificationVerdict
verdict_if b = if b then matched else contradicted

unfoldable pub kyc_matches : KycVerificationResult → Bool
kyc_matches r =
    str_eq r.status "PASS"
    && (r.date_of_birth_match
        && (leb_ℤ match_score_threshold r.name_match_score
            && leb_ℤ match_score_threshold r.address_match_score))

abbrev pub kyc_snapshot : KycVerificationResult → ExternalResponseSnapshot
kyc_snapshot r = record {
  source_system = mock_kyc;
  response_payload =
      ("status", Answer.text r.status)
      ∷ ("name_match_score", Answer.double r.name_match_score)
      ∷ ("address_match_score", Answer.double r.address_match_score)
      ∷ ("date_of_birth_match", Answer.truth r.date_of_birth_match)
      ∷ ("reference_id", Answer.text r.reference_id)
      ∷ [];
}

unfoldable pub kyc_findings : Env → Applicant → KycVerificationResult → Result Findings
kyc_findings env applicant r =
    check_made (record {
      source_system = mock_kyc;
      checked_fact_type = fact_name synthetic_id;
      declared_value = some (applicant.given_name +++ " " +++ applicant.family_name);
      external_value = some (
          "status="
          +++ r.status
          +++ " name_score="
          +++ env.two_decimals r.name_match_score
          +++ " address_score="
          +++ env.two_decimals r.address_match_score);
      verdict = verdict_if (kyc_matches r);
      confidence = min r.name_match_score r.address_match_score;
      detail = "KYC reference " +++ r.reference_id;
    })
    >>= λ check. ok (record { checks = check ∷ []; snapshots = kyc_snapshot r ∷ [] })

-- A check whose facts were not extracted.
abbrev pub unresolved : Bool → VerificationCheck
unresolved is_kyc = record {
  source_system = if is_kyc then mock_kyc else mock_employer;
  checked_fact_type = fact_name (if is_kyc then synthetic_id else employer_name);
  declared_value = none;
  external_value = none;
  verdict = insufficient_evidence;
  confidence = pos 0;
  detail =
      if is_kyc
      then "identity document facts (synthetic ID / address) were not extracted"
      else "pay-stub facts (employer / income) were not extracted";
}

unfoldable pub unresolved_findings : Bool → Result Findings
unresolved_findings is_kyc =
    check_made (unresolved is_kyc) >>= λ check. ok (record { checks = check ∷ []; snapshots = [] })

unfoldable pub kyc_check :
    Env → Applicant → (id street town : Option ExtractedFact) → Result Findings
kyc_check env applicant (some id) (some street) (some town) =
    env.external.verify_identity applicant.given_name applicant.family_name applicant.date_of_birth
      id.normalized_value street.normalized_value town.normalized_value
    >>= kyc_findings env applicant
kyc_check env applicant none street town = unresolved_findings true
kyc_check env applicant (some id) none town = unresolved_findings true
kyc_check env applicant (some id) (some street) none = unresolved_findings true

-- `round(float(text) * 12)`
unfoldable pub annual_income_of : Env → String → Result ℤ
annual_income_of env text = env.read_float text >>= λ monthly.
    let yearly = nearest (12 * magnitude monthly) 1 in
    raise_if (too_large yearly) overflow_error >> ok (round (signed (is_below_zero monthly) yearly))

unfoldable pub declared_annual_income : Env → Option ExtractedFact → Result (Option ℤ)
declared_annual_income env none = ok none
declared_annual_income env (some income) =
    annual_income_of env income.normalized_value >>= λ yearly. ok (some yearly)

-- `abs(verified - declared) / declared`, for a declared income that is not zero.
unfoldable pub deviation_of : (verified declared : ℤ) → Result Double
deviation_of verified declared =
    let quotient = nearest (magnitude (verified -ℤ declared) * unit) (magnitude declared) in
    raise_if (too_large quotient) overflow_error >> ok (signed (is_below_zero declared) quotient)

abbrev pub truth_text : Bool → String
truth_text b = if b then "True" else "False"

abbrev pub employer_snapshot : EmploymentVerificationResult → ExternalResponseSnapshot
employer_snapshot r = record {
  source_system = mock_employer;
  response_payload =
      ("is_employment_confirmed", Answer.truth r.is_employment_confirmed)
      ∷ ("verified_annual_income", Answer.whole r.verified_annual_income)
      ∷ ("tenure_months", Answer.whole r.tenure_months)
      ∷ [];
}

unfoldable pub employer_findings :
    Env → ExtractedFact → (declared : ℤ) → EmploymentVerificationResult → Result Findings
employer_findings env employer declared r =
    deviation_of r.verified_annual_income declared >>= λ deviation.
    check_made (record {
      source_system = mock_employer;
      checked_fact_type = fact_name employer_name;
      declared_value = some (employer.value +++ ", $" +++ env.int_text declared +++ "/yr");
      external_value = some (
          "confirmed="
          +++ truth_text r.is_employment_confirmed
          +++ " verified_income=$"
          +++ env.int_text r.verified_annual_income);
      verdict =
          verdict_if (r.is_employment_confirmed && leb_ℤ deviation income_deviation_threshold);
      confidence = max (pos 0) (minus one (min deviation one));
      detail = "tenure " +++ env.int_text r.tenure_months +++ " months";
    })
    >>= λ check. ok (record { checks = check ∷ []; snapshots = employer_snapshot r ∷ [] })

-- The truth of `declared_annual_income`: `None` and zero are false.
abbrev pub nonzero : Option ℤ → Option ℤ
nonzero none = none
nonzero (some (pos ℕ.zero)) = none
nonzero (some (pos (suc n))) = some (pos (suc n))
nonzero (some (negsuc n)) = some (negsuc n)

unfoldable pub employer_check :
    Env → Applicant → (id employer : Option ExtractedFact) → (income : Option ℤ) → Result Findings
employer_check env applicant (some id) (some employer) (some declared) =
    env.external.verify_employment applicant.given_name applicant.family_name id.normalized_value
      employer.normalized_value declared
    >>= employer_findings env employer declared
employer_check env applicant none employer income = unresolved_findings false
employer_check env applicant (some id) none income = unresolved_findings false
employer_check env applicant (some id) (some employer) none = unresolved_findings false

unfoldable pub bureau_snapshots :
    Env → Applicant → (id : Option ExtractedFact) → Result (List ExternalResponseSnapshot)
bureau_snapshots env applicant none = ok []
bureau_snapshots env applicant (some id) =
    env.external.get_credit_report applicant.given_name applicant.family_name
      applicant.date_of_birth id.normalized_value
    >>= λ report. ok (
        record {
          source_system = mock_bureau;
          response_payload =
              ("credit_score", Answer.whole report.credit_score)
              ∷ ("hard_inquiries_last_12_months", Answer.whole report.hard_inquiries_last_12_months)
              ∷ ("is_duplicate_identity_flag", Answer.truth report.is_duplicate_identity_flag)
              ∷ ("tradeline_count", Answer.whole (pos (length report.tradelines)))
              ∷ [];
        }
        ∷ [])

unfoldable pub banking_snapshots :
    Env
    → Applicant
    → (id : Option ExtractedFact) → (income : Option ℤ) → Result (List ExternalResponseSnapshot)
banking_snapshots env applicant none income = ok []
banking_snapshots env applicant (some id) none = ok []
banking_snapshots env applicant (some id) (some declared) =
    env.external.get_transaction_history applicant.given_name applicant.family_name
      id.normalized_value declared
    >>= λ history. ok (
        record {
          source_system = mock_core_banking;
          response_payload =
              ("average_daily_balance_cents", Answer.whole history.average_daily_balance_cents)
              ∷ ("nsf_count_last_90_days", Answer.whole history.nsf_count_last_90_days)
              ∷ [];
        }
        ∷ [])

-- From the facts to the two lists, in the order of the handler.
unfoldable pub run_checks : Env → Applicant → FactsByType → Result Findings
run_checks env applicant facts = do
  kyc ← kyc_check env applicant (facts synthetic_id) (facts street_address) (facts city)
  declared ← declared_annual_income env (facts gross_monthly_income)
  employer ←
      employer_check env applicant (facts synthetic_id) (facts employer_name) (nonzero declared)
  bureau ← bureau_snapshots env applicant (facts synthetic_id)
  banking ← banking_snapshots env applicant (facts synthetic_id) (nonzero declared)
  ok (record {
    checks = kyc.checks ++ employer.checks;
    snapshots = kyc.snapshots ++ employer.snapshots ++ bureau ++ banking;
  })
