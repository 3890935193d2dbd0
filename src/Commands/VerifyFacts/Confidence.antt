-- ===== src/Commands/VerifyFacts/Confidence.antt =====
-- The two checks of a verification and their confidences.
use loan_credit.Prelude.{
  zero, ℕ, suc, ◌*◌, ◌≡◌, refl, sym, ◌∙◌, ap, Bool, true, false, not, Option, none, some, List, [],
  ◌∷◌, ◌++◌, arith,
}
use loan_credit.Prelude.Int.{ℤ, pos, ◌-ℤ◌}
use loan_credit.Domain.Double.{unit, nearest, magnitude, signed, is_below_zero, too_large}
use loan_credit.Domain.Double.Bounds.{complement-Bounds}
use loan_credit.Domain.Error.{Error, ok, err-ne-ok, ok-injective, >>=-eq-ok, ◌>>=◌, ◌>>◌, raise_if}
use loan_credit.Domain.Applicant.{Applicant}
use loan_credit.Domain.Facts.{ExtractedFact, is_confidence}
use loan_credit.Domain.Verification.{
  VerificationCheck, SourceSystem, mock_kyc, mock_employer, check_made,
}
use loan_credit.Domain.Verification.External.{EmploymentVerificationResult}
use loan_credit.Store.Session.{Env}
use loan_credit.Store.Verification.{ExternalResponseSnapshot}
use loan_credit.Commands.VerifyFacts.Checks.{
  declared_annual_income, bureau_snapshots, banking_snapshots, Findings, FactsByType, unresolved,
  unresolved_findings, kyc_findings, kyc_check, deviation_of, employer_findings, employer_check,
  run_checks,
}

-- The findings are one check, of the system, with a confidence between 0.0 and 1.0.
pub record IsOneCheck (source : SourceSystem) (f : Findings) : Type 0 where
  pub check : VerificationCheck
  pub only : f.checks ≡ check ∷ []
  pub of_source : check.source_system ≡ source
  pub confident : is_confidence check.confidence ≡ true

guarded :
    {A : Type 0} (b : Bool) (e : Error) (a made : A)
    → (raise_if (not b) e >> ok a) ≡ ok made
    → (made ≡ a) × (b ≡ true)
guarded true e a made h = (sym (ok-injective h), refl)
guarded false e a made h = absurd (err-ne-ok h)

check_made-eq-ok :
    (c made : VerificationCheck)
    → check_made c ≡ ok made
    → (made ≡ c) × (is_confidence c.confidence ≡ true)
unfolding check_made
check_made-eq-ok c made h = guarded (is_confidence c.confidence) _ c made h

one_check :
    (c : VerificationCheck) (snapshots : List ExternalResponseSnapshot) (f : Findings)
    → (check_made c >>= λ check. ok (record { checks = check ∷ []; snapshots = snapshots })) ≡ ok f
    → IsOneCheck c.source_system f
one_check c snapshots f h =
    let (made, is, rest) = >>=-eq-ok (check_made c) _ h in
    let (same, fine) = check_made-eq-ok c made is in
    record {
      check = c;
      only = ap (λ (x : Findings). x.checks) (sym (ok-injective rest)) ∙ ap (λ x. x ∷ []) same;
      of_source = refl;
      confident = fine;
    }

kyc_check-IsOneCheck :
    (env : Env) (applicant : Applicant) (id street town : Option ExtractedFact) (f : Findings)
    → kyc_check env applicant id street town ≡ ok f
    → IsOneCheck mock_kyc f
unfolding kyc_check kyc_findings unresolved_findings
kyc_check-IsOneCheck env applicant none street town f h = one_check (unresolved true) [] f h
kyc_check-IsOneCheck env applicant (some id) none town f h = one_check (unresolved true) [] f h
kyc_check-IsOneCheck env applicant (some id) (some street) none f h =
    one_check (unresolved true) [] f h
kyc_check-IsOneCheck env applicant (some id) (some street) (some town) f h =
    let (r, is, rest) =
      >>=-eq-ok
        (env.external.verify_identity applicant.given_name applicant.family_name
          applicant.date_of_birth id.normalized_value street.normalized_value town.normalized_value)
        _ h in
    one_check _ _ f rest

employer_check-IsOneCheck :
    (env : Env) (applicant : Applicant) (id employer : Option ExtractedFact) (income : Option ℤ)
    (f : Findings)
    → employer_check env applicant id employer income ≡ ok f
    → IsOneCheck mock_employer f
unfolding employer_check employer_findings unresolved_findings
employer_check-IsOneCheck env applicant none employer income f h =
    one_check (unresolved false) [] f h
employer_check-IsOneCheck env applicant (some id) none income f h =
    one_check (unresolved false) [] f h
employer_check-IsOneCheck env applicant (some id) (some employer) none f h =
    one_check (unresolved false) [] f h
employer_check-IsOneCheck env applicant (some id) (some employer) (some declared) f h =
    let (r, is, rest) =
      >>=-eq-ok
        (env.external.verify_employment applicant.given_name applicant.family_name
          id.normalized_value employer.normalized_value declared)
        _ h in
    let (deviation, deviates, made) =
      >>=-eq-ok (deviation_of r.verified_annual_income declared) _ rest in
    one_check _ _ f made

-- The checks are one of the identity and one of the employment, in this order.
pub record AreTwoChecks (checks : List VerificationCheck) : Type 0 where
  pub kyc : VerificationCheck
  pub employer : VerificationCheck
  pub both : checks ≡ kyc ∷ employer ∷ []
  pub of_kyc : kyc.source_system ≡ mock_kyc
  pub of_employer : employer.source_system ≡ mock_employer
  pub kyc_confident : is_confidence kyc.confidence ≡ true
  pub employer_confident : is_confidence employer.confidence ≡ true

one_then_one :
    {cs ds : List VerificationCheck} {a b : VerificationCheck}
    → cs ≡ a ∷ []
    → ds ≡ b ∷ []
    → cs ++ ds ≡ a ∷ b ∷ []
one_then_one h k = rw (h, k) refl

-- Whatever facts were extracted and whatever the external systems answer, the checks that the handler
-- makes, if none of the calls raises, are exactly two: one against KYC and one against the employer,
-- in this order, an unresolved one not left out, each with a confidence between 0.0 and 1.0.
pub run_checks-AreTwoChecks :
    (env : Env) (applicant : Applicant) (facts : FactsByType) (f : Findings)
    → run_checks env applicant facts ≡ ok f
    → AreTwoChecks f.checks
unfolding run_checks
run_checks-AreTwoChecks env applicant facts f h =
    let (kyc, kyc_is, then_income) = >>=-eq-ok (kyc_check env applicant _ _ _) _ h in
    let (declared, declared_is, then_employer) =
      >>=-eq-ok (declared_annual_income env _) _ then_income in
    let (employer, employer_is, then_bureau) =
      >>=-eq-ok (employer_check env applicant _ _ _) _ then_employer in
    let (bureau, bureau_is, then_banking) =
      >>=-eq-ok (bureau_snapshots env applicant _) _ then_bureau in
    let (banking, banking_is, made) =
      >>=-eq-ok (banking_snapshots env applicant _ _) _ then_banking in
    let k = kyc_check-IsOneCheck env applicant _ _ _ kyc kyc_is in
    let e = employer_check-IsOneCheck env applicant _ _ _ employer employer_is in
    record {
      kyc = k.check;
      employer = e.check;
      both = ap (λ (x : Findings). x.checks) (sym (ok-injective made)) ∙ one_then_one k.only e.only;
      of_kyc = k.of_source;
      of_employer = e.of_source;
      kyc_confident = k.confident;
      employer_confident = e.confident;
    }

-- The magnitude of the quotient of the two incomes, in the units of a double.
abbrev pub quotient_of : (verified : ℤ) → (declared : ℕ) → ℕ
quotient_of verified declared =
    nearest (magnitude (verified -ℤ pos declared) * unit) (magnitude (pos declared))

signed_deviation : (n m : ℕ) → signed (is_below_zero (pos (suc n))) m ≡ pos m
signed_deviation n zero = refl
signed_deviation n (suc m) = ground arith

deviation-eq :
    (verified : ℤ) (n : ℕ)
    → too_large (quotient_of verified (suc n)) ≡ false
    → deviation_of verified (pos (suc n)) ≡ ok (pos (quotient_of verified (suc n)))
unfolding deviation_of
deviation-eq verified n small = rw small (ap ok (signed_deviation n (quotient_of verified (suc n))))

made_if :
    (c : VerificationCheck) (snapshots : List ExternalResponseSnapshot)
    → is_confidence c.confidence ≡ true
    → (f : Findings) × ((check_made c >>= λ check.
          ok (record { checks = check ∷ []; snapshots = snapshots }))
        ≡ ok f)
unfolding check_made
made_if c snapshots fine = rw fine (record { checks = c ∷ []; snapshots = snapshots }, refl)

-- For a positive declared income the employer check never refuses its own confidence: whatever the
-- employer answers, the findings are made, if the deviation is not beyond the largest double.
pub employer_findings_return :
    (env : Env) (employer : ExtractedFact) (n : ℕ) (r : EmploymentVerificationResult)
    → too_large (quotient_of r.verified_annual_income (suc n)) ≡ false
    → (f : Findings) × (employer_findings env employer (pos (suc n)) r ≡ ok f)
unfolding employer_findings
employer_findings_return env employer n r small =
    rw (deviation-eq r.verified_annual_income n small)
      (made_if _ _ (complement-Bounds (quotient_of r.verified_annual_income (suc n))))
