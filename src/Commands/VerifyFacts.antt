-- ===== src/Commands/VerifyFacts.antt =====
-- finassist/application/commands/verify_application_facts.py: the handler.
pub mod Checks
pub mod Confidence
use Prim.Native.String.{◌++◌ as ◌+++◌}
use loan_credit.Prelude.{
  ℕ, zero, suc, ◌+◌, ◌==◌, Bool, true, false, not, ◌&&◌, Option, none, some, List, [], ◌∷◌, ◌++◌,
  map, String, filter, length, if◌then◌else◌,
}
use loan_credit.Prelude.Int.{pos}
use loan_credit.Domain.Error.{Error, Result, ok, application_not_found}
use loan_credit.Domain.Verification.{
  VerificationCheck, is_matched, is_contradicted, is_insufficient, source_name,
}
use loan_credit.Store.Session.{
  Env, Action, ◌>>=◌, ◌>>◌, pure, lift, or_raise, now, new_id, commit, transaction,
}
use loan_credit.Store.Applicants.{get_applicant}
use loan_credit.Store.Extraction.{get_facts_for_application}
use loan_credit.Store.Verification.{add_verification_run, contradiction_count}
use loan_credit.Commands.Common.{reserve, load}
use loan_credit.Commands.ProcessDocument.{new_ids}
use loan_credit.Commands.VerifyFacts.Checks.{facts_by_type, run_checks}

abbrev pub operation_name : String
operation_name = "verify_application_facts"

pub record VerifyApplicationFactsCommand : Type 0 where
  pub tenant_id : String
  pub application_id : String
  pub idempotency_key : String

pub record VerifyApplicationFactsResult : Type 0 where
  pub checks : List VerificationCheck
  pub contradiction_count : ℕ
  pub summary : String

-- `separator.join(parts)`
unfoldable pub join_with : (separator : String) → List String → String
join_with separator [] = ""
join_with separator (p ∷ []) = p
join_with separator (p ∷ q ∷ ps) = p +++ separator +++ join_with separator (q ∷ ps)

abbrev pub count_text : Env → ℕ → String
count_text env n = env.int_text (pos n)

abbrev pub reason_of : VerificationCheck → String
reason_of c = source_name c.source_system +++ ": " +++ c.detail

-- The part about contradicted checks, and that about unresolved ones, if there are any.
abbrev pub contradicted_part : Env → List VerificationCheck → List String
contradicted_part env [] = []
contradicted_part env (c ∷ cs) =
    (count_text env (length (c ∷ cs))
      +++ " contradicted ("
      +++ join_with ", " (map reason_of (c ∷ cs))
      +++ ")")
    ∷ []

abbrev pub insufficient_part : Env → ℕ → List String
insufficient_part env n =
    if n == 0 then [] else (count_text env n +++ " insufficient evidence") ∷ []

unfoldable pub build_verification_summary : Env → List VerificationCheck → String
unfolding join_with
build_verification_summary env [] =
    "no verification checks could be run: no identity/employment facts were extracted"
build_verification_summary env (c ∷ cs) =
    let matched = length (filter (λ (x : VerificationCheck). is_matched x.verdict) (c ∷ cs)) in
    let contradicted = filter (λ (x : VerificationCheck). is_contradicted x.verdict) (c ∷ cs) in
    let insufficient =
      length (filter (λ (x : VerificationCheck). is_insufficient x.verdict) (c ∷ cs)) in
    "verification complete: "
    +++ join_with "; " (
        (count_text env matched +++ " matched") ∷ contradicted_part env contradicted
        ++ insufficient_part env insufficient)

unfoldable pub verify_in_transaction :
    Env → VerifyApplicationFactsCommand → Action VerifyApplicationFactsResult
verify_in_transaction env c = do
  reserve env c.idempotency_key operation_name
  a ← load c.tenant_id c.application_id
  found ← get_applicant env c.tenant_id a.applicant_id
  applicant ← or_raise found (application_not_found c.application_id)
  stored ← get_facts_for_application c.tenant_id c.application_id
  findings ← lift (run_checks env applicant (facts_by_type stored))
  run_id ← new_id env
  check_ids ← new_ids env (length findings.checks)
  snapshot_ids ← new_ids env (length findings.snapshots)
  completed_at ← now env
  add_verification_run env (record {
    run_id = run_id;
    tenant_id = c.tenant_id;
    application_id = c.application_id;
    checks = findings.checks;
    check_ids = check_ids;
    snapshots = findings.snapshots;
    snapshot_ids = snapshot_ids;
    completed_at = completed_at;
  })
  commit
  pure (record {
    checks = findings.checks;
    contradiction_count = contradiction_count findings.checks;
    summary = build_verification_summary env findings.checks;
  })

-- `VerifyApplicationFactsHandler.handle`
unfoldable pub verify_application_facts :
    Env → VerifyApplicationFactsCommand → Action VerifyApplicationFactsResult
verify_application_facts env c = transaction c.tenant_id (verify_in_transaction env c)
