-- ===== src/Store/Verification.antt =====
-- finassist/infrastructure/postgres/verification_repository.py, and the port's
-- `ExternalResponseSnapshot`.
use loan_credit.Prelude.{
  ℕ, not, ◌&&◌, ◌||◌, List, [], ◌∷◌, ◌++◌, String, any, filter, length, str_eq, ◌==◌, if◌then◌else◌,
}
use loan_credit.Domain.Error.{Error, Result, ok, err, value_error}
use loan_credit.Domain.Error
use loan_credit.Domain.Verification.{
  VerificationCheck, SourceSystem, is_contradicted, verdict_name, verdict_of, source_name,
  source_of, check_made,
}
use loan_credit.Store.Rows.{
  VerificationRunRow, VerificationCheckRow, ContradictionRow, ExternalResponseSnapshotRow, Answer,
}
use loan_credit.Store.Session.{
  Env, World, Action, read, pure, ◌>>=◌, ◌>>◌, raise_if, insert_row, visible, new_id,
}

pub record ExternalResponseSnapshot : Type 0 where
  pub source_system : SourceSystem
  pub response_payload : List (String × Answer)

-- The arguments of `add_run`.
pub record VerificationRun : Type 0 where
  pub run_id : String
  pub tenant_id : String
  pub application_id : String
  pub checks : List VerificationCheck
  pub check_ids : List String
  pub snapshots : List ExternalResponseSnapshot
  pub snapshot_ids : List String
  pub completed_at : ℕ

-- `sum(1 for check in checks if check.verdict is VerificationVerdict.CONTRADICTED)`
abbrev pub contradiction_count : List VerificationCheck → ℕ
contradiction_count checks =
    length (filter (λ (c : VerificationCheck). is_contradicted c.verdict) checks)

unfoldable pub insert_verification_run : VerificationRunRow → Action (Unit {0})
insert_verification_run row =
    insert_row "verification_runs" row.tenant_id
      (λ db. any (λ r. str_eq r.run_id row.run_id) db.verification_runs)
      (λ db. record db { verification_runs = db.verification_runs ++ row ∷ [] })

unfoldable pub insert_check : VerificationCheckRow → Action (Unit {0})
insert_check row =
    insert_row "verification_checks" row.tenant_id
      (λ db. any (λ r. str_eq r.check_id row.check_id) db.verification_checks)
      (λ db. record db { verification_checks = db.verification_checks ++ row ∷ [] })

-- A check has one contradiction at most.
unfoldable pub insert_contradiction : ContradictionRow → Action (Unit {0})
insert_contradiction row =
    insert_row "contradictions" row.tenant_id
      (λ db.
        any (λ r. str_eq r.contradiction_id row.contradiction_id || str_eq r.check_id row.check_id)
          db.contradictions)
      (λ db. record db { contradictions = db.contradictions ++ row ∷ [] })

unfoldable pub insert_snapshot : ExternalResponseSnapshotRow → Action (Unit {0})
insert_snapshot row =
    insert_row "external_response_snapshots" row.tenant_id
      (λ db. any (λ r. str_eq r.snapshot_id row.snapshot_id) db.response_snapshots)
      (λ db. record db { response_snapshots = db.response_snapshots ++ row ∷ [] })

unfoldable pub check_row :
    VerificationRun → (check_id : String) → VerificationCheck → VerificationCheckRow
check_row run check_id c = record {
  check_id = check_id;
  run_id = run.run_id;
  tenant_id = run.tenant_id;
  application_id = run.application_id;
  source_system = source_name c.source_system;
  checked_fact_type = c.checked_fact_type;
  declared_value = c.declared_value;
  external_value = c.external_value;
  verdict = verdict_name c.verdict;
  confidence = c.confidence;
  detail = c.detail;
  created_at = run.completed_at;
}

unfoldable pub insert_checks :
    VerificationRun → List String → List VerificationCheck → Action (Unit {0})
insert_checks run (id ∷ ids) (c ∷ cs) =
    insert_check (check_row run id c) >> insert_checks run ids cs
insert_checks run [] cs = pure tt
insert_checks run (id ∷ ids) [] = pure tt

unfoldable pub insert_snapshots :
    VerificationRun → List String → List ExternalResponseSnapshot → Action (Unit {0})
insert_snapshots run (id ∷ ids) (s ∷ ss) =
    insert_snapshot (record {
      snapshot_id = id;
      run_id = run.run_id;
      tenant_id = run.tenant_id;
      application_id = run.application_id;
      source_system = source_name s.source_system;
      response_payload = s.response_payload;
      captured_at = run.completed_at;
    })
    >> insert_snapshots run ids ss
insert_snapshots run [] ss = pure tt
insert_snapshots run (id ∷ ids) [] = pure tt

-- The row of a contradiction has an id of its own.
unfoldable pub add_contradiction :
    Env → VerificationRun → (check_id : String) → VerificationCheck → Action (Unit {0})
add_contradiction env run check_id c = do
  contradiction_id ← new_id env
  insert_contradiction (record {
    contradiction_id = contradiction_id;
    check_id = check_id;
    tenant_id = run.tenant_id;
    application_id = run.application_id;
    source_system = source_name c.source_system;
    checked_fact_type = c.checked_fact_type;
    detail = c.detail;
    created_at = run.completed_at;
  })

unfoldable pub insert_contradictions :
    Env → VerificationRun → List String → List VerificationCheck → Action (Unit {0})
insert_contradictions env run (id ∷ ids) (c ∷ cs) =
    (if is_contradicted c.verdict then add_contradiction env run id c else pure tt)
    >> insert_contradictions env run ids cs
insert_contradictions env run [] cs = pure tt
insert_contradictions env run (id ∷ ids) [] = pure tt

-- `SqlAlchemyVerificationRepository.add_run`
unfoldable pub add_verification_run : Env → VerificationRun → Action (Unit {0})
add_verification_run env run = do
  raise_if (not (length run.checks == length run.check_ids))
      (value_error "checks and check_ids must be the same length")
  raise_if (not (length run.snapshots == length run.snapshot_ids))
      (value_error "snapshots and snapshot_ids must be the same length")
  insert_verification_run (record {
    run_id = run.run_id;
    tenant_id = run.tenant_id;
    application_id = run.application_id;
    check_count = length run.checks;
    contradiction_count = contradiction_count run.checks;
    completed_at = run.completed_at;
  })
  insert_checks run run.check_ids run.checks
  insert_snapshots run run.snapshot_ids run.snapshots
  insert_contradictions env run run.check_ids run.checks

-- `_row_to_check`
unfoldable pub row_to_check : VerificationCheckRow → Result VerificationCheck
row_to_check row = Error.◌>>=◌ (source_of row.source_system) λ source.
    Error.◌>>=◌ (verdict_of row.verdict) λ verdict. check_made (record {
      source_system = source;
      checked_fact_type = row.checked_fact_type;
      declared_value = row.declared_value;
      external_value = row.external_value;
      verdict = verdict;
      confidence = row.confidence;
      detail = row.detail;
    })

unfoldable pub stored_checks : List VerificationCheckRow → Result (List VerificationCheck)
stored_checks [] = ok []
stored_checks (row ∷ rows) =
    Error.◌>>=◌ (row_to_check row) λ c. Error.◌>>=◌ (stored_checks rows) λ cs. ok (c ∷ cs)

unfoldable pub check_rows_of : (tenant application_id : String) → World → List VerificationCheckRow
check_rows_of tenant application_id w =
    filter
      (λ r.
        visible w r.tenant_id
        && (str_eq r.tenant_id tenant && str_eq r.application_id application_id))
      w.view.verification_checks

-- `SqlAlchemyVerificationRepository.get_checks_for_application`
unfoldable pub get_checks_for_application :
    (tenant application_id : String) → Action (List VerificationCheck)
get_checks_for_application tenant application_id =
    read (λ w. stored_checks (check_rows_of tenant application_id w))
