-- ===== src/Commands/Evidence/Kept.antt =====
-- Invariants of the database under ProcessDocument and VerifyApplicationFacts, which add rows of the
-- tables of facts and of verification runs.
use loan_credit.Prelude.{ℕ, zero, suc, List, [], ◌∷◌, ◌++◌, String}
use loan_credit.Domain.Facts.{ExtractedFact}
use loan_credit.Domain.Verification.{VerificationCheck, is_contradicted}
use loan_credit.Store.Rows.{
  Db, ExtractionRunRow, ExtractedFactRow, VerificationRunRow, VerificationCheckRow,
  ContradictionRow, ExternalResponseSnapshotRow,
}
use loan_credit.Store.Session.{Env}
use loan_credit.Store.Session.Keeps.{
  Keeps, Good, keeps_rules, Keeps-bind, Keeps-if, Keeps-pure, Good-insert_row, Good-new_id,
}
use loan_credit.Store.Applicants.{get_applicant}
use loan_credit.Store.Documents.{list_for_application}
use loan_credit.Store.Extraction.{
  ExtractionRun, insert_extraction_run, insert_fact, insert_facts, add_extraction_run,
  get_facts_for_application,
}
use loan_credit.Store.Verification.{
  ExternalResponseSnapshot, VerificationRun, insert_verification_run, insert_check, insert_checks,
  insert_snapshot, insert_snapshots, insert_contradiction, add_contradiction, insert_contradictions,
  add_verification_run,
}
use loan_credit.Commands.Common.{reserve, load}
use loan_credit.Commands.ProcessDocument.{
  ProcessDocumentCommand, new_ids, process_in_transaction, process_document,
}
use loan_credit.Commands.VerifyFacts.{
  VerifyApplicationFactsCommand, verify_in_transaction, verify_application_facts,
}

-- The invariant does not mind the rows of these tables.
pub record AllowsEvidence (I : Db → Type 0) : Type 0 where
  pub run_added :
      (db : Db) (row : ExtractionRunRow)
      → I db
      → I (record db { extraction_runs = db.extraction_runs ++ row ∷ [] })
  pub fact_added :
      (db : Db) (row : ExtractedFactRow)
      → I db
      → I (record db { extracted_facts = db.extracted_facts ++ row ∷ [] })
  pub verification_added :
      (db : Db) (row : VerificationRunRow)
      → I db
      → I (record db { verification_runs = db.verification_runs ++ row ∷ [] })
  pub check_added :
      (db : Db) (row : VerificationCheckRow)
      → I db
      → I (record db { verification_checks = db.verification_checks ++ row ∷ [] })
  pub contradiction_added :
      (db : Db) (row : ContradictionRow)
      → I db
      → I (record db { contradictions = db.contradictions ++ row ∷ [] })
  pub snapshot_added :
      (db : Db) (row : ExternalResponseSnapshotRow)
      → I db
      → I (record db { response_snapshots = db.response_snapshots ++ row ∷ [] })

module _ {I : Db → Type 0} where
  new_ids-Good : (env : Env) (n : ℕ) → Keeps (Good I) (new_ids env n)
  unfolding new_ids
  new_ids-Good env zero = Keeps-pure []
  new_ids-Good env (suc n) =
      Keeps-bind _ _ (Good-new_id env) λ id. Keeps-bind _ _ (new_ids-Good env n) λ ids. Keeps-pure _

  get_applicant-Good :
      (env : Env) (tenant id : String) → Keeps (Good I) (get_applicant env tenant id)
  unfolding get_applicant
  get_applicant-Good env tenant id = search keeps_rules

  list-Good : (tenant id : String) → Keeps (Good I) (list_for_application tenant id)
  unfolding list_for_application
  list-Good tenant id = search keeps_rules

  facts-Good : (tenant id : String) → Keeps (Good I) (get_facts_for_application tenant id)
  unfolding get_facts_for_application
  facts-Good tenant id = search keeps_rules

module _ {I : Db → Type 0} (allows : AllowsEvidence I) where
  insert_run-Good : (row : ExtractionRunRow) → Keeps (Good I) (insert_extraction_run row)
  unfolding insert_extraction_run
  insert_run-Good row = Good-insert_row _ _ _ _ (λ db free h. allows.run_added db row h)

  insert_fact-Good : (row : ExtractedFactRow) → Keeps (Good I) (insert_fact row)
  unfolding insert_fact
  insert_fact-Good row = Good-insert_row _ _ _ _ (λ db free h. allows.fact_added db row h)

  insert_facts-Good :
      (run : ExtractionRun) (ids : List String) (fs : List ExtractedFact)
      → Keeps (Good I) (insert_facts run ids fs)
  unfolding insert_facts
  insert_facts-Good run [] fs = Keeps-pure tt
  insert_facts-Good run (id ∷ ids) [] = Keeps-pure tt
  insert_facts-Good run (id ∷ ids) (f ∷ fs) =
      Keeps-bind _ _ (insert_fact-Good _) (λ _. insert_facts-Good run ids fs)

  pub add_extraction_run-Good : (run : ExtractionRun) → Keeps (Good I) (add_extraction_run run)
  unfolding add_extraction_run
  add_extraction_run-Good run = search (keeps_rules, insert_run-Good, insert_facts-Good)

  insert_verification-Good :
      (row : VerificationRunRow) → Keeps (Good I) (insert_verification_run row)
  unfolding insert_verification_run
  insert_verification-Good row =
      Good-insert_row _ _ _ _ (λ db free h. allows.verification_added db row h)

  insert_check-Good : (row : VerificationCheckRow) → Keeps (Good I) (insert_check row)
  unfolding insert_check
  insert_check-Good row = Good-insert_row _ _ _ _ (λ db free h. allows.check_added db row h)

  insert_checks-Good :
      (run : VerificationRun) (ids : List String) (cs : List VerificationCheck)
      → Keeps (Good I) (insert_checks run ids cs)
  unfolding insert_checks
  insert_checks-Good run [] cs = Keeps-pure tt
  insert_checks-Good run (id ∷ ids) [] = Keeps-pure tt
  insert_checks-Good run (id ∷ ids) (c ∷ cs) =
      Keeps-bind _ _ (insert_check-Good _) (λ _. insert_checks-Good run ids cs)

  insert_snapshot-Good : (row : ExternalResponseSnapshotRow) → Keeps (Good I) (insert_snapshot row)
  unfolding insert_snapshot
  insert_snapshot-Good row = Good-insert_row _ _ _ _ (λ db free h. allows.snapshot_added db row h)

  insert_snapshots-Good :
      (run : VerificationRun) (ids : List String) (ss : List ExternalResponseSnapshot)
      → Keeps (Good I) (insert_snapshots run ids ss)
  unfolding insert_snapshots
  insert_snapshots-Good run [] ss = Keeps-pure tt
  insert_snapshots-Good run (id ∷ ids) [] = Keeps-pure tt
  insert_snapshots-Good run (id ∷ ids) (s ∷ ss) =
      Keeps-bind _ _ (insert_snapshot-Good _) (λ _. insert_snapshots-Good run ids ss)

  insert_contradiction-Good : (row : ContradictionRow) → Keeps (Good I) (insert_contradiction row)
  unfolding insert_contradiction
  insert_contradiction-Good row =
      Good-insert_row _ _ _ _ (λ db free h. allows.contradiction_added db row h)

  add_contradiction-Good :
      (env : Env)
      → (run : VerificationRun) (id : String) (c : VerificationCheck)
      → Keeps (Good I) (add_contradiction env run id c)
  unfolding add_contradiction
  add_contradiction-Good env run id c = search (keeps_rules, insert_contradiction-Good)

  insert_contradictions-Good :
      (env : Env)
      → (run : VerificationRun) (ids : List String) (cs : List VerificationCheck)
      → Keeps (Good I) (insert_contradictions env run ids cs)
  unfolding insert_contradictions
  insert_contradictions-Good env run [] cs = Keeps-pure tt
  insert_contradictions-Good env run (id ∷ ids) [] = Keeps-pure tt
  insert_contradictions-Good env run (id ∷ ids) (c ∷ cs) =
      Keeps-bind _ _
        (Keeps-if (is_contradicted c.verdict) _ _ (add_contradiction-Good env run id c)
          (Keeps-pure tt))
        (λ _. insert_contradictions-Good env run ids cs)

  pub add_verification_run-Good :
      (env : Env) → (run : VerificationRun) → Keeps (Good I) (add_verification_run env run)
  unfolding add_verification_run
  add_verification_run-Good env run =
      search
        (
          keeps_rules, insert_verification-Good, insert_checks-Good, insert_snapshots-Good,
          insert_contradictions-Good,
        )
        depth 9

  -- `reserve` is the only other step of the two handlers that writes.
  pub process_document-Good :
      (env : Env)
      → ((key operation : String) → Keeps (Good I) (reserve env key operation))
      → (c : ProcessDocumentCommand) → Keeps (Good I) (process_document env c)
  unfolding process_document process_in_transaction
  process_document-Good env reserving c =
      search (keeps_rules, reserving, list-Good, new_ids-Good, add_extraction_run-Good) depth 14

  pub verify_application_facts-Good :
      (env : Env)
      → ((key operation : String) → Keeps (Good I) (reserve env key operation))
      → ((tenant id : String) → Keeps (Good I) (load tenant id))
      → (c : VerifyApplicationFactsCommand) → Keeps (Good I) (verify_application_facts env c)
  unfolding verify_application_facts verify_in_transaction
  verify_application_facts-Good env reserving loading c =
      search
        (
          keeps_rules, reserving, loading, get_applicant-Good, facts-Good, new_ids-Good,
          add_verification_run-Good,
        )
        depth 16
