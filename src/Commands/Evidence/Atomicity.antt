-- ===== src/Commands/Evidence/Atomicity.antt =====
-- Atomicity of ProcessDocument and VerifyApplicationFacts.
use loan_credit.Prelude.{ℕ, zero, suc, List, [], ◌∷◌, String}
use loan_credit.Domain.Facts.{ExtractedFact}
use loan_credit.Domain.Verification.{VerificationCheck, is_contradicted}
use loan_credit.Store.Session.{Env}
use loan_credit.Store.Session.Atomic.{
  Leaves, IsAtomic, leaves_rules, IsAtomic-bind, IsAtomic-commit, IsAtomic-transaction, Leaves-bind,
  Leaves-pure, Leaves-if, Leaves-new_id,
}
use loan_credit.Store.Applicants.{get_applicant}
use loan_credit.Store.Documents.{list_for_application}
use loan_credit.Store.Extraction.{
  ExtractionRun, insert_extraction_run, insert_fact, insert_facts, add_extraction_run,
  get_facts_for_application,
}
use loan_credit.Store.Verification.{
  ExternalResponseSnapshot, VerificationRun, insert_verification_run, insert_check, insert_checks,
  insert_snapshot, insert_snapshots, insert_contradiction, add_contradiction, insert_contradictions,
  add_verification_run,
}
use loan_credit.Commands.Atomicity.{reserve-Leaves, load-Leaves}
use loan_credit.Commands.ProcessDocument.{
  ProcessDocumentCommand, new_ids, process_in_transaction, process_document,
}
use loan_credit.Commands.VerifyFacts.{
  VerifyApplicationFactsCommand, verify_in_transaction, verify_application_facts,
}

new_ids-Leaves : (env : Env) (n : ℕ) → Leaves (new_ids env n)
unfolding new_ids
new_ids-Leaves env zero = Leaves-pure []
new_ids-Leaves env (suc n) =
    Leaves-bind _ _ (Leaves-new_id env)
      λ id. Leaves-bind _ _ (new_ids-Leaves env n) λ ids. Leaves-pure _

get_applicant-Leaves : (env : Env) (tenant id : String) → Leaves (get_applicant env tenant id)
unfolding get_applicant
get_applicant-Leaves env tenant id = search leaves_rules

list-Leaves : (tenant id : String) → Leaves (list_for_application tenant id)
unfolding list_for_application
list-Leaves tenant id = search leaves_rules

facts-Leaves : (tenant id : String) → Leaves (get_facts_for_application tenant id)
unfolding get_facts_for_application
facts-Leaves tenant id = search leaves_rules

insert_facts-Leaves :
    (run : ExtractionRun) (ids : List String) (fs : List ExtractedFact)
    → Leaves (insert_facts run ids fs)
unfolding insert_facts insert_fact
insert_facts-Leaves run [] fs = Leaves-pure tt
insert_facts-Leaves run (id ∷ ids) [] = Leaves-pure tt
insert_facts-Leaves run (id ∷ ids) (f ∷ fs) =
    Leaves-bind _ _ (search leaves_rules) (λ _. insert_facts-Leaves run ids fs)

add_extraction_run-Leaves : (run : ExtractionRun) → Leaves (add_extraction_run run)
unfolding add_extraction_run insert_extraction_run
add_extraction_run-Leaves run = search (leaves_rules, insert_facts-Leaves)

insert_checks-Leaves :
    (run : VerificationRun) (ids : List String) (cs : List VerificationCheck)
    → Leaves (insert_checks run ids cs)
unfolding insert_checks insert_check
insert_checks-Leaves run [] cs = Leaves-pure tt
insert_checks-Leaves run (id ∷ ids) [] = Leaves-pure tt
insert_checks-Leaves run (id ∷ ids) (c ∷ cs) =
    Leaves-bind _ _ (search leaves_rules) (λ _. insert_checks-Leaves run ids cs)

insert_snapshots-Leaves :
    (run : VerificationRun) (ids : List String) (ss : List ExternalResponseSnapshot)
    → Leaves (insert_snapshots run ids ss)
unfolding insert_snapshots insert_snapshot
insert_snapshots-Leaves run [] ss = Leaves-pure tt
insert_snapshots-Leaves run (id ∷ ids) [] = Leaves-pure tt
insert_snapshots-Leaves run (id ∷ ids) (s ∷ ss) =
    Leaves-bind _ _ (search leaves_rules) (λ _. insert_snapshots-Leaves run ids ss)

add_contradiction-Leaves :
    (env : Env) (run : VerificationRun) (id : String) (c : VerificationCheck)
    → Leaves (add_contradiction env run id c)
unfolding add_contradiction insert_contradiction
add_contradiction-Leaves env run id c = search leaves_rules

insert_contradictions-Leaves :
    (env : Env) (run : VerificationRun) (ids : List String) (cs : List VerificationCheck)
    → Leaves (insert_contradictions env run ids cs)
unfolding insert_contradictions
insert_contradictions-Leaves env run [] cs = Leaves-pure tt
insert_contradictions-Leaves env run (id ∷ ids) [] = Leaves-pure tt
insert_contradictions-Leaves env run (id ∷ ids) (c ∷ cs) =
    Leaves-bind _ _
      (Leaves-if (is_contradicted c.verdict) _ _ (add_contradiction-Leaves env run id c)
        (Leaves-pure tt))
      (λ _. insert_contradictions-Leaves env run ids cs)

add_verification_run-Leaves :
    (env : Env) (run : VerificationRun) → Leaves (add_verification_run env run)
unfolding add_verification_run insert_verification_run
add_verification_run-Leaves env run =
    search
      (leaves_rules, insert_checks-Leaves, insert_snapshots-Leaves, insert_contradictions-Leaves)
      depth 9

ruleset evidence_rules = (
  leaves_rules, reserve-Leaves, load-Leaves, IsAtomic-bind, IsAtomic-commit, IsAtomic-transaction,
  new_ids-Leaves,
)

pub process_document-IsAtomic :
    (env : Env) (c : ProcessDocumentCommand) → IsAtomic (process_document env c)
unfolding process_document process_in_transaction
process_document-IsAtomic env c =
    search (evidence_rules, list-Leaves, add_extraction_run-Leaves) depth 16

pub verify_application_facts-IsAtomic :
    (env : Env) (c : VerifyApplicationFactsCommand) → IsAtomic (verify_application_facts env c)
unfolding verify_application_facts verify_in_transaction
verify_application_facts-IsAtomic env c =
    search (evidence_rules, get_applicant-Leaves, facts-Leaves, add_verification_run-Leaves) depth
      18
