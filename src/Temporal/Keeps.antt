-- ===== src/Temporal/Keeps.antt =====
-- Invariants of the database under a workflow whose activities are executed at least once.
use loan_credit.Prelude.{◌≡◌, ◌∙◌, ℕ, Bool, true, false, Option, List, [], ◌∷◌, String, str_eq}
use loan_credit.Domain.Status.{value}
use loan_credit.Store.Rows.{Db, DocumentRow}
use loan_credit.Store.Session.{Env, Action}
use loan_credit.Store.Session.Keeps.{
  Keeps-lift, Keeps-bind-fact, Keeps, Good, keeps_rules, Keeps-bind, Keeps-pure, Keeps-if,
  Keeps-raise,
}
use loan_credit.Commands.Common.{Runner}
use loan_credit.Commands.Handlers.{
  Request, advance_intake, advance_documents, enter_review, apply_decision, process, verify, handle,
}
use loan_credit.Temporal.Activities.{
  ActivityContext, ActivityInfo, ApplyReviewDecisionActivityInput, EnterHumanReviewActivityInput,
  validate_intake_activity, check_required_documents_activity, extract_document, extract_documents,
  extract_document_facts_activity, verify_facts_activity, enter_human_review_activity,
  apply_review_decision_activity,
}
use loan_credit.Temporal.Workflow.{
  Execute, InfoOf, ApplicationWorkflowInput, ReviewDecisionSignal, intake_stage, document_stage,
  decision_of, verification_stage, decision_stage, run_workflow,
}
use loan_credit.Temporal.Execution.{
  IsAtLeastOnce, executed, Keeps-on_duplicate, Keeps-handler, decision_read, current_status-Keeps,
  list-Keeps, checks-Keeps,
}

-- A decision among the requests is the given one, of the given case.
abbrev pub IsAllowed : (id decision : String) → Request → Type 0
IsAllowed id decision (apply_decision c) = (c.application_id ≡ id) × (value c.decision ≡ decision)
IsAllowed id decision _ = Unit

-- Every request that is allowed keeps the invariant.
abbrev pub RequestsKeep : Env → Runner → (id decision : String) → (Db → Type 0) → Type 0
RequestsKeep env runner id decision I =
    (r : Request) → IsAllowed id decision r → Keeps (Good I) (handle env runner r)

module _ (env : Env) (runner : Runner) (id decision : String) (I : Db → Type 0)
    (kept : RequestsKeep env runner id decision I) (info : ActivityInfo) where
  validate-Keeps : (ctx : ActivityContext) → Keeps (Good I) (validate_intake_activity env info ctx)
  unfolding validate_intake_activity handle
  validate-Keeps ctx =
      Keeps-on_duplicate _ _
        (Keeps-bind _ _ (Keeps-handler _ (kept (advance_intake _) tt)) (λ result. Keeps-pure _))
        (current_status-Keeps _ _)

  check-Keeps :
      (ctx : ActivityContext) → Keeps (Good I) (check_required_documents_activity env info ctx)
  unfolding check_required_documents_activity handle
  check-Keeps ctx =
      Keeps-on_duplicate _ _
        (Keeps-bind _ _ (Keeps-handler _ (kept (advance_documents _) tt)) (λ result. Keeps-pure _))
        (current_status-Keeps _ _)

  document-Keeps :
      (ctx : ActivityContext) (d : DocumentRow) → Keeps (Good I) (extract_document env info ctx d)
  unfolding extract_document handle
  document-Keeps ctx d =
      Keeps-on_duplicate _ _
        (Keeps-bind _ _ (Keeps-handler _ (kept (process _) tt)) (λ result. Keeps-pure _))
        (Keeps-pure _)

  documents-Keeps :
      (ctx : ActivityContext) (ds : List DocumentRow) (n : ℕ)
      → Keeps (Good I) (extract_documents env info ctx ds n)
  unfolding extract_documents
  documents-Keeps ctx [] n = Keeps-pure n
  documents-Keeps ctx (d ∷ ds) n =
      Keeps-bind _ _ (document-Keeps ctx d) (λ found. documents-Keeps ctx ds _)

  extract-Keeps :
      (ctx : ActivityContext) → Keeps (Good I) (extract_document_facts_activity env info ctx)
  unfolding extract_document_facts_activity
  extract-Keeps ctx = search (keeps_rules, list-Keeps, documents-Keeps)

  verify-Keeps : (ctx : ActivityContext) → Keeps (Good I) (verify_facts_activity env info ctx)
  unfolding verify_facts_activity handle
  verify-Keeps ctx =
      Keeps-on_duplicate _ _
        (Keeps-bind _ _ (Keeps-handler _ (kept (verify _) tt)) (λ result. Keeps-pure _))
        (search (keeps_rules, checks-Keeps))

  enter-Keeps :
      (input : EnterHumanReviewActivityInput)
      → Keeps (Good I) (enter_human_review_activity env info input)
  unfolding enter_human_review_activity handle
  enter-Keeps input =
      Keeps-on_duplicate _ _
        (Keeps-bind _ _ (Keeps-handler _ (kept (enter_review _) tt)) (λ result. Keeps-pure _))
        (current_status-Keeps _ _)

  apply-Keeps :
      (input : ApplyReviewDecisionActivityInput)
      → input.application_id ≡ id
      → input.decision ≡ decision
      → Keeps (Good I) (apply_review_decision_activity env info input)
  unfolding apply_review_decision_activity handle
  apply-Keeps input same told =
      Keeps-on_duplicate _ _
        (Keeps-bind-fact (λ s. value s ≡ input.decision) _ _ (Keeps-lift _)
          (λ w s h. decision_read input.decision s w h)
          λ s read_as.
            Keeps-bind _ _ (Keeps-handler _ (kept (apply_decision _) (same, read_as ∙ told)))
              (λ result. Keeps-pure _))
        (current_status-Keeps _ _)

module _ (execute : Execute) (info_of : InfoOf) (env : Env) (runner : Runner) (I : Db → Type 0)
    (id decision : String) (promise : IsAtLeastOnce execute)
    (kept : RequestsKeep env runner id decision I) where
  execute-Keeps :
      {A : Type 0} (activity : String) (m : Action A)
      → Keeps (Good I) m
      → Keeps (Good I) (execute A activity m)
  execute-Keeps activity m k = record { at = λ w h. executed m k (promise _ activity m w) h }

  intake-Keeps :
      (input : ApplicationWorkflowInput) (ctx : ActivityContext)
      → Keeps (Good I) (intake_stage execute info_of env input ctx)
  unfolding intake_stage
  intake-Keeps input ctx =
      Keeps-if (str_eq input.starting_status "SUBMITTED") _ _
        (Keeps-bind _ _ (execute-Keeps _ _ (validate-Keeps env runner id decision I kept _ ctx))
          (λ r. Keeps-pure _))
        (Keeps-if (str_eq input.starting_status "DOCUMENT_PROCESSING") _ _ (Keeps-pure _)
          (Keeps-raise _))

  document_stage-Keeps :
      (ctx : ActivityContext) (reached : Bool)
      → Keeps (Good I) (document_stage execute info_of env ctx reached)
  unfolding document_stage
  document_stage-Keeps ctx true = Keeps-pure _
  document_stage-Keeps ctx false =
      Keeps-bind _ _ (execute-Keeps _ _ (check-Keeps env runner id decision I kept _ ctx))
        (λ r. Keeps-pure _)

  verification-Keeps :
      (ctx : ActivityContext) (reached : Bool)
      → Keeps (Good I) (verification_stage execute info_of env ctx reached)
  unfolding verification_stage
  verification-Keeps ctx true = Keeps-pure _
  verification-Keeps ctx false =
      Keeps-bind _ _ (execute-Keeps _ _ (extract-Keeps env runner id decision I kept _ ctx))
        λ extracted.
          Keeps-bind _ _ (execute-Keeps _ _ (verify-Keeps env runner id decision I kept _ ctx))
            λ verified.
              Keeps-bind _ _ (execute-Keeps _ _ (enter-Keeps env runner id decision I kept _ _))
                λ entered. Keeps-pure _

  decision-Keeps :
      (ctx : ActivityContext) (d : ReviewDecisionSignal)
      → ctx.application_id ≡ id
      → d.decision ≡ decision
      → Keeps (Good I) (decision_stage execute info_of env ctx d)
  unfolding decision_stage
  decision-Keeps ctx d same told =
      Keeps-bind _ _ (execute-Keeps _ _ (apply-Keeps env runner id decision I kept _ _ same told))
        (λ r. Keeps-pure _)

  -- The requests of a run are allowed, if its case and its decision are the given ones.
  pub run_workflow-Keeps :
      (input : ApplicationWorkflowInput) (signal : Option ReviewDecisionSignal)
      → input.application_id ≡ id
      → (decision_of signal).decision ≡ decision
      → Keeps (Good I) (run_workflow execute info_of env input signal)
  unfolding run_workflow
  run_workflow-Keeps input signal same told = Keeps-bind _ _ (intake-Keeps input _) λ in_review.
      Keeps-bind _ _ (document_stage-Keeps _ in_review)
        λ reached. Keeps-bind _ _ (verification-Keeps _ reached) λ _. decision-Keeps _ _ same told
