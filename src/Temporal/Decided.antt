-- ===== src/Temporal/Decided.antt =====
-- Who decides a case of the workflow.
use mathlib.Core.List.Memᴰ.{head, tail}
use loan_credit.Prelude.{
  ◌≡◌, ap, sym, refl, Bool, true, false, ◌&&◌, ◌||◌, Option, none, some, List, [], ◌∷◌, String, any,
  arith, str_eq, eq_refl, Memᴰ,
}
use loan_credit.Domain.Status.{value}
use loan_credit.Store.Rows.{ApplicationRow}
use loan_credit.Store.Session.{Env, World}
use loan_credit.Store.Session.Keeps.{keeps_rules, Keeps-bind, Keeps-pure}
use loan_credit.Commands.Kept.{
  create_application-Good, submit_application-Good, resubmit_application-Good,
  advance_intake_validation-Good, advance_document_processing-Good, handle_enter_human_review-Good,
  upload_document-Good, reserve-Good, load-Good, Primitives,
}
use loan_credit.Commands.Evidence.Kept.{process_document-Good, verify_application_facts-Good}
use loan_credit.Commands.Handlers.{
  create, submit, resubmit, advance_intake, advance_documents, enter_review, apply_decision, upload,
  process, verify, handle,
}
use loan_credit.Commands.Granted.{
  AllGranted, AreGranted, IsGranted, AreGranted-Primitives, apply_review_decision-AreGranted,
}
use loan_credit.Temporal.Workflow.{
  Execute, InfoOf, ApplicationWorkflowInput, ReviewDecisionSignal, decision_of, run_workflow,
}
use loan_credit.Temporal.Execution.{IsAtLeastOnce}
use loan_credit.Temporal.Keeps.{RequestsKeep, run_workflow-Keeps}

abbrev pub is_case : (id status : String) → ApplicationRow → Bool
is_case id status row = str_eq row.application_id id && str_eq row.status status

-- The decision came by a signal within the review window.
abbrev pub is_signalled : Option ReviewDecisionSignal → String → Bool
is_signalled none status = false
is_signalled (some signal) status = str_eq signal.decision status

-- What may be approved or declined: a case that was so before, and the workflow's own case, as it is
-- signalled.
abbrev pub granted :
    List ApplicationRow
    → ApplicationWorkflowInput
    → Option ReviewDecisionSignal
    → (id status : String) → Bool
granted before input signal id status =
    any (is_case id status) before || (str_eq input.application_id id && is_signalled signal status)

module _ (grants : (id status : String) → Bool) (env : Env) where
  abbrev kept_by : Primitives env (AreGranted grants)
  kept_by = AreGranted-Primitives grants env

  ruleset handlers_granted = (
    keeps_rules, upload_document-Good, create_application-Good, submit_application-Good,
    resubmit_application-Good, advance_intake_validation-Good, advance_document_processing-Good,
    handle_enter_human_review-Good, kept_by,
  )

  requests-AreGranted :
      (id decision : String)
      → IsGranted grants id decision
      → RequestsKeep env none id decision (AreGranted grants)
  unfolding handle
  requests-AreGranted id decision g (create c) a = search handlers_granted
  requests-AreGranted id decision g (submit c) a = search handlers_granted
  requests-AreGranted id decision g (resubmit c) a = search handlers_granted
  requests-AreGranted id decision g (advance_intake c) a = search handlers_granted
  requests-AreGranted id decision g (advance_documents c) a = search handlers_granted
  requests-AreGranted id decision g (enter_review c) a = search handlers_granted
  requests-AreGranted id decision g (upload c) a = search handlers_granted
  requests-AreGranted id decision g (apply_decision c) (same, told) =
      let listed : IsGranted grants c.application_id (value c.decision) = rw (same, told) g in
      Keeps-bind _ _ (apply_review_decision-AreGranted grants env c listed) (λ r. Keeps-pure _)
  requests-AreGranted id decision g (process c) a =
      search (keeps_rules, process_document-Good, kept_by.allowing, reserve-Good, kept_by)
  requests-AreGranted id decision g (verify c) a = search (
    keeps_rules, verify_application_facts-Good, kept_by.allowing, reserve-Good, load-Good, kept_by,
  )

any-mem :
    {A : Type 0} (p : A → Bool) (x : A) (xs : List A) → Memᴰ x xs → p x ≡ true → any p xs ≡ true
any-mem p x [] m h = elim m [ ]
any-mem p x (y ∷ ys) (head e) h = rw (ap p (sym e)) (rw h refl)
any-mem p x (y ∷ ys) (tail m) h = ground (arith, any-mem p x ys m h)

-- Each row is granted by a list that has it.
held-AreGranted :
    (before rows : List ApplicationRow) (input : ApplicationWorkflowInput)
    (signal : Option ReviewDecisionSignal)
    → ((row : ApplicationRow) → Memᴰ row rows → Memᴰ row before)
    → AllGranted (granted before input signal) rows
held-AreGranted before [] input signal among = tt
held-AreGranted before (row ∷ rows) input signal among = (
  λ final.
      rw
        (any-mem (is_case row.application_id row.status) row before (among row (head refl))
          (rw (eq_refl row.application_id, eq_refl row.status) refl))
        refl,
  held-AreGranted before rows input signal (λ x m. among x (tail m)),
)

-- The decision that the workflow enters is granted: the timer's is no credit decision.
entered-IsGranted :
    (before : List ApplicationRow) (input : ApplicationWorkflowInput)
    (signal : Option ReviewDecisionSignal)
    → IsGranted (granted before input signal) input.application_id (decision_of signal).decision
entered-IsGranted before input none final = cc
entered-IsGranted before input (some signal) final =
    ground (arith, eq_refl input.application_id, eq_refl signal.decision)

-- Temporal executes each activity at least once. Then every application that is approved or declined
-- in the database after a run of the workflow either was already so before it, with that status, or
-- is the workflow's case and its status is the decision that was signalled within the review window:
-- however often each activity is executed and wherever the run fails, nothing else is approved or
-- declined, and nothing at all if the review times out.
pub run_workflow-AreGranted :
    (execute : Execute) (info_of : InfoOf) (env : Env)
    → IsAtLeastOnce execute
    → (input : ApplicationWorkflowInput) (signal : Option ReviewDecisionSignal) (w : World)
    → w.view ≡ w.durable
    → AreGranted
        (granted w.durable.applications input signal)
        (run_workflow execute info_of env input signal w).1.durable
run_workflow-AreGranted execute info_of env promise input signal w fresh =
    let grants = granted w.durable.applications input signal in
    let before =
      held-AreGranted w.durable.applications w.durable.applications input signal (λ x m. m) in
    ((run_workflow-Keeps execute info_of env none (AreGranted grants) input.application_id
        (decision_of signal).decision promise
        (requests-AreGranted grants env _ _ (entered-IsGranted w.durable.applications input signal))
        input signal refl refl).at
      w (record { committed = before; current = rw fresh before })).committed
