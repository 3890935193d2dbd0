-- ===== src/Commands/Decisions/Applied.antt =====
-- ApplyReviewDecision and the invariant `AreRecorded`: the handler marks the queue entry with the
-- decision before it saves the aggregate with the status.
use loan_credit.Prelude.{◌≡◌, subst, ◌∙◌, String, arith, str_eq, Bool-cases, inl, inr, Option-cases}
use loan_credit.Domain.Status.{ApplicationStatus, value}
use loan_credit.Domain.Error.{ok}
use loan_credit.Domain.Application
use loan_credit.Domain.Application.{Application}
use loan_credit.Store.Session.{Env, World, ◌>>=◌}
use loan_credit.Store.Session.Keeps.{Keeps, Good, keeps_rules, Good-now}
use loan_credit.Store.Session.Runs.{
  Runs, Runs-Keeps, Runs-read, Runs-bind, Runs-bind-fact, Runs-transaction,
}
use loan_credit.Store.Repository.{
  get_application, row_to_application, save, write_application, find_application,
}
use loan_credit.Store.ReviewQueue.{Decided, mark_decided, find_entry}
use loan_credit.Commands.Common.{load, transition}
use loan_credit.Commands.Kept.{reserve-Good, load-Good, transition-Good, record_pending-Good}
use loan_credit.Commands.ApplyReviewDecision.{
  ApplyReviewDecisionCommand, decide_in_transaction, apply_review_decision,
}
use loan_credit.Commands.Decisions.{AreRecorded, AreRecorded-Primitives, insert_version-AreRecorded}
use loan_credit.Commands.Decisions.Marked.{
  IsMarked, AllOthers-decide_in, decides-decide_in, AllRecorded-decided,
}
use loan_credit.Store.Repository.Loaded.{find-IsFound}

mark_decided-IsMarked :
    (tenant id : String) (d : Decided)
    → Runs AreRecorded (Good AreRecorded) (IsMarked id d.decision) (mark_decided tenant id d)
unfolding mark_decided find_entry
mark_decided-IsMarked tenant id d = record {
  at = λ w h. elim (Option-cases (find_entry id w)) [
    | inl missing ↦ rw missing h.committed
    | inr (row, found) ↦ elim (Bool-cases (str_eq row.tenant_id tenant)) [
      | inl own ↦ rw found (
          rw own (record {
            committed = h.committed;
            others =
                AllOthers-decide_in w id d w.view.review_queue_entries w.view.applications
                  h.current;
            decided = decides-decide_in w id d w.view.review_queue_entries row found;
          }))
      | inr foreign ↦ rw found (rw foreign h.committed)
    ]
  ];
}

write_application-Good :
    (a : Application)
    → Runs AreRecorded
        (IsMarked a.application_id (value a.status))
        (Good AreRecorded)
        (write_application a)
unfolding write_application
write_application-Good a = record {
  at = λ w h. record {
    committed = h.committed;
    current =
        AllRecorded-decided w a w.view.review_queue_entries w.view.applications h.decided h.others;
  };
}

save-Good :
    (env : Env) (a : Application)
    → Runs AreRecorded (IsMarked a.application_id (value a.status)) (Good AreRecorded) (save env a)
unfolding save
save-Good env a = Runs-bind _ _ (Runs-read _ (λ w h. h.committed)) λ _.
    Runs-bind _ _ (write_application-Good a)
      λ _. Runs-Keeps _ (search (keeps_rules, insert_version-AreRecorded))

-- A transition sets the status and leaves the id.
abbrev pub IsMoved : String → ApplicationStatus → Application → Type 0
IsMoved id s b = (b.application_id ≡ id) × (b.status ≡ s)

save_decided :
    (env : Env) (a : Application) (id : String) (decision : ApplicationStatus)
    → IsMoved id decision a
    → Runs AreRecorded (IsMarked id (value decision)) (Good AreRecorded) (save env a)
save_decided env a id decision (same, moved_to) =
    subst (λ i. Runs AreRecorded (IsMarked i (value decision)) (Good AreRecorded) (save env a)) same
      (subst
        (λ s.
          Runs AreRecorded (IsMarked a.application_id (value s)) (Good AreRecorded) (save env a))
        moved_to (save-Good env a))

-- The aggregate that is loaded has the id that is asked for.
pub loaded_id :
    (tenant id : String) (w : World) (a : Application)
    → (load tenant id w).0 ≡ ok a
    → a.application_id ≡ id
unfolding load get_application find_application row_to_application ◌>>=◌
loaded_id tenant id w a h =
    let (row, f) = find-IsFound tenant id w a (ground arith) in f.of_row.application_id ∙ f.same_id

pub moved :
    (env : Env) (a : Application) (s : ApplicationStatus) (reason id : String) (w : World)
    (b : Application)
    → a.application_id ≡ id
    → (transition env a s reason w).0 ≡ ok b
    → IsMoved id s b
unfolding transition Application.transition_to ◌>>=◌
moved env a s reason id w b e h = ground arith

decide_in_transaction-Good :
    (env : Env) (c : ApplyReviewDecisionCommand)
    → Runs AreRecorded (Good AreRecorded) (Good AreRecorded) (decide_in_transaction env c)
unfolding decide_in_transaction Application.detach_workflow
decide_in_transaction-Good env c =
    let p = AreRecorded-Primitives env in
    Runs-bind _ _ (Runs-Keeps _ (reserve-Good p _ _)) λ _.
      Runs-bind-fact (λ a. a.application_id ≡ c.application_id) _ _ (Runs-Keeps _ (load-Good p _ _))
        (loaded_id _ _)
        λ a same.
          Runs-bind-fact (IsMoved c.application_id c.decision) _ _
            (Runs-Keeps _ (transition-Good p _ _ _)) (λ w b h. moved env a _ _ _ w b same h)
            λ b m. Runs-bind _ _ (Runs-Keeps _ (Good-now _)) λ decided_at.
              Runs-bind _ _ (mark_decided-IsMarked _ _ _) λ _.
                Runs-bind _ _ (save_decided _ _ _ _ m)
                  λ _. Runs-Keeps _ (search (keeps_rules, record_pending-Good))

pub apply_review_decision-Good :
    (env : Env) (c : ApplyReviewDecisionCommand)
    → Keeps (Good AreRecorded) (apply_review_decision env c)
unfolding apply_review_decision
apply_review_decision-Good env c =
    search (keeps_rules, Runs-transaction, decide_in_transaction-Good)
