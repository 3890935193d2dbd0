-- ===== src/Commands/Granted.antt =====
-- The invariant `AreGranted`: only listed cases are approved or declined, each as it is listed.
-- ApplyReviewDecision keeps it if its decision is listed, every other handler keeps it anyway.
use loan_credit.Prelude.{
  ◌≡◌, Option, none, some, subst, sym, Bool, true, ◌&&◌, List, [], ◌∷◌, ◌++◌, String, arith, str_eq,
  str_eq→eq, Bool-cases, inl, inr,
}
use loan_credit.Domain.Status.{ApplicationStatus, value}
use loan_credit.Domain.Application
use loan_credit.Domain.Application.{Application}
use loan_credit.Domain.Applicant.{Applicant}
use loan_credit.Domain.Event.{DomainEvent}
use loan_credit.Store.Rows.{
  Db, ApplicationRow, ApplicationVersionRow, ReviewQueueEntryRow, DocumentRow,
}
use loan_credit.Store.Session.{Env, World, visible}
use loan_credit.Store.Session.Keeps.{
  Keeps, Good, keeps_rules, Good-insert_row, Keeps-bind, Keeps-bind-fact, Good-now,
}
use loan_credit.Store.Repository.{
  application_to_row, overwrite, update_applications, write_application, insert_version,
  insert_application, add_applicant, add_application, save,
}
use loan_credit.Store.ReviewQueue.{
  Decided, mark_decided, add_entry, write_decision, own_entry, find_entry,
}
use loan_credit.Store.Documents.{add_document}
use loan_credit.Store.UnitOfWork.{
  insert_outbox, insert_audit, record_event, record_domain_events, reserve_idempotency_key,
}
use loan_credit.Commands.Kept.{
  is_credit_decision, IsOpen, Primitives, reserve-Good, load-Good, transition-Good,
  record_pending-Good,
}
use loan_credit.Commands.Decisions.Applied.{IsMoved, loaded_id, moved}
use loan_credit.Commands.ApplyReviewDecision.{
  ApplyReviewDecisionCommand, decide_in_transaction, apply_review_decision,
}

module _ (grants : (id status : String) → Bool) where
  -- A status of a case is listed, if it is an approval or a refusal.
  abbrev pub IsGranted : (id status : String) → Type 0
  IsGranted id status = is_credit_decision status ≡ true → grants id status ≡ true

  abbrev pub AllGranted : List ApplicationRow → Type 0
  AllGranted [] = Unit
  AllGranted (row ∷ rows) = IsGranted row.application_id row.status × AllGranted rows

  abbrev pub AreGranted : Db → Type 0
  AreGranted db = AllGranted db.applications

  open-IsGranted : (a : Application) → IsOpen a → IsGranted a.application_id (value a.status)
  open-IsGranted a open' final = cc

  AllGranted-append :
      (rows : List ApplicationRow) (row : ApplicationRow)
      → AllGranted rows
      → IsGranted row.application_id row.status
      → AllGranted (rows ++ row ∷ [])
  AllGranted-append [] row h g = (g, tt)
  AllGranted-append (x ∷ rows) row h g = (h.0, AllGranted-append rows row h.1 g)

  AllGranted-update :
      (w : World) (a : Application) (rows : List ApplicationRow)
      → IsGranted a.application_id (value a.status)
      → AllGranted rows
      → AllGranted (update_applications w a rows)
  unfolding update_applications overwrite
  AllGranted-update w a [] g h = tt
  AllGranted-update w a (row ∷ rows) g h =
      elim (Bool-cases (str_eq row.application_id a.application_id && visible w row.tenant_id)) [
        | inl hit ↦
            let same : row.application_id ≡ a.application_id =
              str_eq→eq row.application_id a.application_id (ground arith) in
            (
              rw hit (subst (λ i. IsGranted i (value a.status)) (sym same) g),
              AllGranted-update w a rows g h.1,
            )
        | inr miss ↦ (rw miss h.0, AllGranted-update w a rows g h.1)
      ]

  write_application-AreGranted :
      (a : Application)
      → IsGranted a.application_id (value a.status)
      → Keeps (Good AreGranted) (write_application a)
  unfolding write_application
  write_application-AreGranted a g = record {
    at = λ w h. record {
      committed = h.committed;
      current = AllGranted-update w a w.view.applications g h.current;
    };
  }

  insert_version-AreGranted :
      (row : ApplicationVersionRow) → Keeps (Good AreGranted) (insert_version row)
  unfolding insert_version
  insert_version-AreGranted row = Good-insert_row _ _ _ _ (λ db free h. h)

  save-AreGranted :
      (env : Env) (a : Application)
      → IsGranted a.application_id (value a.status)
      → Keeps (Good AreGranted) (save env a)
  unfolding save
  save-AreGranted env a g =
      search (keeps_rules, write_application-AreGranted, insert_version-AreGranted)

  reserve-AreGranted :
      (env : Env) (key operation : String)
      → Keeps (Good AreGranted) (reserve_idempotency_key env key operation)
  unfolding reserve_idempotency_key
  reserve-AreGranted env key operation = search (keeps_rules, Good-insert_row)

  add_entry-AreGranted : (e : ReviewQueueEntryRow) → Keeps (Good AreGranted) (add_entry e)
  unfolding add_entry
  add_entry-AreGranted e = Good-insert_row _ _ _ _ (λ db free h. h)

  record_event-AreGranted :
      (env : Env) (e : DomainEvent) → Keeps (Good AreGranted) (record_event env e)
  unfolding record_event insert_outbox insert_audit
  record_event-AreGranted env e = search (keeps_rules, Good-insert_row) depth 8

  events-AreGranted :
      (env : Env) (es : List DomainEvent) → Keeps (Good AreGranted) (record_domain_events env es)
  unfolding record_domain_events
  events-AreGranted env [] = search keeps_rules
  events-AreGranted env (e ∷ es) =
      Keeps-bind _ _ (record_event-AreGranted env e) (λ _. events-AreGranted env es)

  add_applicant-AreGranted :
      (env : Env) (a : Applicant) → Keeps (Good AreGranted) (add_applicant env a)
  unfolding add_applicant
  add_applicant-AreGranted env a = search (keeps_rules, Good-insert_row)

  insert_application-AreGranted :
      (a : Application)
      → IsOpen a
      → Keeps (Good AreGranted) (insert_application (application_to_row a))
  unfolding insert_application application_to_row
  insert_application-AreGranted a open' =
      Good-insert_row _ _ _ _
        (λ db free h. AllGranted-append db.applications _ h (open-IsGranted a open'))

  add_application-AreGranted :
      (env : Env) (a : Application) → IsOpen a → Keeps (Good AreGranted) (add_application env a)
  unfolding add_application
  add_application-AreGranted env a open' =
      search (keeps_rules, insert_application-AreGranted, insert_version-AreGranted)

  add_document-AreGranted : (d : DocumentRow) → Keeps (Good AreGranted) (add_document d)
  unfolding add_document
  add_document-AreGranted d = Good-insert_row _ _ _ _ (λ db free h. h)

  pub AreGranted-Primitives : (env : Env) → Primitives env AreGranted
  AreGranted-Primitives env = record {
    reserving = reserve-AreGranted env;
    saving = λ a open'. save-AreGranted env a (open-IsGranted a open');
    queueing = add_entry-AreGranted;
    recording = events-AreGranted env;
    adding_applicant = add_applicant-AreGranted env;
    adding_document = add_document-AreGranted;
    adding_application = add_application-AreGranted env;
    allowing = record {
      run_added = λ db row h. h;
      fact_added = λ db row h. h;
      verification_added = λ db row h. h;
      check_added = λ db row h. h;
      contradiction_added = λ db row h. h;
      snapshot_added = λ db row h. h;
    };
  }

  write_decision-AreGranted :
      (id : String) (d : Decided) (o : Option ReviewQueueEntryRow)
      → Keeps (Good AreGranted) (write_decision id d o)
  write_decision-AreGranted id d none = record { at = λ w h. h }
  write_decision-AreGranted id d (some row) = record {
    at = λ w h. record { committed = h.committed; current = h.current };
  }

  mark_decided-AreGranted :
      (tenant id : String) (d : Decided) → Keeps (Good AreGranted) (mark_decided tenant id d)
  unfolding mark_decided
  mark_decided-AreGranted tenant id d = record {
    at = λ w. (write_decision-AreGranted id d (own_entry tenant (find_entry id w))).at w;
  }

  moved-IsGranted :
      (id : String) (s : ApplicationStatus) (b : Application)
      → IsMoved id s b
      → IsGranted id (value s)
      → IsGranted b.application_id (value b.status)
  moved-IsGranted id s b m g = rw (m.0, m.1) g

  decide_in_transaction-AreGranted :
      (env : Env) (c : ApplyReviewDecisionCommand)
      → IsGranted c.application_id (value c.decision)
      → Keeps (Good AreGranted) (decide_in_transaction env c)
  unfolding decide_in_transaction Application.detach_workflow
  decide_in_transaction-AreGranted env c g =
      let p = AreGranted-Primitives env in
      Keeps-bind _ _ (reserve-Good p _ _) λ _.
        Keeps-bind-fact (λ a. a.application_id ≡ c.application_id) _ _ (load-Good p _ _)
          (loaded_id _ _)
          λ a same.
            Keeps-bind-fact (IsMoved c.application_id c.decision) _ _ (transition-Good p _ _ _)
              (λ w b h. moved env a _ _ _ w b same h)
              λ b m. Keeps-bind _ _ (Good-now _) λ decided_at.
                Keeps-bind _ _ (mark_decided-AreGranted _ _ _) λ _.
                  Keeps-bind _ _ (save-AreGranted env _ (moved-IsGranted _ _ b m g))
                    λ _. search (keeps_rules, record_pending-Good)

  -- A decision that is listed is entered.
  pub apply_review_decision-AreGranted :
      (env : Env) (c : ApplyReviewDecisionCommand)
      → IsGranted c.application_id (value c.decision)
      → Keeps (Good AreGranted) (apply_review_decision env c)
  unfolding apply_review_decision
  apply_review_decision-AreGranted env c g = search (keeps_rules, decide_in_transaction-AreGranted)
