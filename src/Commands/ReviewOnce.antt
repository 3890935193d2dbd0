-- ===== src/Commands/ReviewOnce.antt =====
-- Entering human review again: the key of the review queue is the application's id, and the code
-- updates entries without deleting any.
use loan_credit.Prelude.{
  ◌≡◌, refl, ◌∙◌, sym, subst, true, ◌&&◌, List, [], ◌∷◌, String, arith, any, any-append, str_eq,
  Bool-cases, inl, inr,
}
use loan_credit.Domain.Error.{Error, err}
use loan_credit.Domain.Event.{DomainEvent}
use loan_credit.Domain.Application.{Application}
use loan_credit.Store.Rows.{Db, ReviewQueueEntryRow}
use loan_credit.Store.Session.{Env, World, visible, transaction, insert_row}
use loan_credit.Store.Session.Keeps.{Keeps, Good, keeps_rules, Keeps-bind, Good-insert_row}
use loan_credit.Store.Session.Never.{
  Never, Never-first, Never-bind, Never-bind-fact, result_is_error,
}
use loan_credit.Store.ReviewQueue.{queue_clash, Decided, decide, decide_in, add_entry}
use loan_credit.Store.UnitOfWork.{insert_outbox, insert_audit, record_event, record_domain_events}
use loan_credit.Commands.Closed.{IsClosed, Closed-Primitives}
use loan_credit.Commands.Common.{enter_human_review}
use loan_credit.Commands.EnterHumanReview.{
  EnterHumanReviewCommand, enter_in_transaction, handle_enter_human_review,
}
use loan_credit.Commands.Atomicity.{handle_enter_human_review-IsAtomic}
use loan_credit.Commands.Decisions.Applied.{loaded_id, moved, IsMoved}
use loan_credit.Commands.Kept.{Primitives, reserve-Good, load-Good, transition-Good}

abbrev pub HasEntry : String → Db → Type 0
HasEntry id db = queue_clash id db ≡ true

module _ (env : Env) (id : String) where
  record_event-HasEntry : (e : DomainEvent) → Keeps (Good (HasEntry id)) (record_event env e)
  unfolding record_event insert_outbox insert_audit
  record_event-HasEntry e = search (keeps_rules, Good-insert_row) depth 8

  events-HasEntry :
      (es : List DomainEvent) → Keeps (Good (HasEntry id)) (record_domain_events env es)
  unfolding record_domain_events
  events-HasEntry [] = search keeps_rules
  events-HasEntry (e ∷ es) = Keeps-bind _ _ (record_event-HasEntry e) (λ _. events-HasEntry es)

  any-decide_in :
      (w : World) (target : String) (d : Decided) (queue : List ReviewQueueEntryRow)
      → any (λ r. str_eq r.application_id id) (decide_in w target d queue)
        ≡ any (λ r. str_eq r.application_id id) queue
  unfolding decide_in decide
  any-decide_in w target d [] = refl
  any-decide_in w target d (e ∷ es) =
      elim (Bool-cases (str_eq e.application_id target && visible w e.tenant_id)) [
        | inl hit ↦ rw hit (rw (any-decide_in w target d es) refl)
        | inr miss ↦ rw miss (rw (any-decide_in w target d es) refl)
      ]

  pub HasEntry-IsClosed : IsClosed env (HasEntry id)
  HasEntry-IsClosed = record {
    key_added = λ db row h. h;
    applicant_added = λ db row h. h;
    applications_written = λ db rows h. h;
    version_added = λ db row h. h;
    entry_added = λ db row h.
        rw (any-append (λ r. str_eq r.application_id id) db.review_queue_entries (row ∷ []))
          (rw h refl);
    document_added = λ db row h. h;
    allowing = record {
      run_added = λ db row h. h;
      fact_added = λ db row h. h;
      verification_added = λ db row h. h;
      check_added = λ db row h. h;
      contradiction_added = λ db row h. h;
      snapshot_added = λ db row h. h;
    };
    entries_decided = λ db w target d h. any-decide_in w target d db.review_queue_entries ∙ h;
    recording = events-HasEntry;
  }

  HasEntry-Primitives : Primitives env (HasEntry id)
  HasEntry-Primitives = Closed-Primitives HasEntry-IsClosed

  add_entry-Never :
      (e : ReviewQueueEntryRow) → e.application_id ≡ id → Never (Good (HasEntry id)) (add_entry e)
  unfolding add_entry insert_row
  add_entry-Never e same = record {
    at = λ w h a returned.
        let taken = subst (λ i. queue_clash i w.view ≡ true) (sym same) h.current in ground arith;
  }

  enter_human_review-Never :
      (a : Application) (reason : String)
      → a.application_id ≡ id
      → Never (Good (HasEntry id)) (enter_human_review env a reason)
  unfolding enter_human_review
  enter_human_review-Never a reason same =
      Never-bind-fact (IsMoved id _) _ _ (transition-Good HasEntry-Primitives _ _ _)
        (λ w b e. moved env a _ _ _ w b same e)
        λ b m. Never-bind _ _ (Primitives.saving HasEntry-Primitives b (rw m.1 refl)) λ _.
          Never-bind _ _ (search keeps_rules) λ entered. Never-first _ _ (add_entry-Never _ m.0)

enter_in_transaction-Never :
    (env : Env) (c : EnterHumanReviewCommand)
    → Never (Good (HasEntry c.application_id)) (enter_in_transaction env c)
unfolding enter_in_transaction
enter_in_transaction-Never env c =
    let p = HasEntry-Primitives env c.application_id in
    Never-bind _ _ (reserve-Good p _ _) λ _.
      Never-bind-fact (λ a. a.application_id ≡ c.application_id) _ _ (load-Good p _ _)
        (loaded_id _ _)
        λ a same. Never-first _ _ (enter_human_review-Never env c.application_id a c.reason same)

never_returns :
    (env : Env) (c : EnterHumanReviewCommand) (w : World)
    → HasEntry c.application_id w.durable
    → (e : Error) × ((handle_enter_human_review env c w).0 ≡ err e)
unfolding handle_enter_human_review transaction
never_returns env c w h = result_is_error _ (
    (enter_in_transaction-Never env c).at (record w { view = w.durable; tenant = c.tenant_id })
      (record { committed = h; current = h }))

-- If the committed review queue has an entry for the application, whether it is decided or not,
-- EnterHumanReview raises for that application, whatever its status, and nothing is committed.
pub second_review_fails :
    (env : Env) (c : EnterHumanReviewCommand) (w : World)
    → HasEntry c.application_id w.durable
    → (e : Error) × ((handle_enter_human_review env c w).0 ≡ err e)
      × ((handle_enter_human_review env c w).1.durable ≡ w.durable)
second_review_fails env c w h =
    let (e, raised) = never_returns env c w h in
    (e, raised, (handle_enter_human_review-IsAtomic env c).at w e raised)
