-- ===== src/Commands/Closed.antt =====
-- Invariants that do not look at the applications' contents: `IsClosed` is what such an invariant
-- has to say of the changes that the repositories make to the tables.
use loan_credit.Prelude.{Option, none, some, List, [], ◌∷◌, ◌++◌, String}
use loan_credit.Domain.Application.{Application}
use loan_credit.Domain.Applicant.{Applicant}
use loan_credit.Domain.Event.{DomainEvent}
use loan_credit.Store.Rows.{
  Db, ApplicantRow, ApplicationRow, ApplicationVersionRow, IdempotencyKeyRow, ReviewQueueEntryRow,
  DocumentRow,
}
use loan_credit.Store.Session.{Env, World}
use loan_credit.Store.Session.Keeps.{Keeps, Good, keeps_rules, Good-insert_row}
use loan_credit.Store.Repository.{
  write_application, insert_version, insert_application, add_applicant, add_application, save,
}
use loan_credit.Store.ReviewQueue.{
  Decided, decide_in, add_entry, mark_decided, write_decision, own_entry, find_entry,
}
use loan_credit.Store.Documents.{add_document}
use loan_credit.Store.UnitOfWork.{reserve_idempotency_key, record_domain_events}
use loan_credit.Commands.ApplyReviewDecision.{
  ApplyReviewDecisionCommand, decide_in_transaction, apply_review_decision,
}
use loan_credit.Commands.Kept.{
  Primitives, reserve-Good, load-Good, transition-Good, record_pending-Good,
  create_application-Good, submit_application-Good, resubmit_application-Good,
  advance_intake_validation-Good, advance_document_processing-Good, handle_enter_human_review-Good,
  upload_document-Good,
}
use loan_credit.Commands.Evidence.Kept.{
  AllowsEvidence, process_document-Good, verify_application_facts-Good,
}
use loan_credit.Commands.Common.{Runner}
use loan_credit.Commands.Handlers.{
  Request, create, submit, resubmit, advance_intake, advance_documents, enter_review,
  apply_decision, upload, process, verify, handle,
}

pub record IsClosed (env : Env) (I : Db → Type 0) : Type 0 where
  pub key_added :
      (db : Db) (row : IdempotencyKeyRow)
      → I db
      → I (record db { idempotency_keys = db.idempotency_keys ++ row ∷ [] })
  pub applicant_added :
      (db : Db) (row : ApplicantRow)
      → I db
      → I (record db { applicants = db.applicants ++ row ∷ [] })
  pub applications_written :
      (db : Db) (rows : List ApplicationRow) → I db → I (record db { applications = rows })
  pub version_added :
      (db : Db) (row : ApplicationVersionRow)
      → I db
      → I (record db { application_versions = db.application_versions ++ row ∷ [] })
  pub entry_added :
      (db : Db) (row : ReviewQueueEntryRow)
      → I db
      → I (record db { review_queue_entries = db.review_queue_entries ++ row ∷ [] })
  pub document_added :
      (db : Db) (row : DocumentRow) → I db → I (record db { documents = db.documents ++ row ∷ [] })
  pub entries_decided :
      (db : Db) (w : World) (id : String) (d : Decided)
      → I db
      → I (record db { review_queue_entries = decide_in w id d db.review_queue_entries })
  pub allowing : AllowsEvidence I
  pub recording : (es : List DomainEvent) → Keeps (Good I) (record_domain_events env es)

module _ {env : Env} {I : Db → Type 0} (closed : IsClosed env I) where
  reserve-Closed :
      (key operation : String) → Keeps (Good I) (reserve_idempotency_key env key operation)
  unfolding reserve_idempotency_key
  reserve-Closed key operation = search (keeps_rules, Good-insert_row, closed.key_added)

  add_entry-Closed : (e : ReviewQueueEntryRow) → Keeps (Good I) (add_entry e)
  unfolding add_entry
  add_entry-Closed e = Good-insert_row _ _ _ _ (λ db free h. closed.entry_added db e h)

  write_application-Closed : (a : Application) → Keeps (Good I) (write_application a)
  unfolding write_application
  write_application-Closed a = record {
    at = λ w h. record {
      committed = h.committed;
      current = closed.applications_written w.view _ h.current;
    };
  }

  insert_version-Closed : (row : ApplicationVersionRow) → Keeps (Good I) (insert_version row)
  unfolding insert_version
  insert_version-Closed row = Good-insert_row _ _ _ _ (λ db free h. closed.version_added db row h)

  save-Closed : (a : Application) → Keeps (Good I) (save env a)
  unfolding save
  save-Closed a = search (keeps_rules, write_application-Closed, insert_version-Closed)

  add_applicant-Closed : (a : Applicant) → Keeps (Good I) (add_applicant env a)
  unfolding add_applicant
  add_applicant-Closed a = search (keeps_rules, Good-insert_row, closed.applicant_added)

  insert_application-Closed : (row : ApplicationRow) → Keeps (Good I) (insert_application row)
  unfolding insert_application
  insert_application-Closed row =
      Good-insert_row _ _ _ _ (λ db free h. closed.applications_written db _ h)

  add_application-Closed : (a : Application) → Keeps (Good I) (add_application env a)
  unfolding add_application
  add_application-Closed a = search (keeps_rules, insert_application-Closed, insert_version-Closed)

  add_document-Closed : (d : DocumentRow) → Keeps (Good I) (add_document d)
  unfolding add_document
  add_document-Closed d = Good-insert_row _ _ _ _ (λ db free h. closed.document_added db d h)

  pub Closed-Primitives : Primitives env I
  Closed-Primitives = record {
    reserving = reserve-Closed;
    saving = λ a _. save-Closed a;
    queueing = add_entry-Closed;
    recording = closed.recording;
    adding_applicant = add_applicant-Closed;
    adding_document = add_document-Closed;
    adding_application = λ a _. add_application-Closed a;
    allowing = closed.allowing;
  }

  write_decision-Closed :
      (id : String) (d : Decided) (o : Option ReviewQueueEntryRow)
      → Keeps (Good I) (write_decision id d o)
  write_decision-Closed id d none = record { at = λ w h. h }
  write_decision-Closed id d (some row) = record {
    at = λ w h. record {
      committed = h.committed;
      current = closed.entries_decided w.view w id d h.current;
    };
  }

  mark_decided-Closed :
      (tenant id : String) (d : Decided) → Keeps (Good I) (mark_decided tenant id d)
  unfolding mark_decided
  mark_decided-Closed tenant id d = record {
    at = λ w. (write_decision-Closed id d (own_entry tenant (find_entry id w))).at w;
  }

  apply_review_decision-Closed :
      (c : ApplyReviewDecisionCommand) → Keeps (Good I) (apply_review_decision env c)
  unfolding apply_review_decision decide_in_transaction
  apply_review_decision-Closed c =
      search
        (
          keeps_rules, reserve-Good, load-Good, transition-Good, record_pending-Good,
          Closed-Primitives, mark_decided-Closed, save-Closed,
        )
        depth 14

  ruleset closed_rules = (
    keeps_rules, create_application-Good, submit_application-Good, resubmit_application-Good,
    advance_intake_validation-Good, advance_document_processing-Good,
    handle_enter_human_review-Good, upload_document-Good, apply_review_decision-Closed,
    Closed-Primitives,
  )

  -- Every handler keeps a closed invariant.
  pub handle-Closed : (runner : Runner) (r : Request) → Keeps (Good I) (handle env runner r)
  unfolding handle
  handle-Closed runner (create c) = search closed_rules
  handle-Closed runner (submit c) = search closed_rules
  handle-Closed runner (resubmit c) = search closed_rules
  handle-Closed runner (advance_intake c) = search closed_rules
  handle-Closed runner (advance_documents c) = search closed_rules
  handle-Closed runner (enter_review c) = search closed_rules
  handle-Closed runner (apply_decision c) = search closed_rules
  handle-Closed runner (upload c) = search closed_rules
  handle-Closed runner (process c) =
      search (keeps_rules, process_document-Good, closed.allowing, reserve-Good, Closed-Primitives)
  handle-Closed runner (verify c) = search (
    keeps_rules, verify_application_facts-Good, closed.allowing, reserve-Good, load-Good,
    Closed-Primitives,
  )
