-- ===== src/Commands/Decisions.antt =====
-- The invariant `AreRecorded`: a reviewer's or the timer's decision stands in the review queue for
-- every approved or declined application.
pub mod Applied
pub mod Marked
use loan_credit.Prelude.{
  ℕ, ◌≡◌, refl, Bool, true, false, not, ◌&&◌, ◌||◌, Option, none, some, List, [], ◌∷◌, ◌++◌, map,
  String, arith, any, any-append, str_eq, eq_iff, Bool-cases, inl, inr, if◌then◌else◌,
}
use loan_credit.Domain.Status.{ApplicationStatus, value}
use loan_credit.Domain.Application.{Application}
use loan_credit.Commands.Kept.{is_credit_decision, IsOpen, Primitives}
use loan_credit.Store.Rows.{
  Db, ApplicationRow, ApplicationVersionRow, ReviewQueueEntryRow, DocumentRow,
}
use loan_credit.Store.Session.{Env, World, Action, visible, insert_row, ◌>>=◌}
use loan_credit.Store.Session.Keeps.{
  Keeps, Good, keeps_rules, Good-insert_row, Keeps-bind, Keeps-read, Good-new_id,
}
use loan_credit.Store.Repository.{
  application_to_row, version_snapshot_row, overwrite, update_applications, write_application,
  insert_version, insert_application, add_applicant, add_application, save,
}
use loan_credit.Store.ReviewQueue.{queue_clash, add_entry}
use loan_credit.Store.Documents.{add_document}
use loan_credit.Store.UnitOfWork.{
  insert_outbox, insert_audit, record_event, record_domain_events, reserve_idempotency_key,
}
use loan_credit.Domain.Event.{DomainEvent}
use loan_credit.Domain.Applicant.{Applicant}

abbrev pub is_decision : Option String → String → Bool
is_decision none status = false
is_decision (some d) status = str_eq d status

-- The entry is of the row's application and tenant, is decided, and its decision is the status.
abbrev pub records : ApplicationRow → ReviewQueueEntryRow → Bool
records row e =
    str_eq e.application_id row.application_id
    && (str_eq e.tenant_id row.tenant_id
        && (str_eq e.status "decided" && is_decision e.decision row.status))

abbrev pub HasRecord : List ReviewQueueEntryRow → ApplicationRow → Type 0
HasRecord queue row = is_credit_decision row.status ≡ true → any (records row) queue ≡ true

abbrev pub AllRecorded : List ReviewQueueEntryRow → List ApplicationRow → Type 0
AllRecorded queue [] = Unit
AllRecorded queue (row ∷ rows) = HasRecord queue row × AllRecorded queue rows

-- Every approved or declined application has a decided entry with that decision in the queue.
abbrev pub AreRecorded : Db → Type 0
AreRecorded db = AllRecorded db.review_queue_entries db.applications

AllRecorded-grow :
    (queue : List ReviewQueueEntryRow) (e : ReviewQueueEntryRow) (rows : List ApplicationRow)
    → AllRecorded queue rows
    → AllRecorded (queue ++ e ∷ []) rows
AllRecorded-grow queue e [] h = tt
AllRecorded-grow queue e (row ∷ rows) h = (
  λ final. rw (any-append (records row) queue (e ∷ [])) (rw (h.0 final) refl),
  AllRecorded-grow queue e rows h.1,
)

AllRecorded-append :
    (queue : List ReviewQueueEntryRow) (rows : List ApplicationRow) (row : ApplicationRow)
    → AllRecorded queue rows
    → HasRecord queue row
    → AllRecorded queue (rows ++ row ∷ [])
AllRecorded-append queue [] row h r = (r, tt)
AllRecorded-append queue (x ∷ rows) row h r = (h.0, AllRecorded-append queue rows row h.1 r)

AllRecorded-update :
    (w : World) (a : Application) (queue : List ReviewQueueEntryRow) (rows : List ApplicationRow)
    → is_credit_decision (value a.status) ≡ false
    → AllRecorded queue rows
    → AllRecorded queue (update_applications w a rows)
unfolding update_applications
AllRecorded-update w a queue [] open' h = tt
AllRecorded-update w a queue (row ∷ rows) open' h =
    elim (Bool-cases (str_eq row.application_id a.application_id && visible w row.tenant_id)) [
      | inl hit ↦ (rw hit (λ final. cc), AllRecorded-update w a queue rows open' h.1)
      | inr miss ↦ (rw miss h.0, AllRecorded-update w a queue rows open' h.1)
    ]

write_application-AreRecorded :
    (a : Application)
    → is_credit_decision (value a.status) ≡ false
    → Keeps (Good AreRecorded) (write_application a)
unfolding write_application
write_application-AreRecorded a open' = record {
  at = λ w h. record {
    committed = h.committed;
    current =
        AllRecorded-update w a w.view.review_queue_entries w.view.applications open' h.current;
  };
}

pub insert_version-AreRecorded :
    (row : ApplicationVersionRow) → Keeps (Good AreRecorded) (insert_version row)
unfolding insert_version
insert_version-AreRecorded row = Good-insert_row _ _ _ _ (λ db free h. h)

-- Saving an aggregate that is not approved or declined keeps the records.
pub save-AreRecorded :
    (env : Env) (a : Application)
    → is_credit_decision (value a.status) ≡ false
    → Keeps (Good AreRecorded) (save env a)
unfolding save
save-AreRecorded env a open' =
    search (keeps_rules, write_application-AreRecorded, insert_version-AreRecorded)

reserve-AreRecorded :
    (env : Env) (key operation : String)
    → Keeps (Good AreRecorded) (reserve_idempotency_key env key operation)
unfolding reserve_idempotency_key
reserve-AreRecorded env key operation = search (keeps_rules, Good-insert_row)

add_entry-AreRecorded : (e : ReviewQueueEntryRow) → Keeps (Good AreRecorded) (add_entry e)
unfolding add_entry
add_entry-AreRecorded e =
    Good-insert_row _ _ _ _
      (λ db free h. AllRecorded-grow db.review_queue_entries e db.applications h)

record_event-AreRecorded :
    (env : Env) (e : DomainEvent) → Keeps (Good AreRecorded) (record_event env e)
unfolding record_event insert_outbox insert_audit
record_event-AreRecorded env e = search (keeps_rules, Good-insert_row) depth 8

events-AreRecorded :
    (env : Env) (es : List DomainEvent) → Keeps (Good AreRecorded) (record_domain_events env es)
unfolding record_domain_events
events-AreRecorded env [] = search keeps_rules
events-AreRecorded env (e ∷ es) =
    Keeps-bind _ _ (record_event-AreRecorded env e) (λ _. events-AreRecorded env es)

add_applicant-AreRecorded :
    (env : Env) (a : Applicant) → Keeps (Good AreRecorded) (add_applicant env a)
unfolding add_applicant
add_applicant-AreRecorded env a = search (keeps_rules, Good-insert_row)

insert_application-AreRecorded :
    (a : Application)
    → IsOpen a
    → Keeps (Good AreRecorded) (insert_application (application_to_row a))
unfolding insert_application application_to_row
insert_application-AreRecorded a open' =
    Good-insert_row _ _ _ _
      (λ db free h. AllRecorded-append db.review_queue_entries db.applications _ h (λ final. cc))

add_application-AreRecorded :
    (env : Env) (a : Application) → IsOpen a → Keeps (Good AreRecorded) (add_application env a)
unfolding add_application
add_application-AreRecorded env a open' =
    search (keeps_rules, insert_application-AreRecorded, insert_version-AreRecorded)

add_document-AreRecorded : (d : DocumentRow) → Keeps (Good AreRecorded) (add_document d)
unfolding add_document
add_document-AreRecorded d = Good-insert_row _ _ _ _ (λ db free h. h)

pub AreRecorded-Primitives : (env : Env) → Primitives env AreRecorded
AreRecorded-Primitives env = record {
  reserving = reserve-AreRecorded env;
  saving = save-AreRecorded env;
  queueing = add_entry-AreRecorded;
  recording = events-AreRecorded env;
  adding_applicant = add_applicant-AreRecorded env;
  adding_document = add_document-AreRecorded;
  adding_application = add_application-AreRecorded env;
  allowing = record {
    run_added = λ db row h. h;
    fact_added = λ db row h. h;
    verification_added = λ db row h. h;
    check_added = λ db row h. h;
    contradiction_added = λ db row h. h;
    snapshot_added = λ db row h. h;
  };
}
