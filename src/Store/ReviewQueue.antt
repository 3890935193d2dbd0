-- ===== src/Store/ReviewQueue.antt =====
-- finassist/infrastructure/postgres/review_queue_repository.py. The primary key of the table is the
-- application's id (migrations/versions/0002_phase3_workflow_and_review.py).
use loan_credit.Prelude.{
  ℕ, Bool, not, ◌&&◌, Option, none, some, List, [], ◌∷◌, ◌++◌, map, String, any, find, str_eq,
  if◌then◌else◌,
}
use loan_credit.Domain.Error.{ok, err, lookup_error}
use loan_credit.Store.Rows.{ReviewQueueEntryRow, Db}
use loan_credit.Store.Session.{World, Action, read, insert_row, visible}

abbrev pub queue_clash : String → Db → Bool
queue_clash application_id db =
    any (λ r. str_eq r.application_id application_id) db.review_queue_entries

-- `SqlAlchemyReviewQueueRepository.add`, of a pending entry.
unfoldable pub add_entry : ReviewQueueEntryRow → Action (Unit {0})
unfolding insert_row
add_entry entry =
    insert_row "review_queue_entries" entry.tenant_id (queue_clash entry.application_id)
      (λ db. record db { review_queue_entries = db.review_queue_entries ++ entry ∷ [] })

unfoldable pub find_entry : String → World → Option ReviewQueueEntryRow
find_entry application_id w =
    find (λ r. str_eq r.application_id application_id && visible w r.tenant_id)
      w.view.review_queue_entries

abbrev pub own_entry : String → Option ReviewQueueEntryRow → Option ReviewQueueEntryRow
own_entry tenant none = none
own_entry tenant (some row) = if not (str_eq row.tenant_id tenant) then none else some row

-- `SqlAlchemyReviewQueueRepository.get`
unfoldable pub get_entry : (tenant application_id : String) → Action (Option ReviewQueueEntryRow)
unfolding read find_entry
get_entry tenant application_id = read (λ w. ok (own_entry tenant (find_entry application_id w)))

-- What a human, or the timer for want of one, decided.
pub record Decided : Type 0 where
  pub decision : String
  pub reason : String
  pub reviewer_id : Option String
  pub decided_at : ℕ

unfoldable pub decide : Decided → ReviewQueueEntryRow → ReviewQueueEntryRow
decide d row = record row {
  status = "decided";
  decision = some d.decision;
  reason = some d.reason;
  reviewer_id = d.reviewer_id;
  decided_at = some d.decided_at;
}

unfoldable pub decide_in :
    World → String → Decided → List ReviewQueueEntryRow → List ReviewQueueEntryRow
unfolding decide
decide_in w application_id d =
    map
      λ r. if str_eq r.application_id application_id && visible w r.tenant_id then decide d r else r

abbrev pub write_decision : String → Decided → Option ReviewQueueEntryRow → Action (Unit {0})
write_decision application_id d none w =
    (err (lookup_error "no review queue entry for the application to mark decided"), w)
write_decision application_id d (some row) w = (
  ok tt,
  record w {
    view = record w.view {
      review_queue_entries = decide_in w application_id d w.view.review_queue_entries;
    };
  },
)

-- `SqlAlchemyReviewQueueRepository.mark_decided`
unfoldable pub mark_decided : (tenant application_id : String) → Decided → Action (Unit {0})
unfolding find_entry decide_in
mark_decided tenant application_id d w =
    write_decision application_id d (own_entry tenant (find_entry application_id w)) w
