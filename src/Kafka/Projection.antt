-- ===== src/Kafka/Projection.antt =====
-- finassist/infrastructure/kafka/projection_consumer.py: the inbox and the status projection.
pub mod Row
pub mod Delivery
pub mod Merge
pub mod Delivered
pub mod Converges
use loan_credit.Prelude.{
  ℕ, Bool, true, false, ◌&&◌, ◌||◌, Option, none, some, List, [], ◌∷◌, ◌++◌, map, String, any, find,
  leb, str_eq, if◌then◌else◌,
}
use loan_credit.Domain.Error.{Error, Result, ok, err, lookup_error, value_error, integrity_error}
use loan_credit.Domain.Error
use loan_credit.Store.Rows.{Db, Json, Payload, InboxMessageRow, StatusProjectionRow}
use loan_credit.Store.Session.{
  Env, World, Action, continue, read, caught, lift, pure, ◌>>=◌, ◌>>◌, now, commit, transaction,
  insert_row, visible,
}
use loan_credit.Kafka.Envelope.{Envelope}

abbrev pub is_projected : String → Bool
is_projected event_type =
    str_eq event_type "ApplicationCreated" || str_eq event_type "ApplicationStateChanged"

-- `payload[key]`
abbrev pub item : String → Payload → Result Json
item key payload = elim (find (λ (entry : String × Json). str_eq entry.0 key) payload) [
  | none ↦ err (lookup_error key)
  | some entry ↦ ok entry.1
]

-- What a column of texts, and one of numbers, takes.
abbrev pub as_text : Json → Result String
as_text (Json.text s) = ok s
as_text (Json.number n) = err (value_error "a text is expected")

abbrev pub as_number : Json → Result ℕ
as_number (Json.text s) = err (value_error "a number is expected")
as_number (Json.number n) = ok n

-- The status and the version that the event tells.
unfoldable pub told : Envelope → Result (String × ℕ)
told e =
    if str_eq e.event_type "ApplicationCreated"
    then ok ("DRAFT", 1)
    else Error.◌>>=◌ (Error.◌>>=◌ (item "new_status" e.payload) as_text) λ status.
      Error.◌>>=◌ (Error.◌>>=◌ (item "version" e.payload) as_number) λ version. ok (status, version)

abbrev pub is_inbox_key : (event_id consumer_name : String) → InboxMessageRow → Bool
is_inbox_key event_id consumer_name r =
    str_eq r.event_id event_id && str_eq r.consumer_name consumer_name

-- `except IntegrityError: return False`
abbrev pub new_or_not : Result (Unit {0}) → Result Bool
new_or_not (ok _) = ok true
new_or_not (err (Error.integrity_error table)) = ok false
new_or_not (err e) = err e

-- The row of the inbox; the table has no row-level security.
unfoldable pub insert_inbox : InboxMessageRow → Action (Unit {0})
insert_inbox row w =
    if any (is_inbox_key row.event_id row.consumer_name) w.view.inbox_messages
    then (err (integrity_error "inbox_messages"), record w { view = w.durable })
    else (
      ok tt,
      record w { view = record w.view { inbox_messages = w.view.inbox_messages ++ row ∷ [] } },
    )

abbrev pub is_projection_of : String → StatusProjectionRow → Bool
is_projection_of application_id r = str_eq r.application_id application_id

unfoldable pub find_projection : String → World → Option StatusProjectionRow
find_projection application_id w =
    find (λ r. is_projection_of application_id r && visible w r.tenant_id) w.view.status_projection

abbrev pub projection_row : Envelope → String × ℕ → StatusProjectionRow
projection_row e (status, version) = record {
  application_id = e.application_id;
  tenant_id = e.tenant_id;
  status = status;
  version = version;
  updated_at = e.occurred_at;
}

unfoldable pub insert_projection : StatusProjectionRow → Action (Unit {0})
unfolding insert_row
insert_projection row =
    insert_row "status_projection" row.tenant_id
      (λ db. any (is_projection_of row.application_id) db.status_projection)
      (λ db. record db { status_projection = db.status_projection ++ row ∷ [] })

-- The three columns that are assigned.
abbrev pub move_projection : StatusProjectionRow → StatusProjectionRow → StatusProjectionRow
move_projection new row = record row {
  status = new.status;
  version = new.version;
  updated_at = new.updated_at;
}

unfoldable pub update_projection : StatusProjectionRow → Action (Unit {0})
update_projection new w = (
  ok tt,
  record w {
    view = record w.view {
      status_projection =
          map
            (λ r.
              if is_projection_of new.application_id r && visible w r.tenant_id
              then move_projection new r
              else r)
            w.view.status_projection;
    };
  },
)

-- The row is made, moved on, or left alone if it is at a later version.
abbrev pub project_over : StatusProjectionRow → Option StatusProjectionRow → Action (Unit {0})
project_over new none = insert_projection new
project_over new (some row) = if leb row.version new.version then update_projection new else pure tt

unfoldable pub project : Envelope → Action (Unit {0})
project e = do
  seen ← lift (told e)
  row ← read (λ w. ok (find_projection e.application_id w))
  project_over (projection_row e seen) row

-- What is done with an event that is new to the consumer.
abbrev pub apply_new : Envelope → Bool → Action Bool
apply_new e false = pure false
apply_new e true =
    (if is_projected e.event_type then project e else pure tt) >>= λ _. commit >>= λ _. pure true

-- `_apply_event`: true for an event that is new to the consumer, false for one delivered again.
unfoldable pub apply_event : Env → Envelope → (consumer_name : String) → Action Bool
apply_event env e consumer_name = do
  processed_at ← now env
  is_new ← caught new_or_not (
      insert_inbox (record {
        event_id = e.event_id;
        consumer_name = consumer_name;
        processed_at = processed_at;
      }))
  apply_new e is_new

-- One round of the consumer's loop over records: its own session, for the message's tenant.
unfoldable pub consume : Env → (consumer_group : String) → Envelope → Action Bool
consume env consumer_group e = transaction e.tenant_id (apply_event env e consumer_group)

-- The messages of the topic in the order of delivery; an exception ends the run.
unfoldable pub consume_all : Env → (consumer_group : String) → List Envelope → Action (Unit {0})
consume_all env consumer_group [] = pure tt
consume_all env consumer_group (e ∷ es) =
    consume env consumer_group e >>= λ _. consume_all env consumer_group es
