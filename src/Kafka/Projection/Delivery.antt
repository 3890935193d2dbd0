-- ===== src/Kafka/Projection/Delivery.antt =====
-- What one delivery of a message does to the inbox and to the projection of an application.
use loan_credit.Prelude.{
  ◌≡◌, refl, ◌∙◌, ap, ◌+◌, Bool, true, false, Option, none, some, List, [], ◌∷◌, ◌++◌, String, any,
  str_eq, Bool-cases, inl, inr, if◌then◌else◌,
}
use loan_credit.Domain.Error.{Result, ok, err, err-ne-ok}
use loan_credit.Store.Rows.{Db, InboxMessageRow, StatusProjectionRow}
use loan_credit.Store.Session.{
  Env, World, Action, continue, ◌>>=◌, pure, caught, now, commit, transaction, insert_row,
}
use loan_credit.Store.Session.Keeps.{Keeps, Keeps-if, Keeps-pure, keeps_rules}
use loan_credit.Kafka.Envelope.{Envelope}
use loan_credit.Kafka.Projection.{
  insert_projection, is_projection_of, project_over, update_projection, is_projected, is_inbox_key,
  insert_inbox, project, apply_event, consume,
}
use loan_credit.Kafka.Projection.Row.{row_of, advanced, IsOwn, project-row_of}

abbrev pub is_processed : (event_id consumer_name : String) → Db → Bool
is_processed event_id consumer_name db = any (is_inbox_key event_id consumer_name) db.inbox_messages

abbrev with_inbox : InboxMessageRow → Db → Db
with_inbox row db = record db { inbox_messages = db.inbox_messages ++ row ∷ [] }

-- The step for an event that is new.
abbrev stepped : Envelope → Action (Unit {0})
stepped e = if is_projected e.event_type then project e else pure tt

stepped-row_of :
    (e : Envelope) (w : World) (id : String)
    → w.tenant ≡ e.tenant_id
    → (str_eq e.application_id id ≡ true → IsOwn e w.view)
    → (stepped e w).0 ≡ ok tt
    → row_of id (stepped e w).1.view ≡ advanced id e (row_of id w.view)
unfolding advanced pure
stepped-row_of e w id tenant own = elim (Bool-cases (is_projected e.event_type)) [
  | inl projected ↦ rw projected (project-row_of e w id tenant own)
  | inr other ↦ rw other (λ stored. refl)
]

committed-continue :
    (r : Result (Unit {0})) (w : World) (b : Bool)
    → (continue r (λ _. commit >>= λ _. pure true) w).0 ≡ ok b
    → (r ≡ ok tt) × ((continue r (λ _. commit >>= λ _. pure true) w).1.durable ≡ w.view)
unfolding ◌>>=◌ commit pure
committed-continue (ok a) w b h = (refl, refl)
committed-continue (err e) w b h = absurd (err-ne-ok h)

committed-step :
    (m : Action (Unit {0})) (w : World) (b : Bool)
    → ((m >>= λ _. commit >>= λ _. pure true) w).0 ≡ ok b
    → ((m w).0 ≡ ok tt) × (((m >>= λ _. commit >>= λ _. pure true) w).1.durable ≡ (m w).1.view)
unfolding ◌>>=◌
committed-step m w b h = committed-continue (m w).0 (m w).1 b h

abbrev InboxIs : List InboxMessageRow → World → Type 0
InboxIs rows w = w.view.inbox_messages ≡ rows

insert_projection-inbox :
    (rows : List InboxMessageRow) (new : StatusProjectionRow)
    → Keeps (InboxIs rows) (insert_projection new)
unfolding insert_projection insert_row
insert_projection-inbox rows new = record {
  at = λ w h. elim (Bool-cases (str_eq new.tenant_id w.tenant)) [
    | inl own ↦
        elim (Bool-cases (any (is_projection_of new.application_id) w.view.status_projection)) [
          | inl taken ↦ rw (own, taken) h
          | inr free ↦ rw (own, free) h
        ]
    | inr foreign ↦ rw foreign h
  ];
}

project_over-inbox :
    (rows : List InboxMessageRow) (new : StatusProjectionRow) (row : Option StatusProjectionRow)
    → Keeps (InboxIs rows) (project_over new row)
unfolding update_projection
project_over-inbox rows new none = insert_projection-inbox rows new
project_over-inbox rows new (some row) =
    Keeps-if _ (update_projection new) (pure tt) (record { at = λ w h. h }) (Keeps-pure tt)

stepped-inbox : (rows : List InboxMessageRow) (e : Envelope) → Keeps (InboxIs rows) (stepped e)
unfolding project
stepped-inbox rows e = search (keeps_rules, project_over-inbox)

-- What a delivery that returns does to the database, seen from the application `id`: nothing if the
-- consumer has the event already, and else the event is kept in the inbox and projected.
pub data Delivers (consumer_name id : String) (e : Envelope) (before after : Db) : Type 0 where
  again :
      is_processed e.event_id consumer_name before ≡ true
      → after ≡ before
      → Delivers consumer_name id e before after
  first :
      (row : InboxMessageRow)
      → is_processed e.event_id consumer_name before ≡ false
      → row.event_id ≡ e.event_id
      → row.consumer_name ≡ consumer_name
      → after.inbox_messages ≡ before.inbox_messages ++ row ∷ []
      → row_of id after ≡ advanced id e (row_of id before)
      → Delivers consumer_name id e before after

abbrev new_row : Env → (consumer_name : String) → Envelope → World → InboxMessageRow
new_row env consumer_name e w = record {
  event_id = e.event_id;
  consumer_name = consumer_name;
  processed_at = env.now_at w.ticks;
}

-- The transaction of a message that is new, after the row of the inbox.
abbrev after_inbox : Env → (consumer_name : String) → Envelope → World → World
after_inbox env consumer_name e w = record w {
  view = with_inbox (new_row env consumer_name e w) w.view;
  ticks = w.ticks + 1;
}

applied-again :
    (env : Env) (consumer_name : String) (e : Envelope) (w : World)
    → is_processed e.event_id consumer_name w.view ≡ true
    → apply_event env e consumer_name w
      ≡ (ok false, record w { view = w.durable; ticks = w.ticks + 1 })
unfolding apply_event now caught insert_inbox ◌>>=◌ pure
applied-again env consumer_name e w seen = rw seen refl

applied-first :
    (env : Env) (consumer_name : String) (e : Envelope) (w : World)
    → is_processed e.event_id consumer_name w.view ≡ false
    → apply_event env e consumer_name w
      ≡ (stepped e >>= λ _. commit >>= λ _. pure true) (after_inbox env consumer_name e w)
unfolding apply_event now caught insert_inbox ◌>>=◌
applied-first env consumer_name e w new = rw new refl

pub consume-Delivers :
    (env : Env) (consumer_name id : String) (e : Envelope) (w : World) (b : Bool)
    → (str_eq e.application_id id ≡ true → IsOwn e w.durable)
    → (consume env consumer_name e w).0 ≡ ok b
    → Delivers consumer_name id e w.durable (consume env consumer_name e w).1.durable
unfolding consume transaction
consume-Delivers env consumer_name id e w b own =
    let start = record w { view = w.durable; tenant = e.tenant_id } in
    let opened = after_inbox env consumer_name e start in
    elim (Bool-cases (is_processed e.event_id consumer_name w.durable)) [
      | inl seen ↦ rw (applied-again env consumer_name e start seen) (λ done. again seen refl)
      | inr new ↦ rw (applied-first env consumer_name e start new) (λ done.
          let (stored, kept) = committed-step (stepped e) opened b done in
          first (new_row env consumer_name e start) new refl refl
            (ap (λ d. d.inbox_messages) kept ∙ (stepped-inbox _ e).at opened refl)
            (ap (row_of id) kept ∙ stepped-row_of e opened id refl own stored))
    ]
