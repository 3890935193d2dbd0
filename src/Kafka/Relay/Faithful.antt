-- ===== src/Kafka/Relay/Faithful.antt =====
-- The outbox against the topic, as the handlers leave it: what is marked as published has been sent.
use loan_credit.Prelude.{
  any, eq_iff, ◌≡◌, refl, sym, ◌∙◌, ap, subst, ℕ, true, false, List, [], ◌∷◌, ◌++◌, map, String,
  arith, ◌⊎◌, inl, inr, Memᴰ, str_eq,
}
use mathlib.Core.List.Memᴰ.{head, tail}
use loan_credit.Domain.Event.{DomainEvent}
use loan_credit.Store.Rows.{Db, OutboxEventRow, AuditEventRow}
use loan_credit.Store.Session.{Env}
use loan_credit.Store.Session.Keeps.{Keeps, Good, keeps_rules, Good-insert_row, Keeps-bind}
use loan_credit.Store.UnitOfWork.{
  outbox_row, insert_outbox, insert_audit, record_event, record_domain_events,
}
use loan_credit.Commands.Closed.{IsClosed}
use loan_credit.Kafka.Envelope.{Envelope, build_envelope}
use loan_credit.Kafka.Relay.{is_unpublished}

-- A row that is marked as published is one whose envelope the topic holds.
abbrev pub IsSent : List Envelope → OutboxEventRow → Type 0
IsSent topic row = (is_unpublished row ≡ true) ⊎ Memᴰ (build_envelope row) topic

-- The outbox against the topic: an id names one event.
pub record IsFaithful (topic : List Envelope) (db : Db) : Type 0 where
  pub sent : (r : OutboxEventRow) → Memᴰ r db.outbox_events → IsSent topic r
  pub one_event :
      (x y : OutboxEventRow)
      → Memᴰ x db.outbox_events
      → Memᴰ y db.outbox_events
      → x.event_id ≡ y.event_id
      → build_envelope x ≡ build_envelope y

Mem-snoc : {A : Type 0} {x : A} (xs : List A) (y : A) → Memᴰ x (xs ++ y ∷ []) → Memᴰ x xs ⊎ (x ≡ y)
Mem-snoc [] y (head is) = inr is
Mem-snoc [] y (tail m) = elim m [ ]
Mem-snoc (z ∷ xs) y (head is) = inl (head is)
Mem-snoc (z ∷ xs) y (tail m) = elim (Mem-snoc xs y m) [ inl k ↦ inl (tail k) | inr is ↦ inr is ]

pub Mem-map :
    {A B : Type 0} {x : B} (f : A → B) (xs : List A)
    → Memᴰ x (map f xs)
    → (y : A) × Memᴰ y xs × (x ≡ f y)
Mem-map f [] m = elim m [ ]
Mem-map f (z ∷ xs) (head is) = (z, head refl, is)
Mem-map f (z ∷ xs) (tail m) = let (y, k, is) = Mem-map f xs m in (y, tail k, is)

pub Mem-last : {A : Type 0} (xs : List A) (x : A) → Memᴰ x (xs ++ x ∷ [])
Mem-last [] x = head refl
Mem-last (y ∷ xs) x = tail (Mem-last xs x)

pub Mem-more : {A : Type 0} {x : A} (xs more : List A) → Memᴰ x xs → Memᴰ x (xs ++ more)
Mem-more [] more m = elim m [ ]
Mem-more (y ∷ xs) more (head is) = head is
Mem-more (y ∷ xs) more (tail m) = tail (Mem-more xs more m)

-- No row has an id that the primary key lets in.
fresh_id :
    (rows : List OutboxEventRow) (event_id : String) (r : OutboxEventRow)
    → any (λ (x : OutboxEventRow). str_eq x.event_id event_id) rows ≡ false
    → Memᴰ r rows
    → r.event_id ≡ event_id
    → ⊥
fresh_id [] event_id r free m is = elim m [ ]
fresh_id (x ∷ rows) event_id r free (head same) is =
    let named =
      (eq_iff x.event_id event_id).1 (ap (λ (y : OutboxEventRow). y.event_id) (sym same) ∙ is) in
    absurd (ground (arith, free, named))
fresh_id (x ∷ rows) event_id r free (tail m) is =
    fresh_id rows event_id r (ground (arith, free)) m is

appended-IsFaithful :
    (topic : List Envelope) (db : Db) (row : OutboxEventRow)
    → is_unpublished row ≡ true
    → any (λ (x : OutboxEventRow). str_eq x.event_id row.event_id) db.outbox_events ≡ false
    → IsFaithful topic db
    → IsFaithful topic (record db { outbox_events = db.outbox_events ++ row ∷ [] })
appended-IsFaithful topic db row new free h = record {
  sent = λ r m. elim (Mem-snoc db.outbox_events row m) [
    | inl old ↦ h.sent r old
    | inr is ↦ inl (subst (λ x. is_unpublished x ≡ true) (sym is) new)
  ];
  one_event = λ x y m k same. elim (Mem-snoc db.outbox_events row m) [
    | inl old ↦ elim (Mem-snoc db.outbox_events row k) [
      | inl old' ↦ h.one_event x y old old' same
      | inr is' ↦ absurd (
          fresh_id db.outbox_events row.event_id x free old
            (same ∙ ap (λ (z : OutboxEventRow). z.event_id) is'))
    ]
    | inr is ↦ elim (Mem-snoc db.outbox_events row k) [
      | inl old' ↦ absurd (
          fresh_id db.outbox_events row.event_id y free old'
            (sym same ∙ ap (λ (z : OutboxEventRow). z.event_id) is))
      | inr is' ↦ ap build_envelope (is ∙ sym is')
    ]
  ];
}

insert_outbox-IsFaithful :
    (topic : List Envelope) (e : DomainEvent) (event_id : String) (created_at : ℕ)
    → Keeps (Good (IsFaithful topic)) (insert_outbox (outbox_row e event_id created_at))
unfolding insert_outbox outbox_row
insert_outbox-IsFaithful topic e event_id created_at =
    Good-insert_row _ _ _ _ (λ db free h. appended-IsFaithful topic db _ refl free h)

unread :
    (topic : List Envelope) (db after : Db)
    → after.outbox_events ≡ db.outbox_events
    → IsFaithful topic db
    → IsFaithful topic after
unread topic db after same h = record {
  sent = λ r m. h.sent r (subst (Memᴰ r) same m);
  one_event = λ x y m k. h.one_event x y (subst (Memᴰ x) same m) (subst (Memᴰ y) same k);
}

insert_audit-IsFaithful :
    (topic : List Envelope) (row : AuditEventRow)
    → Keeps (Good (IsFaithful topic)) (insert_audit row)
unfolding insert_audit
insert_audit-IsFaithful topic row = Good-insert_row _ _ _ _ (λ db free h. unread topic db _ refl h)

record_event-IsFaithful :
    (env : Env) (topic : List Envelope) (e : DomainEvent)
    → Keeps (Good (IsFaithful topic)) (record_event env e)
unfolding record_event
record_event-IsFaithful env topic e =
    search (keeps_rules, insert_outbox-IsFaithful, insert_audit-IsFaithful) depth 8

events-IsFaithful :
    (env : Env) (topic : List Envelope) (es : List DomainEvent)
    → Keeps (Good (IsFaithful topic)) (record_domain_events env es)
unfolding record_domain_events
events-IsFaithful env topic [] = search keeps_rules
events-IsFaithful env topic (e ∷ es) =
    Keeps-bind _ _ (record_event-IsFaithful env topic e) (λ _. events-IsFaithful env topic es)

pub IsFaithful-IsClosed : (env : Env) (topic : List Envelope) → IsClosed env (IsFaithful topic)
IsFaithful-IsClosed env topic = record {
  key_added = λ db row h. unread topic db _ refl h;
  applicant_added = λ db row h. unread topic db _ refl h;
  applications_written = λ db rows h. unread topic db _ refl h;
  version_added = λ db row h. unread topic db _ refl h;
  entry_added = λ db row h. unread topic db _ refl h;
  document_added = λ db row h. unread topic db _ refl h;
  allowing = record {
    run_added = λ db row h. unread topic db _ refl h;
    fact_added = λ db row h. unread topic db _ refl h;
    verification_added = λ db row h. unread topic db _ refl h;
    check_added = λ db row h. unread topic db _ refl h;
    contradiction_added = λ db row h. unread topic db _ refl h;
    snapshot_added = λ db row h. unread topic db _ refl h;
  };
  entries_decided = λ db w id d h. unread topic db _ refl h;
  recording = events-IsFaithful env topic;
}
