-- ===== src/Kafka/Projection/Delivered.antt =====
-- The state of the consumer after a set of events, and how one delivery changes it.
use loan_credit.Prelude.{
  ◌≡◌, refl, sym, ◌∙◌, ap, subst, ℕ, ◌≤◌, true, false, some, [], ◌∷◌, ◌++◌, String, any, any-append,
  find-eq-some, str_eq, str_eq→eq, Bool-cases, ◌⊎◌, inl, inr, arith,
}
use loan_credit.Store.Rows.{Db, InboxMessageRow, StatusProjectionRow}
use loan_credit.Kafka.Envelope.{Envelope}
use loan_credit.Kafka.Projection.{told, is_inbox_key, is_projection_of}
use loan_credit.Kafka.Projection.Row.{row_of, advanced}
use loan_credit.Kafka.Projection.Delivery.{is_processed, Delivers, again, first}
use loan_credit.Kafka.Projection.Merge.{Tells, IsTold, SameCase, Moves, advanced-Moves}

-- The inbox and the projection of an application after the events of `Seen` have been delivered.
pub record Reflects (consumer_name id tenant : String) (Seen : Envelope → Type 0) (db : Db)
    : Type 0 where
  pub from_event :
      (r : StatusProjectionRow) → row_of id db ≡ some r → (e : Envelope) × Seen e × IsTold id e r
  pub owned : (r : StatusProjectionRow) → row_of id db ≡ some r → r.tenant_id ≡ tenant
  pub reached :
      (e : Envelope) (seen : String × ℕ)
      → Seen e
      → Tells id e seen
      → (r : StatusProjectionRow) × (row_of id db ≡ some r) × (seen.1 ≤ r.version)
  pub processed :
      (event_id : String)
      → is_processed event_id consumer_name db ≡ true
      → (e : Envelope) × Seen e × (e.event_id ≡ event_id)

relevant_own :
    (id : String) (e : Envelope) {seen : String × ℕ}
    → Tells id e seen
    → str_eq e.application_id id ≡ true
relevant_own id e tells = ground (arith, tells.relevant)

key_of_last :
    (consumer_name event_id : String) (db after : Db) (row : InboxMessageRow)
    → after.inbox_messages ≡ db.inbox_messages ++ row ∷ []
    → is_processed event_id consumer_name after ≡ true
    → is_processed event_id consumer_name db ≡ false
    → str_eq row.event_id event_id ≡ true
key_of_last consumer_name event_id db after row inbox is new =
    let split =
      sym (any-append (is_inbox_key event_id consumer_name) db.inbox_messages (row ∷ []))
      ∙ (ap (any (is_inbox_key event_id consumer_name)) (sym inbox) ∙ is) in
    ground (arith, split, new)

module _ {consumer_name id tenant : String} where
  pub Reflects-same :
      {P Q : Envelope → Type 0} (db : Db)
      → ((e : Envelope) → P e → Q e)
      → ((e : Envelope) → Q e → P e)
      → Reflects consumer_name id tenant P db
      → Reflects consumer_name id tenant Q db
  Reflects-same db to back h = record {
    from_event = λ r present. let (e, seen, told) = h.from_event r present in (e, to e seen, told);
    owned = h.owned;
    reached = λ e seen was. h.reached e seen (back e was);
    processed =
        λ event_id is. let (e, seen, same) = h.processed event_id is in (e, to e seen, same);
  }

  -- The case of a message of the application itself.
  own_case :
      {Seen : Envelope → Type 0} (e : Envelope) (db : Db)
      → Reflects consumer_name id tenant Seen db
      → (str_eq e.application_id id ≡ true → e.tenant_id ≡ tenant)
      → str_eq e.application_id id ≡ true
      → SameCase e (row_of id db)
  own_case e db h of_tenant is r present = (
    str_eq→eq r.application_id id
          (find-eq-some (is_projection_of id) db.status_projection r present)
        ∙ sym (str_eq→eq e.application_id id is),
    h.owned r present ∙ sym (of_tenant is),
  )

  after_first :
      {Seen : Envelope → Type 0} (e : Envelope) (db after : Db) (row : InboxMessageRow)
      → row.event_id ≡ e.event_id
      → after.inbox_messages ≡ db.inbox_messages ++ row ∷ []
      → row_of id after ≡ advanced id e (row_of id db)
      → (str_eq e.application_id id ≡ true → e.tenant_id ≡ tenant)
      → Reflects consumer_name id tenant Seen db
      → Reflects consumer_name id tenant (λ x. (x ≡ e) ⊎ Seen x) after
  after_first {Seen = Seen} e db after row named inbox projected of_tenant h =
      let moves =
        subst (Moves id e (row_of id db)) (sym projected)
          (advanced-Moves id e (row_of id db) (own_case e db h of_tenant)) in
      record {
        from_event = λ r present. elim (moves.origin r present) [
          | inl kept ↦ let (x, seen, told) = h.from_event r kept in (x, inr seen, told)
          | inr told ↦ (e, inl refl, told)
        ];
        owned = λ r present. elim (moves.origin r present) [
          | inl kept ↦ h.owned r kept
          | inr told ↦
              ap (λ (x : StatusProjectionRow). x.tenant_id) told.same
              ∙ of_tenant (relevant_own id e told.tells)
        ];
        reached = λ x seen was tells. elim was [
          | inl same ↦ moves.covers seen (subst (λ y. Tells id y seen) same tells)
          | inr before ↦
              let (r, present, le) = h.reached x seen before tells in
              let (r', present', grown) = moves.grows r present in
              (r', present', omega (arith, le, grown))
        ];
        processed = λ event_id is. elim (Bool-cases (is_processed event_id consumer_name db)) [
          | inl old ↦ let (x, seen, same) = h.processed event_id old in (x, inr seen, same)
          | inr new ↦ (
            e,
            inl refl,
            sym named
                ∙ str_eq→eq row.event_id event_id
                    (key_of_last consumer_name event_id db after row inbox is new),
          )
        ];
      }

  -- One delivery of an event whose id is its own.
  pub after_delivery :
      {Seen : Envelope → Type 0} (e : Envelope) (db after : Db)
      → ((x : Envelope) → Seen x → x.event_id ≡ e.event_id → x ≡ e)
      → (str_eq e.application_id id ≡ true → e.tenant_id ≡ tenant)
      → Reflects consumer_name id tenant Seen db
      → Delivers consumer_name id e db after
      → Reflects consumer_name id tenant (λ x. (x ≡ e) ⊎ Seen x) after
  after_delivery {Seen = Seen} e db after one_event of_tenant h (again seen same) =
      let (x, was, named) = h.processed e.event_id seen in
      subst (Reflects consumer_name id tenant (λ x. (x ≡ e) ⊎ Seen x)) (sym same) (
        Reflects-same db (λ y s. inr s)
          (λ y s. elim s [ inl is ↦ subst Seen (one_event x was named ∙ sym is) was | inr s ↦ s ])
          h)
  after_delivery e db after one_event of_tenant h (first row new named consumer inbox projected) =
      after_first e db after row named inbox projected of_tenant h
