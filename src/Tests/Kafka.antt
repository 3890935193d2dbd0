-- ===== src/Tests/Kafka.antt =====
-- The relay and the projection consumer on the events of the scenario's case.
use loan_credit.Prelude.{
  ℕ, ◌≡◌, refl, none, List, [], ◌∷◌, String, ◌≤◌, arith, Memᴰ, inl, inr, if◌then◌else◌, sym, ap,
  ◌↔◌, ◌∙◌, eq_iff, ◌⊎◌, map, str_eq,
}
use mathlib.Core.Bool.{true≢false}
use mathlib.Core.List.Memᴰ.{head, tail}
use loan_credit.Domain.Error.{ok, err, ok-injective, timeout_error}
use loan_credit.Store.Rows.{Payload, Json, OutboxEventRow, StatusProjectionRow}
use loan_credit.Store.Session.{World}
use loan_credit.Commands.Handlers.{handle}
use loan_credit.Kafka.Envelope.{Envelope}
use loan_credit.Kafka.Relay
use loan_credit.Kafka.Relay.{Pipe, Producer, relay_tenant_batch, unpublished_backlog_size}
use loan_credit.Kafka.Relay.Drains.{relay_drains, sweeps}
use loan_credit.Kafka.Relay.Faithful.{IsSent}
use loan_credit.Store.UnitOfWork.{outbox_row}
use loan_credit.Domain.Event.{document_uploaded}
use loan_credit.Kafka.Relay.Sent.{here, serve, relay, no_event_is_lost}
use loan_credit.Kafka.Projection
use loan_credit.Kafka.Projection.{consume_all, told, projection_row}
use loan_credit.Kafka.Projection.Row.{row_of}
use loan_credit.Kafka.Projection.Converges.{
  consume_all-IsLatest, order_is_irrelevant, IsFresh, AreEvents, IsLatest, VersionsAgree,
}
use loan_credit.Tests.Scenario.{env, app, apply_for, sent, seeded, in_review, everything}

abbrev taking : Producer
taking key e = ok tt

abbrev pipe : Pipe
pipe = record {
  world = record in_review { durable = record in_review.durable { tenants = "t1" ∷ [] } };
  topic = [];
}

-- One message a sweep.
abbrev after_sweeps : ℕ → Pipe
after_sweeps n = sweeps env taking 1 n pipe

-- What unfolds this computes sweeps.
unfoldable relaying : Unit {0}
unfolding everything sweeps Relay.relay_once Relay.relay_tenants Relay.relay_tenant_batch
    Relay.publish_rows Relay.mark_published Relay.batch_of Relay.limit Relay.order_by_age
    Relay.insert_by_age Relay.unpublished_backlog_size Relay.backlog_of
relaying = tt

relayed_two :
    map (λ (e : Envelope). e.event_type) (after_sweeps 2).topic
    ≡ "ApplicationCreated" ∷ "ApplicationStateChanged" ∷ []
unfolding relaying
relayed_two = refl

small : unpublished_backlog_size pipe.world ≤ 10
unfolding relaying
small = omega arith

relay_drains_example :
    ((n : ℕ) × ((Relay.relay_once env taking 1 pipe).0 ≡ ok n))
    × (unpublished_backlog_size (sweeps env taking 1 10 pipe).world ≡ 0)
relay_drains_example = relay_drains env taking 1 10 pipe (λ key e. refl) (omega arith) small

-- A broker that takes what is said of a creation, and nothing else.
abbrev picky : Producer
picky key e = if str_eq e.event_type "ApplicationCreated" then ok tt else err timeout_error

abbrev fresh_pipe : Pipe
fresh_pipe = record { world = seeded; topic = [] }

abbrev created_pipe : Pipe
created_pipe = record { world = (handle env none apply_for seeded).1; topic = [] }

abbrev relayed_pipe : Pipe
relayed_pipe = (relay_tenant_batch env taking 5 "t1" created_pipe).1

abbrev resent_pipe : Pipe
resent_pipe =
    (relay_tenant_batch env picky 5 "t1"
      (record relayed_pipe { world = (handle env none sent relayed_pipe.world).1 })).1

abbrev first_row : World → OutboxEventRow → OutboxEventRow
first_row w default = elim w.durable.outbox_events [ [] ↦ default | row ∷ rows ↦ row ]

abbrev event : (event_id event_type : String) → Payload → Envelope
event event_id event_type payload = record {
  event_id = event_id;
  event_type = event_type;
  schema_version = 1;
  occurred_at = 7;
  producer = "finassist-api";
  tenant_id = "t1";
  application_id = app;
  correlation_id = none;
  causation_id = none;
  traceparent = none;
  data_classification = "internal";
  payload = payload;
}

abbrev made : Envelope
made = event "e1" "ApplicationCreated" []

abbrev moved : Envelope
moved =
    event "e2" "ApplicationStateChanged"
      (("new_status", Json.text "SUBMITTED") ∷ ("version", Json.number 2) ∷ [])

abbrev backwards : List Envelope
backwards = moved ∷ made ∷ []

abbrev repeated : List Envelope
repeated = made ∷ moved ∷ made ∷ []

-- What unfolds this computes deliveries.
unfoldable delivering : Unit {0}
unfolding everything consume_all Projection.consume Projection.apply_event Projection.project
    Projection.update_projection Projection.insert_projection Projection.find_projection
    Projection.insert_inbox told
delivering = tt

delivered_backwards : (consume_all env "g" backwards seeded).0 ≡ ok tt
unfolding delivering
delivered_backwards = refl

delivered_repeated : (consume_all env "g" repeated seeded).0 ≡ ok tt
unfolding delivering
delivered_repeated = refl

projected_submitted :
    map
      (λ (r : StatusProjectionRow). r.status)
      (consume_all env "g" repeated seeded).1.durable.status_projection
    ≡ "SUBMITTED" ∷ []
unfolding delivering
projected_submitted = refl

seeded-IsFresh : IsFresh "g" app seeded.durable
seeded-IsFresh = record { no_inbox = λ event_id. refl; no_row = refl }

-- Two events with ids of their own.
backwards-cases : (x : Envelope) → Memᴰ x backwards → (x ≡ moved) ⊎ (x ≡ made)
backwards-cases x (head is) = inl is
backwards-cases x (tail (head is)) = inr is
backwards-cases x (tail (tail m)) = elim m [ ]

distinct : (x y : Envelope) → x ≡ moved → y ≡ made → x.event_id ≡ y.event_id → ⊥
distinct x y is is' same =
    let id : Envelope → String = λ e. e.event_id in
    true≢false (sym ((eq_iff "e2" "e1").1 (ap id (sym is) ∙ (same ∙ ap id is'))))

backwards-AreEvents : AreEvents app "t1" (λ x. Memᴰ x backwards)
backwards-AreEvents = record {
  one_event = λ x y m k same. elim (backwards-cases x m) [
    | inl is ↦ elim (backwards-cases y k) [
      | inl is' ↦ is ∙ sym is'
      | inr is' ↦ absurd (distinct x y is is' same)
    ]
    | inr is ↦ elim (backwards-cases y k) [
      | inl is' ↦ absurd (distinct y x is' is (sym same))
      | inr is' ↦ is ∙ sym is'
    ]
  ];
  of_tenant = λ x m own. elim (backwards-cases x m) [
    | inl is ↦ ap (λ (e : Envelope). e.tenant_id) is
    | inr is ↦ ap (λ (e : Envelope). e.tenant_id) is
  ];
}

consume_all-IsLatest_example :
    IsLatest app backwards (row_of app (consume_all env "g" backwards seeded).1.durable)
consume_all-IsLatest_example =
    consume_all-IsLatest env "g" app "t1" backwards seeded backwards-AreEvents seeded-IsFresh
      delivered_backwards

told-moved : told moved ≡ ok ("SUBMITTED", 2)
unfolding told
told-moved = refl

told-made : told made ≡ ok ("DRAFT", 1)
unfolding told
told-made = refl

same_reading :
    (x y : Envelope) (seen other : String × ℕ)
    → x ≡ y
    → told x ≡ ok seen
    → told y ≡ ok other
    → projection_row x seen ≡ projection_row y other
same_reading x y seen other is h k =
    let same : seen ≡ other = ok-injective (sym h ∙ (ap told is ∙ k)) in rw is (rw same refl)

differ :
    (x y : Envelope) (seen other : String × ℕ)
    → x ≡ moved
    → y ≡ made
    → told x ≡ ok seen
    → told y ≡ ok other
    → seen.1 ≡ other.1
    → ⊥
differ x y seen other is is' h k same =
    let two =
      ap (λ (s : String × ℕ). s.1) (ok-injective (sym told-moved ∙ (ap told (sym is) ∙ h))) in
    let one =
      ap (λ (s : String × ℕ). s.1) (ok-injective (sym told-made ∙ (ap told (sym is') ∙ k))) in
    omega (arith, two, one, same)

backwards-VersionsAgree : VersionsAgree app backwards
backwards-VersionsAgree x y seen other m k tells tells' same = elim (backwards-cases x m) [
  | inl is ↦ elim (backwards-cases y k) [
    | inl is' ↦ same_reading x y seen other (is ∙ sym is') tells.reading tells'.reading
    | inr is' ↦ absurd (differ x y seen other is is' tells.reading tells'.reading same)
  ]
  | inr is ↦ elim (backwards-cases y k) [
    | inl is' ↦ absurd (differ y x other seen is' is tells'.reading tells.reading (sym same))
    | inr is' ↦ same_reading x y seen other (is ∙ sym is') tells.reading tells'.reading
  ]
]

same_events : (x : Envelope) → Memᴰ x backwards ↔ Memᴰ x repeated
same_events x = (
  λ m. elim (backwards-cases x m) [ inl is ↦ tail (head is) | inr is ↦ head is ],
  λ m. elim m [
    | head is ↦ tail (head is)
    | tail (head is) ↦ head is
    | tail (tail (head is)) ↦ tail (head is)
    | tail (tail (tail n)) ↦ elim n [ ]
  ],
)

order_is_irrelevant_example :
    row_of app (consume_all env "g" backwards seeded).1.durable
    ≡ row_of app (consume_all env "g" repeated seeded).1.durable
order_is_irrelevant_example =
    order_is_irrelevant env env "g" app "t1" backwards repeated seeded seeded backwards-AreEvents
      backwards-VersionsAgree same_events seeded-IsFresh seeded-IsFresh delivered_backwards
      delivered_repeated

abbrev resent_row : OutboxEventRow
resent_row = first_row resent_pipe.world (
    outbox_row
      (record {
        application_id = app;
        tenant_id = "t1";
        occurred_at = 0;
        body = document_uploaded "d" "payslip" "k";
      })
      "e" 0)

resent_row-mem : Memᴰ resent_row resent_pipe.world.durable.outbox_events
unfolding relaying outbox_row
resent_row-mem = head refl

no_event_is_lost_example : IsSent resent_pipe.topic resent_row
no_event_is_lost_example =
    no_event_is_lost {env = env} {runner = none} {p = fresh_pipe} refl refl
      (relay picky 5 "t1" (serve sent (relay taking 5 "t1" (serve apply_for here)))) resent_row
      resent_row-mem
