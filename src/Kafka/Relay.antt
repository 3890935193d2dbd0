-- ===== src/Kafka/Relay.antt =====
-- finassist/infrastructure/kafka/outbox_relay.py: the sweep that publishes the outbox, and the size of
-- what is still to be published. The broker is a parameter: whether it takes a message. A row of a
-- tenant that another relay has locked would be skipped; one relay runs here.
pub mod Faithful
pub mod Sent
pub mod Backlog
pub mod Drains
use loan_credit.Prelude.{
  ℕ, zero, suc, ◌+◌, Bool, true, false, ◌&&◌, Option, none, some, List, [], ◌∷◌, ◌++◌, map, String,
  filter, length, leb, str_eq, if◌then◌else◌,
}
use loan_credit.Domain.Error.{Error, Result, ok, err}
use loan_credit.Store.Rows.{Db, OutboxEventRow}
use loan_credit.Store.Session.{Env, World, visible}
use loan_credit.Kafka.Envelope.{Envelope, build_envelope}

-- `producer.publish`: it returns once the broker has the message, or raises.
abbrev pub Producer : Type 0
Producer = (key : String) → Envelope → Result (Unit {0})

-- The database's state and the messages that the topic holds.
pub record Pipe : Type 0 where
  pub world : World
  pub topic : List Envelope

abbrev pub is_unpublished : OutboxEventRow → Bool
is_unpublished row = elim row.published_at [ none ↦ true | some at ↦ false ]

abbrev pub is_waiting : World → (tenant_id : String) → OutboxEventRow → Bool
is_waiting w tenant_id row =
    str_eq row.tenant_id tenant_id && is_unpublished row && visible w row.tenant_id

-- `order_by(created_at)`, those of the same instant in the order of insertion.
unfoldable pub insert_by_age : OutboxEventRow → List OutboxEventRow → List OutboxEventRow
insert_by_age row [] = row ∷ []
insert_by_age row (r ∷ rs) =
    let rest = insert_by_age row rs in
    if leb row.created_at r.created_at then row ∷ r ∷ rs else r ∷ rest

unfoldable pub order_by_age : List OutboxEventRow → List OutboxEventRow
order_by_age [] = []
order_by_age (row ∷ rows) = insert_by_age row (order_by_age rows)

unfoldable pub limit : ℕ → List OutboxEventRow → List OutboxEventRow
limit zero rows = []
limit (suc n) [] = []
limit (suc n) (row ∷ rows) = row ∷ limit n rows

unfoldable pub batch_of : (tenant_id : String) → (batch_size : ℕ) → World → List OutboxEventRow
batch_of tenant_id batch_size w =
    limit batch_size (order_by_age (filter (is_waiting w tenant_id) w.view.outbox_events))

-- `row.published_at = datetime.now(UTC)`, written back by the row's key.
abbrev pub mark : World → (at : ℕ) → OutboxEventRow → OutboxEventRow → OutboxEventRow
mark w at row r =
    if str_eq r.event_id row.event_id && visible w r.tenant_id
    then record r { published_at = some at }
    else r

unfoldable pub mark_published : Env → OutboxEventRow → World → World
mark_published env row w = record w {
  view = record w.view {
    outbox_events = map (mark w (env.now_at w.ticks) row) w.view.outbox_events;
  };
  ticks = w.ticks + 1;
}

-- The loop over the rows of a batch; an exception of the producer ends it.
abbrev pub after_publish :
    Env → OutboxEventRow → Result (Unit {0}) → Pipe → Result (Unit {0}) × Pipe
after_publish env row (err e) p = (err e, p)
after_publish env row (ok _) p = (
  ok tt,
  record { world = mark_published env row p.world; topic = p.topic ++ build_envelope row ∷ [] },
)

abbrev pub then_rows :
    Result (Unit {0}) × Pipe → (Pipe → Result (Unit {0}) × Pipe) → Result (Unit {0}) × Pipe
then_rows (err e, p) next = (err e, p)
then_rows (ok _, p) next = next p

unfoldable pub publish_rows : Env → Producer → List OutboxEventRow → Pipe → Result (Unit {0}) × Pipe
publish_rows env producer [] p = (ok tt, p)
publish_rows env producer (row ∷ rows) p =
    then_rows (after_publish env row (producer row.aggregate_id (build_envelope row)) p)
      (publish_rows env producer rows)

-- The session is opened for the tenant, and closed with what was committed.
abbrev pub opened : String → World → World
opened tenant_id w = record w { view = w.durable; tenant = tenant_id }

abbrev pub closed_with : ℕ → Result (Unit {0}) × Pipe → Result ℕ × Pipe
closed_with published (err e, p) =
    (err e, record p { world = record p.world { view = p.world.durable } })
closed_with published (ok _, p) =
    (ok published, record p { world = record p.world { durable = p.world.view } })

-- `_relay_tenant_batch`
unfoldable pub relay_tenant_batch :
    Env → Producer → (batch_size : ℕ) → (tenant_id : String) → Pipe → Result ℕ × Pipe
relay_tenant_batch env producer batch_size tenant_id p =
    let w = opened tenant_id p.world in
    let rows = batch_of tenant_id batch_size w in
    closed_with (length rows) (publish_rows env producer rows (record p { world = w }))

abbrev pub add_to : ℕ → Result ℕ × Pipe → (ℕ → Pipe → Result ℕ × Pipe) → Result ℕ × Pipe
add_to total (err e, p) next = (err e, p)
add_to total (ok n, p) next = next (total + n) p

unfoldable pub relay_tenants :
    Env → Producer → (batch_size : ℕ) → List String → (total : ℕ) → Pipe → Result ℕ × Pipe
relay_tenants env producer batch_size [] total p = (ok total, p)
relay_tenants env producer batch_size (tenant_id ∷ tenants) total p =
    add_to total (relay_tenant_batch env producer batch_size tenant_id p)
      (relay_tenants env producer batch_size tenants)

-- `relay_once`
unfoldable pub relay_once : Env → Producer → (batch_size : ℕ) → Pipe → Result ℕ × Pipe
relay_once env producer batch_size p =
    relay_tenants env producer batch_size p.world.durable.tenants 0 p

-- The committed rows of a tenant that are still to be published.
unfoldable pub backlog_of : World → String → ℕ
backlog_of w tenant_id =
    let session = opened tenant_id w in
    length (filter (is_waiting session tenant_id) session.view.outbox_events)

abbrev pub sum_over : List String → (String → ℕ) → ℕ
sum_over [] size = 0
sum_over (t ∷ ts) size = size t + sum_over ts size

-- `unpublished_backlog_size`
unfoldable pub unpublished_backlog_size : World → ℕ
unpublished_backlog_size w = sum_over w.durable.tenants (backlog_of w)
