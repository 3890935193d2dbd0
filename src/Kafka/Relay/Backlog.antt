-- ===== src/Kafka/Relay/Backlog.antt =====
-- How many rows of a tenant wait to be published, before and after a batch.
use loan_credit.Prelude.{
  ◌≡◌, refl, sym, ◌∙◌, ap, subst, ℕ, zero, suc, ◌-◌, ◌≤◌, ◌<◌, Bool, true, List, [], ◌∷◌, ◌++◌, map,
  String, filter, length, Memᴰ, leb, str_eq, eq_refl, Bool-cases, ◌⊎◌, inl, inr, arith,
}
use mathlib.Core.List.Memᴰ.{head, tail}
use loan_credit.Domain.Error.{ok}
use loan_credit.Store.Rows.{OutboxEventRow}
use loan_credit.Store.Session.{Env, World}
use loan_credit.Kafka.Envelope.{Envelope, build_envelope}
use loan_credit.Kafka.Relay.{
  Producer, Pipe, is_waiting, insert_by_age, order_by_age, limit, batch_of, mark, mark_published,
  publish_rows,
}

abbrev pub waiting : World → String → List OutboxEventRow → ℕ
waiting w tenant_id rows = length (filter (is_waiting w tenant_id) rows)

module _ (w v : World) (tenant_id : String) where
  -- Marking a row, in any session, leaves no more rows that wait.
  marked-le :
      (at : ℕ) (row : OutboxEventRow) (rows : List OutboxEventRow)
      → waiting w tenant_id (map (mark v at row) rows) ≤ waiting w tenant_id rows
  marked-le at row [] = omega arith
  marked-le at row (r ∷ rows) = ground (arith, marked-le at row rows)

-- Marking a row that waits leaves fewer.
pub marked-lt :
    (w : World) (tenant_id : String) (at : ℕ) (row : OutboxEventRow) (rows : List OutboxEventRow)
    → Memᴰ row rows
    → is_waiting w tenant_id row ≡ true
    → waiting w tenant_id (map (mark w at row) rows) < waiting w tenant_id rows
marked-lt w tenant_id at row [] m waits = elim m [ ]
marked-lt w tenant_id at row (r ∷ rows) (head is) waits =
    let found = subst (λ x. is_waiting w tenant_id x ≡ true) is waits in
    let less = marked-le w w tenant_id at row rows in
    let hit =
      subst (λ i. str_eq i row.event_id ≡ true) (ap (λ (x : OutboxEventRow). x.event_id) is)
        (eq_refl row.event_id) in
    ground (arith, found, less, hit)
marked-lt w tenant_id at row (r ∷ rows) (tail m) waits =
    ground (arith, marked-lt w tenant_id at row rows m waits)

filter-mem :
    {A : Type 0} (q : A → Bool) (xs : List A) (x : A)
    → Memᴰ x (filter q xs)
    → Memᴰ x xs × (q x ≡ true)
filter-mem q [] x = λ m. elim m [ ]
filter-mem q (y ∷ xs) x = elim (Bool-cases (q y)) [
  | inl passes ↦ rw passes λ m. elim m [
    | head is ↦ (head is, subst (λ z. q z ≡ true) (sym is) passes)
    | tail k ↦ (tail (filter-mem q xs x k).0, (filter-mem q xs x k).1)
  ]
  | inr fails ↦ rw fails λ m. (tail (filter-mem q xs x m).0, (filter-mem q xs x m).1)
]

insert-mem :
    (row : OutboxEventRow) (rows : List OutboxEventRow) (x : OutboxEventRow)
    → Memᴰ x (insert_by_age row rows)
    → Memᴰ x (row ∷ rows)
unfolding insert_by_age
insert-mem row [] x = λ m. m
insert-mem row (r ∷ rows) x = elim (Bool-cases (leb row.created_at r.created_at)) [
  | inl older ↦ rw older λ m. m
  | inr newer ↦ rw newer λ m. elim m [
    | head is ↦ tail (head is)
    | tail k ↦ elim (insert-mem row rows x k) [ head is ↦ head is | tail l ↦ tail (tail l) ]
  ]
]

insert-length :
    (row : OutboxEventRow) (rows : List OutboxEventRow)
    → length (insert_by_age row rows) ≡ suc (length rows)
unfolding insert_by_age
insert-length row [] = refl
insert-length row (r ∷ rows) = ground (arith, insert-length row rows)

order-mem :
    (rows : List OutboxEventRow) (x : OutboxEventRow) → Memᴰ x (order_by_age rows) → Memᴰ x rows
unfolding order_by_age
order-mem [] x m = m
order-mem (row ∷ rows) x m = elim (insert-mem row (order_by_age rows) x m) [
  | head is ↦ head is
  | tail m ↦ tail (order-mem rows x m)
]

order-length : (rows : List OutboxEventRow) → length (order_by_age rows) ≡ length rows
unfolding order_by_age
order-length [] = refl
order-length (row ∷ rows) = insert-length row (order_by_age rows) ∙ ap suc (order-length rows)

abbrev Heads : (n : ℕ) (P : OutboxEventRow → Type 0) → List OutboxEventRow → Type 0
Heads n P o =
    (length o ≡ 0)
    ⊎ ((row : OutboxEventRow) × (rows : List OutboxEventRow) × (limit (suc n) o ≡ row ∷ rows)
        × P row)

first_of :
    (n : ℕ) (P : OutboxEventRow → Type 0) (o : List OutboxEventRow)
    → ((x : OutboxEventRow) → Memᴰ x o → P x)
    → Heads n P o
unfolding limit
first_of n P [] all = inl refl
first_of n P (row ∷ rows) all = inr (row, limit n rows, refl, all row (head refl))

-- A row of the outbox that waits to be published.
abbrev pub IsWaitingRow : World → String → OutboxEventRow → Type 0
IsWaitingRow w tenant_id row = Memᴰ row w.view.outbox_events × (is_waiting w tenant_id row ≡ true)

-- A batch that may hold a row starts with one that waits, unless none does.
pub batch-head :
    (tenant_id : String) (n : ℕ) (w : World)
    → (waiting w tenant_id w.view.outbox_events ≡ 0)
      ⊎ ((row : OutboxEventRow) × (rows : List OutboxEventRow) × (batch_of tenant_id (suc n) w
            ≡ row ∷ rows)
          × IsWaitingRow w tenant_id row)
unfolding batch_of
batch-head tenant_id n w =
    let found = filter (is_waiting w tenant_id) w.view.outbox_events in
    elim (first_of n (IsWaitingRow w tenant_id) (order_by_age found)
      (λ x m. filter-mem (is_waiting w tenant_id) w.view.outbox_events x (order-mem found x m))) [
        | inl nothing ↦ inl (sym (order-length found) ∙ nothing)
        | inr there_is ↦ inr there_is
      ]

limit-mem :
    (n : ℕ) (rows : List OutboxEventRow) (x : OutboxEventRow) → Memᴰ x (limit n rows) → Memᴰ x rows
unfolding limit
limit-mem zero rows x m = elim m [ ]
limit-mem (suc n) [] x m = elim m [ ]
limit-mem (suc n) (row ∷ rows) x (head is) = head is
limit-mem (suc n) (row ∷ rows) x (tail m) = tail (limit-mem n rows x m)

-- The rows of a batch are rows of the outbox.
pub batch-mem :
    (tenant_id : String) (batch_size : ℕ) (w : World) (x : OutboxEventRow)
    → Memᴰ x (batch_of tenant_id batch_size w)
    → Memᴰ x w.view.outbox_events
unfolding batch_of
batch-mem tenant_id batch_size w x m =
    let found = filter (is_waiting w tenant_id) w.view.outbox_events in
    (filter-mem (is_waiting w tenant_id) w.view.outbox_events x
      (order-mem found x (limit-mem batch_size (order_by_age found) x m))).0

abbrev pub Accepts : Producer → Type 0
Accepts producer = (key : String) (e : Envelope) → producer key e ≡ ok tt

abbrev pub published : Env → OutboxEventRow → Pipe → Pipe
published env row p = record {
  world = mark_published env row p.world;
  topic = p.topic ++ build_envelope row ∷ [];
}

module _ (env : Env) (producer : Producer) (accepts : Accepts producer) where
  publish-nil : (p : Pipe) → publish_rows env producer [] p ≡ (ok tt, p)
  unfolding publish_rows
  publish-nil p = refl

  pub publish-cons :
      (row : OutboxEventRow) (rows : List OutboxEventRow) (p : Pipe)
      → publish_rows env producer (row ∷ rows) p
        ≡ publish_rows env producer rows (published env row p)
  unfolding publish_rows
  publish-cons row rows p = rw (accepts row.aggregate_id (build_envelope row)) refl

  pub publish-ok :
      (rows : List OutboxEventRow) (p : Pipe) → (publish_rows env producer rows p).0 ≡ ok tt
  unfolding publish_rows
  publish-ok [] p = refl
  publish-ok (row ∷ rows) p = rw (accepts row.aggregate_id (build_envelope row)) (publish-ok rows _)

  abbrev left_after : World → String → List OutboxEventRow → Pipe → ℕ
  left_after w tenant_id rows p =
      waiting w tenant_id (publish_rows env producer rows p).1.world.view.outbox_events

  pub publish-le :
      (w : World) (tenant_id : String) (rows : List OutboxEventRow) (p : Pipe)
      → left_after w tenant_id rows p ≤ waiting w tenant_id p.world.view.outbox_events
  unfolding mark_published
  publish-le w tenant_id [] p = rw (publish-nil p) (omega arith)
  publish-le w tenant_id (row ∷ rows) p = rw (publish-cons row rows p) (
      omega (
        arith,
        publish-le w tenant_id rows (published env row p),
        marked-le w p.world tenant_id (env.now_at p.world.ticks) row p.world.view.outbox_events,
      ))

  -- A batch of at least one row leaves fewer, unless none waits.
  pub batch-lt :
      (tenant_id : String) (n : ℕ) (p : Pipe)
      → left_after p.world tenant_id (batch_of tenant_id (suc n) p.world) p
        ≤ waiting p.world tenant_id p.world.view.outbox_events - 1
  unfolding mark_published
  batch-lt tenant_id n p = elim (batch-head tenant_id n p.world) [
    | inl nothing ↦
        omega (arith, nothing, publish-le p.world tenant_id (batch_of tenant_id (suc n) p.world) p)
    | inr (row, rows, is, (m, waits)) ↦
        rw (is, publish-cons row rows p)
          (omega (
            arith,
            publish-le p.world tenant_id rows (published env row p),
            marked-lt p.world tenant_id (env.now_at p.world.ticks) row p.world.view.outbox_events m
                waits,
          ))
  ]
