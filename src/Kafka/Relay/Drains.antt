-- ===== src/Kafka/Relay/Drains.antt =====
-- Sweeps of the relay against a broker that takes every message.
use loan_credit.Prelude.{
  ◌≡◌, refl, ◌∙◌, ap, ℕ, zero, suc, ◌-◌, ◌≤◌, length, List, [], ◌∷◌, String, arith, Memᴰ,
}
use mathlib.Core.List.Memᴰ.{head, tail}
use loan_credit.Domain.Error.{Result, ok, err}
use loan_credit.Store.Rows.{OutboxEventRow}
use loan_credit.Store.Session.{Env}
use loan_credit.Kafka.Envelope.{build_envelope}
use loan_credit.Kafka.Relay.{
  Producer, Pipe, batch_of, mark_published, publish_rows, opened, closed_with, relay_tenant_batch,
  relay_tenants, relay_once, backlog_of, sum_over, unpublished_backlog_size,
}
use loan_credit.Kafka.Relay.Backlog.{Accepts, publish-ok, published, publish-le, batch-lt}

-- What is committed once every row of a batch is published.
abbrev settled : Pipe → Pipe
settled p = record p { world = record p.world { durable = p.world.view } }

closed-ok :
    (n : ℕ) (r : Result (Unit {0})) (p : Pipe)
    → r ≡ ok tt
    → closed_with n (r, p) ≡ (ok n, settled p)
closed-ok n (ok a) p h = refl
closed-ok n (err e) p h = cc

module _ (env : Env) (producer : Producer) (accepts : Accepts producer) where
  abbrev started : String → Pipe → Pipe
  started tenant_id p = record p { world = opened tenant_id p.world }

  abbrev rows_of : (batch_size : ℕ) → String → Pipe → List OutboxEventRow
  rows_of batch_size tenant_id p = batch_of tenant_id batch_size (opened tenant_id p.world)

  abbrev after_batch : (batch_size : ℕ) → String → Pipe → Pipe
  after_batch batch_size tenant_id p =
      settled (publish_rows env producer (rows_of batch_size tenant_id p) (started tenant_id p)).1

  batch-ok :
      (batch_size : ℕ) (tenant_id : String) (p : Pipe)
      → relay_tenant_batch env producer batch_size tenant_id p
        ≡ (ok (length (rows_of batch_size tenant_id p)), after_batch batch_size tenant_id p)
  unfolding relay_tenant_batch
  batch-ok batch_size tenant_id p =
      closed-ok _ _ _
        (publish-ok env producer accepts (rows_of batch_size tenant_id p) (started tenant_id p))

  -- A tenant's batch, seen from the backlog of any tenant.
  other-le :
      (batch_size : ℕ) (tenant_id other : String) (p : Pipe)
      → backlog_of (after_batch batch_size tenant_id p).world other ≤ backlog_of p.world other
  unfolding backlog_of
  other-le batch_size tenant_id other p =
      publish-le env producer accepts (opened other p.world) other (rows_of batch_size tenant_id p)
        (started tenant_id p)

  own-lt :
      (n : ℕ) (tenant_id : String) (p : Pipe)
      → backlog_of (after_batch (suc n) tenant_id p).world tenant_id
        ≤ backlog_of p.world tenant_id - 1
  unfolding backlog_of
  own-lt n tenant_id p = batch-lt env producer accepts tenant_id n (started tenant_id p)

  abbrev after_tenants : (batch_size : ℕ) → List String → Pipe → Pipe
  after_tenants batch_size [] p = p
  after_tenants batch_size (t ∷ ts) p = after_tenants batch_size ts (after_batch batch_size t p)

  tenants-ok :
      (batch_size : ℕ) (ts : List String) (total : ℕ) (p : Pipe)
      → (n : ℕ) × (relay_tenants env producer batch_size ts total p
          ≡ (ok n, after_tenants batch_size ts p))
  unfolding relay_tenants
  tenants-ok batch_size [] total p = (total, refl)
  tenants-ok batch_size (t ∷ ts) total p =
      rw (batch-ok batch_size t p) (tenants-ok batch_size ts _ (after_batch batch_size t p))

  tenants-le :
      (batch_size : ℕ) (ts : List String) (other : String) (p : Pipe)
      → backlog_of (after_tenants batch_size ts p).world other ≤ backlog_of p.world other
  tenants-le batch_size [] other p = omega arith
  tenants-le batch_size (t ∷ ts) other p = omega (
    arith,
    tenants-le batch_size ts other (after_batch batch_size t p),
    other-le batch_size t other p,
  )

  tenants-lt :
      (n : ℕ) (ts : List String) (other : String) (p : Pipe)
      → Memᴰ other ts
      → backlog_of (after_tenants (suc n) ts p).world other ≤ backlog_of p.world other - 1
  tenants-lt n [] other p m = elim m [ ]
  tenants-lt n (t ∷ ts) other p (head is) =
      rw is (omega (arith, tenants-le (suc n) ts t (after_batch (suc n) t p), own-lt n t p))
  tenants-lt n (t ∷ ts) other p (tail m) =
      omega (arith, tenants-lt n ts other (after_batch (suc n) t p) m, other-le (suc n) t other p)

sum-lt :
    (ts : List String) (f g : String → ℕ)
    → ((t : String) → Memᴰ t ts → f t ≤ g t - 1)
    → sum_over ts f ≤ sum_over ts g - 1
sum-lt [] f g less = omega arith
sum-lt (t ∷ ts) f g less = omega (arith, less t (head refl), sum-lt ts f g (λ u m. less u (tail m)))

module _ (env : Env) (producer : Producer) (accepts : Accepts producer) where
  published-tenants :
      (rows : List OutboxEventRow) (p : Pipe)
      → (publish_rows env producer rows p).1.world.view.tenants ≡ p.world.view.tenants
  unfolding publish_rows mark_published
  published-tenants [] p = refl
  published-tenants (row ∷ rows) p =
      rw (accepts row.aggregate_id (build_envelope row))
        (published-tenants rows (published env row p))

  same_tenants :
      (batch_size : ℕ) (ts : List String) (p : Pipe)
      → (after_tenants env producer accepts batch_size ts p).world.durable.tenants
        ≡ p.world.durable.tenants
  same_tenants batch_size [] p = refl
  same_tenants batch_size (t ∷ ts) p =
      same_tenants batch_size ts (after_batch env producer accepts batch_size t p)
      ∙ published-tenants (rows_of env producer accepts batch_size t p)
          (started env producer accepts t p)

  relay_once-lt :
      (n : ℕ) (p : Pipe)
      → unpublished_backlog_size (relay_once env producer (suc n) p).1.world
        ≤ unpublished_backlog_size p.world - 1
  unfolding relay_once unpublished_backlog_size
  relay_once-lt n p =
      let ts = p.world.durable.tenants in
      rw ((tenants-ok env producer accepts (suc n) ts 0 p).1, same_tenants (suc n) ts p)
        (sum-lt ts _ (backlog_of p.world) (λ t m. tenants-lt env producer accepts n ts t p m))

-- `relay_once`, called again and again.
unfoldable pub sweeps : Env → Producer → (batch_size count : ℕ) → Pipe → Pipe
sweeps env producer batch_size zero p = p
sweeps env producer batch_size (suc n) p =
    sweeps env producer batch_size n (relay_once env producer batch_size p).1

drained :
    (env : Env) (producer : Producer) (accepts : Accepts producer) (n count : ℕ) (p : Pipe)
    → unpublished_backlog_size p.world ≤ count
    → unpublished_backlog_size (sweeps env producer (suc n) count p).world ≡ 0
unfolding sweeps
drained env producer accepts n zero p enough = omega (arith, enough)
drained env producer accepts n (suc count) p enough =
    drained env producer accepts n count (relay_once env producer (suc n) p).1
      (omega (arith, enough, relay_once-lt env producer accepts n p))

-- If the broker takes every message, then a sweep with a batch size of at least one returns, and
-- after as many sweeps as the backlog has rows the backlog, over every tenant, is empty.
pub relay_drains :
    (env : Env) (producer : Producer) (batch_size count : ℕ) (p : Pipe)
    → Accepts producer
    → 1 ≤ batch_size
    → unpublished_backlog_size p.world ≤ count
    → ((n : ℕ) × ((relay_once env producer batch_size p).0 ≡ ok n))
      × (unpublished_backlog_size (sweeps env producer batch_size count p).world ≡ 0)
unfolding sweeps relay_once
relay_drains env producer zero count p accepts some_rows enough = absurd (omega (arith, some_rows))
relay_drains env producer (suc n) count p accepts some_rows enough = (
  (
    (tenants-ok env producer accepts (suc n) p.world.durable.tenants 0 p).0,
    ap (λ (r : Result ℕ × Pipe). r.0)
        (tenants-ok env producer accepts (suc n) p.world.durable.tenants 0 p).1,
  ),
  drained env producer accepts n count p enough,
)
