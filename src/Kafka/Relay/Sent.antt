-- ===== src/Kafka/Relay/Sent.antt =====
-- What is marked as published has been sent, in every state that the handlers and the relay, whose
-- batches may fail at any message, bring about.
use loan_credit.Prelude.{
  ◌≡◌, refl, sym, ◌∙◌, ap, subst, ℕ, ◌&&◌, List, [], ◌∷◌, ◌++◌, String, arith, inl, inr, Memᴰ,
  Bool-cases, str_eq, str_eq→eq,
}
use mathlib.Core.List.Memᴰ.{head, tail}
use loan_credit.Domain.Error.{Result, ok, err}
use loan_credit.Store.Rows.{Db, OutboxEventRow}
use loan_credit.Store.Session.{Env, World, visible}
use loan_credit.Store.Session.Keeps.{Good}
use loan_credit.Commands.Common.{Runner}
use loan_credit.Commands.Closed.{handle-Closed}
use loan_credit.Commands.Handlers.{Request, handle}
use loan_credit.Kafka.Envelope.{Envelope, build_envelope}
use loan_credit.Kafka.Relay.{
  Producer, Pipe, batch_of, mark, mark_published, after_publish, then_rows, publish_rows, opened,
  closed_with, relay_tenant_batch,
}
use loan_credit.Kafka.Relay.Backlog.{published, batch-mem}
use loan_credit.Kafka.Relay.Faithful.{
  IsSent, IsFaithful, IsFaithful-IsClosed, Mem-map, Mem-last, Mem-more,
}

-- The rows of the outbox with the row's id have its envelope.
abbrev Names : Db → OutboxEventRow → Type 0
Names db row =
    (r : OutboxEventRow)
    → Memᴰ r db.outbox_events
    → r.event_id ≡ row.event_id
    → build_envelope r ≡ build_envelope row

mark-envelope :
    (w : World) (at : ℕ) (row r : OutboxEventRow)
    → build_envelope (mark w at row r) ≡ build_envelope r
mark-envelope w at row r = ground arith

mark-id : (w : World) (at : ℕ) (row r : OutboxEventRow) → (mark w at row r).event_id ≡ r.event_id
mark-id w at row r = ground arith

IsSent-more :
    (r : OutboxEventRow) (topic more : List Envelope) → IsSent topic r → IsSent (topic ++ more) r
IsSent-more r topic more (inl new) = inl new
IsSent-more r topic more (inr m) = inr (Mem-more topic more m)

marked-IsSent :
    (w : World) (at : ℕ) (topic : List Envelope) (row r : OutboxEventRow)
    → (r.event_id ≡ row.event_id → build_envelope r ≡ build_envelope row)
    → IsSent topic r
    → IsSent (topic ++ build_envelope row ∷ []) (mark w at row r)
marked-IsSent w at topic row r named sent =
    elim (Bool-cases (str_eq r.event_id row.event_id && visible w r.tenant_id)) [
      | inl hit ↦ inr (
          subst (λ e. Memᴰ e (topic ++ build_envelope row ∷ []))
            (sym (
              mark-envelope w at row r
              ∙ named (str_eq→eq r.event_id row.event_id (ground (arith, hit)))))
            (Mem-last topic (build_envelope row)))
      | inr miss ↦ rw miss (IsSent-more r topic _ sent)
    ]

-- A row of the batch is published and marked.
published-IsFaithful :
    (env : Env) (row : OutboxEventRow) (p : Pipe)
    → Names p.world.view row
    → IsFaithful p.topic p.world.view
    → IsFaithful (published env row p).topic (published env row p).world.view
unfolding mark_published
published-IsFaithful env row p named h = record {
  sent = λ r m.
      let (y, k, is) =
        Mem-map (mark p.world (env.now_at p.world.ticks) row) p.world.view.outbox_events m in
      subst (IsSent _) (sym is)
        (marked-IsSent p.world (env.now_at p.world.ticks) p.topic row y (named y k) (h.sent y k));
  one_event = λ x y m k same.
      let f = mark p.world (env.now_at p.world.ticks) row in
      let (x', m', is) = Mem-map f p.world.view.outbox_events m in
      let (y', k', is') = Mem-map f p.world.view.outbox_events k in
      let id : OutboxEventRow → String = λ r. r.event_id in
      let old = h.one_event x' y' m' k' (
        sym (mark-id p.world (env.now_at p.world.ticks) row x')
        ∙ (ap id (sym is)
            ∙ (same ∙ (ap id is' ∙ mark-id p.world (env.now_at p.world.ticks) row y')))) in
      ap build_envelope is
      ∙ (mark-envelope p.world (env.now_at p.world.ticks) row x'
          ∙ (old
              ∙ (sym (mark-envelope p.world (env.now_at p.world.ticks) row y')
                  ∙ ap build_envelope (sym is'))));
}

published-Names :
    (env : Env) (row other : OutboxEventRow) (p : Pipe)
    → Names p.world.view other
    → Names (published env row p).world.view other
unfolding mark_published
published-Names env row other p named r m same =
    let at = env.now_at p.world.ticks in
    let (y, k, is) = Mem-map (mark p.world at row) p.world.view.outbox_events m in
    ap build_envelope is
    ∙ (mark-envelope p.world at row y
        ∙ named y k (
            sym (mark-id p.world at row y)
            ∙ (ap (λ (x : OutboxEventRow). x.event_id) (sym is) ∙ same)))

-- What a batch that may fail at any message leaves.
record Leaves (before after : Pipe) : Type 0 where
  kept : (e : Envelope) → Memᴰ e before.topic → Memᴰ e after.topic
  committed : after.world.durable ≡ before.world.durable
  viewed : IsFaithful after.topic after.world.view

rows-Leaves :
    (env : Env) (row : OutboxEventRow) (p : Pipe) (answer : Result (Unit {0}))
    (next : Pipe → Result (Unit {0}) × Pipe)
    → IsFaithful p.topic p.world.view
    → Leaves (published env row p) (next (published env row p)).1
    → Leaves p (then_rows (after_publish env row answer p) next).1
unfolding mark_published
rows-Leaves env row p (err e) next h rest = record { kept = λ x m. m; committed = refl; viewed = h }
rows-Leaves env row p (ok done) next h rest = record {
  kept = λ x m. rest.kept x (Mem-more p.topic _ m);
  committed = rest.committed;
  viewed = rest.viewed;
}

publish-Leaves :
    (env : Env) (producer : Producer) (rows : List OutboxEventRow) (p : Pipe)
    → ((row : OutboxEventRow) → Memᴰ row rows → Names p.world.view row)
    → IsFaithful p.topic p.world.view
    → Leaves p (publish_rows env producer rows p).1
unfolding publish_rows
publish-Leaves env producer [] p named h = record { kept = λ x m. m; committed = refl; viewed = h }
publish-Leaves env producer (row ∷ rows) p named h =
    rows-Leaves env row p (producer row.aggregate_id (build_envelope row))
      (publish_rows env producer rows) h
      (publish-Leaves env producer rows (published env row p)
        (λ r m. published-Names env row r p (named r (tail m)))
        (published-IsFaithful env row p (named row (head refl)) h))

more_sent :
    {topic more : List Envelope} {db : Db}
    → ((e : Envelope) → Memᴰ e topic → Memᴰ e more)
    → IsFaithful topic db
    → IsFaithful more db
more_sent to h = record {
  sent = λ r m. elim (h.sent r m) [ inl new ↦ inl new | inr was ↦ inr (to (build_envelope r) was) ];
  one_event = h.one_event;
}

-- The committed outbox, and what a session sees, against the topic.
abbrev IsFaithfulPipe : Pipe → Type 0
IsFaithfulPipe p = Good (IsFaithful p.topic) p.world

closed-Faithful :
    (before : Pipe) (n : ℕ) (r : Result (Unit {0})) (after : Pipe)
    → IsFaithful before.topic before.world.durable
    → Leaves before after
    → IsFaithfulPipe (closed_with n (r, after)).1
closed-Faithful before n (err e) after h l =
    let old = subst (IsFaithful after.topic) (sym l.committed) (more_sent l.kept h) in
    record { committed = old; current = old }
closed-Faithful before n (ok done) after h l = record { committed = l.viewed; current = l.viewed }

batch-Faithful :
    (env : Env) (producer : Producer) (batch_size : ℕ) (tenant_id : String) (p : Pipe)
    → IsFaithfulPipe p
    → IsFaithfulPipe (relay_tenant_batch env producer batch_size tenant_id p).1
unfolding relay_tenant_batch
batch-Faithful env producer batch_size tenant_id p h =
    let start : Pipe = record p { world = opened tenant_id p.world } in
    let rows = batch_of tenant_id batch_size start.world in
    closed-Faithful start _ _ _ h.committed (
      publish-Leaves env producer rows start
        (λ row m r k same.
          h.committed.one_event r row k (batch-mem tenant_id batch_size start.world row m) same)
        h.committed)

-- The states of the database and the topic that requests and batches of the relay lead to. Each
-- batch may meet another answer of the broker.
pub data Reaches (env : Env) (runner : Runner) (p : Pipe) : Pipe → Type 0 where
  here : Reaches env runner p p
  serve :
      {q : Pipe} (r : Request)
      → Reaches env runner p q
      → Reaches env runner p (record q { world = (handle env runner r q.world).1 })
  relay :
      {q : Pipe} (producer : Producer) (batch_size : ℕ) (tenant_id : String)
      → Reaches env runner p q
      → Reaches env runner p (relay_tenant_batch env producer batch_size tenant_id q).1

reached-Faithful :
    {env : Env} {runner : Runner} {p q : Pipe}
    → IsFaithfulPipe p
    → Reaches env runner p q
    → IsFaithfulPipe q
reached-Faithful h here = h
reached-Faithful {env = env} {runner = runner} h (serve {q = q} r reach) =
    (handle-Closed (IsFaithful-IsClosed env q.topic) runner r).at q.world (reached-Faithful h reach)
reached-Faithful {env = env} h (relay {q = q} producer batch_size tenant_id reach) =
    batch-Faithful env producer batch_size tenant_id q (reached-Faithful h reach)

no_events-Faithful : (topic : List Envelope) (db : Db) → db.outbox_events ≡ [] → IsFaithful topic db
no_events-Faithful topic db empty = record {
  sent = λ r m. elim (subst (Memᴰ r) empty m) [ ];
  one_event = λ x y m k same. elim (subst (Memᴰ x) empty m) [ ];
}

-- From a state whose outbox is empty, after any requests and any batches of the relay, in any order,
-- those included that an exception of the broker ends half-way: each committed row of the outbox that
-- is marked as published is one whose envelope the topic holds.
pub no_event_is_lost :
    {env : Env} {runner : Runner} {p q : Pipe}
    → p.world.durable.outbox_events ≡ []
    → p.world.view.outbox_events ≡ []
    → Reaches env runner p q
    → (row : OutboxEventRow) → Memᴰ row q.world.durable.outbox_events
    → IsSent q.topic row
no_event_is_lost {p = p} committed current reach row m =
    (reached-Faithful
        (record {
          committed = no_events-Faithful p.topic p.world.durable committed;
          current = no_events-Faithful p.topic p.world.view current;
        })
        reach).committed.sent
      row m
