-- ===== src/Kafka/Projection/Converges.antt =====
-- Runs of the consumer: what the projection of an application is after the messages of a topic, in
-- whatever order and however often they are delivered.
use loan_credit.Prelude.{
  ◌↔◌, ◌≡◌, refl, sym, ◌∙◌, ap, subst, ℕ, ◌≤◌, true, false, Option, none, some, List, [], ◌∷◌,
  String, str_eq, str_eq→eq, ◌⊎◌, inl, inr, Memᴰ, arith,
}
use mathlib.Core.Bool.{true≢false}
use mathlib.Core.List.Memᴰ.{head, tail}
use loan_credit.Domain.Error.{Result, ok, err, err-ne-ok}
use loan_credit.Store.Rows.{Db, StatusProjectionRow}
use loan_credit.Store.Session.{Env, World, Action, continue, ◌>>=◌, pure}
use loan_credit.Kafka.Envelope.{Envelope}
use loan_credit.Kafka.Projection.{told, projection_row, consume, consume_all}
use loan_credit.Kafka.Projection.Row.{row_of}
use loan_credit.Kafka.Projection.Delivery.{is_processed, consume-Delivers}
use loan_credit.Kafka.Projection.Delivered.{Reflects, Reflects-same, after_delivery}
use loan_credit.Kafka.Projection.Merge.{Tells, IsTold}

-- What is asked of the messages: an event id names one event, and the application has one tenant.
pub record AreEvents (id tenant : String) (Sent : Envelope → Type 0) : Type 0 where
  pub one_event : (x y : Envelope) → Sent x → Sent y → x.event_id ≡ y.event_id → x ≡ y
  pub of_tenant : (x : Envelope) → Sent x → str_eq x.application_id id ≡ true → x.tenant_id ≡ tenant

bind-ok :
    {A B : Type 0} (r : Result A) (f : A → Action B) (w : World) (b : B)
    → (continue r f w).0 ≡ ok b
    → (a : A) × (r ≡ ok a) × (continue r f w ≡ f a w)
bind-ok (ok a) f w b h = (a, refl, refl)
bind-ok (err e) f w b h = absurd (err-ne-ok h)

-- After the messages `es`, on top of the events `Seen`.
consume_all-Reflects :
    (env : Env) (consumer_name id tenant : String) (es : List Envelope)
    (Seen Sent : Envelope → Type 0) (w : World)
    → AreEvents id tenant Sent
    → ((x : Envelope) → Seen x → Sent x)
    → ((x : Envelope) → Memᴰ x es → Sent x)
    → Reflects consumer_name id tenant Seen w.durable
    → (consume_all env consumer_name es w).0 ≡ ok tt
    → Reflects consumer_name id tenant
        (λ x. Memᴰ x es ⊎ Seen x)
        (consume_all env consumer_name es w).1.durable
unfolding consume_all pure ◌>>=◌
consume_all-Reflects env consumer_name id tenant [] Seen Sent w events seen sent h done =
    Reflects-same w.durable (λ x s. inr s)
      (λ x s. elim s [ inl m ↦ absurd (elim m [ ]) | inr s ↦ s ]) h
consume_all-Reflects env consumer_name id tenant (e ∷ es) Seen Sent w events seen sent h done =
    let (b, returned, rest) =
      bind-ok (consume env consumer_name e w).0 (λ _. consume_all env consumer_name es)
        (consume env consumer_name e w).1 tt done in
    let delivered =
      consume-Delivers env consumer_name id e w b
        (λ is r present.
          h.owned r
            (subst (λ i. row_of i w.durable ≡ some r) (str_eq→eq e.application_id id is) present)
          ∙ sym (events.of_tenant e (sent e (head refl)) is))
        returned in
    let next =
      after_delivery e w.durable (consume env consumer_name e w).1.durable
        (λ x s. events.one_event x e (seen x s) (sent e (head refl)))
        (events.of_tenant e (sent e (head refl))) h delivered in
    let ends =
      consume_all-Reflects env consumer_name id tenant es (λ x. (x ≡ e) ⊎ Seen x) Sent
        (consume env consumer_name e w).1 events
        (λ x s. elim s [ inl is ↦ subst Sent (sym is) (sent e (head refl)) | inr s ↦ seen x s ])
        (λ x m. sent x (tail m)) next
        (ap (λ (o : Result (Unit {0}) × World). o.0) (sym rest) ∙ done) in
    subst
      (λ (o : Result (Unit {0}) × World).
        Reflects consumer_name id tenant (λ x. Memᴰ x (e ∷ es) ⊎ Seen x) o.1.durable)
      (sym rest)
      (Reflects-same _
        (λ x s. elim s [
          | inl m ↦ inl (tail m)
          | inr (inl is) ↦ inl (head is)
          | inr (inr s) ↦ inr s
        ])
        (λ x s. elim s [
          | inl (head is) ↦ inr (inl is)
          | inl (tail m) ↦ inl m
          | inr s ↦ inr (inr s)
        ])
        ends)

-- The projection of an application is what one of its events in `es` tells, and no event of `es`
-- tells a later version.
pub record IsLatest (id : String) (es : List Envelope) (row : Option StatusProjectionRow)
    : Type 0 where
  pub told_by :
      (r : StatusProjectionRow) → row ≡ some r → (e : Envelope) × Memᴰ e es × IsTold id e r
  pub covers :
      (e : Envelope) (seen : String × ℕ)
      → Memᴰ e es
      → Tells id e seen
      → (r : StatusProjectionRow) × (row ≡ some r) × (seen.1 ≤ r.version)

-- A consumer that starts without an inbox and without the application's projection.
pub record IsFresh (consumer_name id : String) (db : Db) : Type 0 where
  pub no_inbox : (event_id : String) → is_processed event_id consumer_name db ≡ false
  pub no_row : row_of id db ≡ none

some-injective : {A : Type 0} {a b : A} → some a ≡ some b → a ≡ b
some-injective h = cc

none-ne-some : {A : Type 0} {a : A} {o : Option A} → o ≡ none → o ≡ some a → ⊥
none-ne-some h k = cc

abbrev row_after :
    Env → (consumer_name id : String) → List Envelope → World → Option StatusProjectionRow
row_after env consumer_name id es w = row_of id (consume_all env consumer_name es w).1.durable

-- If the consumer returns from the messages `es` (whatever their order and however often each is
-- repeated), starting without an inbox and without a projection of the application, then the
-- application's projection is what one of its events in `es` tells, with its instant and tenant, and
-- no event in `es` tells a later version. An event id names one event, and the application's events
-- are of one tenant.
pub consume_all-IsLatest :
    (env : Env) (consumer_name id tenant : String) (es : List Envelope) (w : World)
    → AreEvents id tenant (λ x. Memᴰ x es)
    → IsFresh consumer_name id w.durable
    → (consume_all env consumer_name es w).0 ≡ ok tt
    → IsLatest id es (row_after env consumer_name id es w)
consume_all-IsLatest env consumer_name id tenant es w events fresh done =
    let start : Reflects consumer_name id tenant (λ x. ⊥) w.durable = record {
      from_event = λ r present. absurd (none-ne-some fresh.no_row present);
      owned = λ r present. absurd (none-ne-some fresh.no_row present);
      reached = λ e seen was. absurd was;
      processed = λ event_id is. absurd (true≢false (sym is ∙ fresh.no_inbox event_id));
    } in
    let ends =
      consume_all-Reflects env consumer_name id tenant es (λ x. ⊥) (λ x. Memᴰ x es) w events
        (λ x s. absurd s) (λ x m. m) start done in
    record {
      told_by = λ r present.
          let (e, was, told) = ends.from_event r present in
          elim was [ inl m ↦ (e, m, told) | inr never ↦ absurd never ];
      covers = λ e seen m tells. ends.reached e seen (inl m) tells;
    }

latest-eq :
    {id : String} {es fs : List Envelope} {a b : Option StatusProjectionRow}
    → ((x y : Envelope) (seen other : String × ℕ)
        → Memᴰ x fs
        → Memᴰ y fs
        → Tells id x seen
        → Tells id y other
        → seen.1 ≡ other.1
        → projection_row x seen ≡ projection_row y other)
    → ((x : Envelope) → Memᴰ x es → Memᴰ x fs)
    → ((x : Envelope) → Memᴰ x fs → Memᴰ x es)
    → IsLatest id es a
    → IsLatest id fs b
    → a ≡ b
latest-eq {a = none} {b = none} agree to back la lb = refl
latest-eq {a = none} {b = some s} agree to back la lb =
    let (y, m, told) = lb.told_by s refl in
    let (r, present, le) = la.covers y _ (back y m) told.tells in cc
latest-eq {a = some r} {b = none} agree to back la lb =
    let (x, m, told) = la.told_by r refl in
    let (s, present, le) = lb.covers x _ (to x m) told.tells in cc
latest-eq {a = some r} {b = some s} agree to back la lb =
    let (x, m, told) = la.told_by r refl in
    let (y, k, told') = lb.told_by s refl in
    let (s', is_s, le) = lb.covers x _ (to x m) told.tells in
    let (r', is_r, le') = la.covers y _ (back y k) told'.tells in
    let vs = ap (λ (o : StatusProjectionRow). o.version) (some-injective is_s) in
    let vr = ap (λ (o : StatusProjectionRow). o.version) (some-injective is_r) in
    ap some (
      told.same
      ∙ (agree x y _ _ (to x m) k told.tells told'.tells (omega (arith, le, le', vs, vr))
          ∙ sym told'.same))

-- Two events of the application that tell the same version tell the same.
abbrev pub VersionsAgree : (id : String) → List Envelope → Type 0
VersionsAgree id es =
    (x y : Envelope) (seen other : String × ℕ)
    → Memᴰ x es
    → Memᴰ y es
    → Tells id x seen
    → Tells id y other
    → seen.1 ≡ other.1
    → projection_row x seen ≡ projection_row y other

-- Two runs of the consumer that return, over the same set of events, in any orders and with any
-- repetitions, from states without an inbox and a projection of the application, leave the same
-- projection of the application, all its columns included. An event id names one event, the
-- application's events are of one tenant, and those that tell the same version tell the same.
pub order_is_irrelevant :
    (env env' : Env) (consumer_name id tenant : String) (es fs : List Envelope) (w v : World)
    → AreEvents id tenant (λ x. Memᴰ x es)
    → VersionsAgree id es
    → ((x : Envelope) → Memᴰ x es ↔ Memᴰ x fs)
    → IsFresh consumer_name id w.durable
    → IsFresh consumer_name id v.durable
    → (consume_all env consumer_name es w).0 ≡ ok tt
    → (consume_all env' consumer_name fs v).0 ≡ ok tt
    → row_after env consumer_name id es w ≡ row_after env' consumer_name id fs v
order_is_irrelevant env env' consumer_name id tenant es fs w v events agree same fresh fresh' done
      done' =
    let events' : AreEvents id tenant (λ x. Memᴰ x fs) = record {
      one_event = λ x y m k. events.one_event x y ((same x).1 m) ((same y).1 k);
      of_tenant = λ x m. events.of_tenant x ((same x).1 m);
    } in
    latest-eq (λ x y seen other m k. agree x y seen other ((same x).1 m) ((same y).1 k))
      (λ x m. (same x).0 m) (λ x m. (same x).1 m)
      (consume_all-IsLatest env consumer_name id tenant es w events fresh done)
      (consume_all-IsLatest env' consumer_name id tenant fs v events' fresh' done')
