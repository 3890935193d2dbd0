-- ===== src/Kafka/Projection/Merge.antt =====
-- What one message leaves of the projection of an application.
use loan_credit.Prelude.{
  ◌≡◌, refl, sym, ◌∙◌, subst, ℕ, ◌≤◌, true, ◌&&◌, Option, none, some, String, leb, leb→le, str_eq,
  Bool-cases, ◌⊎◌, inl, inr, arith,
}
use mathlib.Core.Bool.{true≢false}
use loan_credit.Domain.Error.{Result, ok, err, err-ne-ok, ok-injective}
use loan_credit.Store.Rows.{StatusProjectionRow}
use loan_credit.Kafka.Envelope.{Envelope}
use loan_credit.Kafka.Projection.{is_projected, told, projection_row, move_projection}
use loan_credit.Kafka.Projection.Row.{merged, advanced}

-- The event is one of the application's that are projected, and tells its status and version.
pub record Tells (id : String) (e : Envelope) (seen : String × ℕ) : Type 0 where
  pub relevant : (is_projected e.event_type && str_eq e.application_id id) ≡ true
  pub reading : told e ≡ ok seen

-- The row is what an event tells.
pub record IsTold (id : String) (e : Envelope) (r : StatusProjectionRow) : Type 0 where
  pub tells : Tells id e (r.status, r.version)
  pub same : r ≡ projection_row e (r.status, r.version)

pub record Moves (id : String) (e : Envelope) (before after : Option StatusProjectionRow)
    : Type 0 where
  pub origin : (r : StatusProjectionRow) → after ≡ some r → (before ≡ some r) ⊎ IsTold id e r
  pub grows :
      (r : StatusProjectionRow)
      → before ≡ some r
      → (r' : StatusProjectionRow) × (after ≡ some r') × (r.version ≤ r'.version)
  pub covers :
      (seen : String × ℕ)
      → Tells id e seen
      → (r' : StatusProjectionRow) × (after ≡ some r') × (seen.1 ≤ r'.version)

moved-eq :
    (new row : StatusProjectionRow)
    → row.application_id ≡ new.application_id
    → row.tenant_id ≡ new.tenant_id
    → move_projection new row ≡ new
moved-eq new row id tenant = rw id (rw tenant refl)

abbrev pub SameCase : Envelope → Option StatusProjectionRow → Type 0
SameCase e row =
    (r : StatusProjectionRow)
    → row ≡ some r
    → (r.application_id ≡ e.application_id) × (r.tenant_id ≡ e.tenant_id)

some-injective : {A : Type 0} {a b : A} → some a ≡ some b → a ≡ b
some-injective h = cc

told-seen :
    {e : Envelope} {id : String} {seen other : String × ℕ}
    → told e ≡ ok seen
    → Tells id e other
    → other ≡ seen
told-seen is tells = ok-injective (sym tells.reading ∙ is)

version-le : {seen other : String × ℕ} (n : ℕ) → other ≡ seen → seen.1 ≤ n → other.1 ≤ n
version-le n same h = subst (λ s. s.1 ≤ n) (sym same) h

merged-Moves :
    (id : String) (e : Envelope) (seen : String × ℕ) (before : Option StatusProjectionRow)
    → (is_projected e.event_type && str_eq e.application_id id) ≡ true
    → told e ≡ ok seen
    → SameCase e before
    → Moves id e before (merged e (ok seen) before)
unfolding merged
merged-Moves id e seen none relevant is own = record {
  origin = λ r h. inr (
      subst (IsTold id e) (some-injective h)
        (record { tells = record { relevant = relevant; reading = is }; same = refl }));
  grows = λ r h. cc;
  covers = λ other tells.
      (projection_row e seen, refl, version-le seen.1 (told-seen is tells) (omega arith));
}
merged-Moves id e seen (some row) relevant is own = elim (Bool-cases (leb row.version seen.1)) [
  | inl newer ↦ rw newer (
      rw (moved-eq (projection_row e seen) row (own row refl).0 (own row refl).1) (record {
        origin = λ r h. inr (
            subst (IsTold id e) (some-injective h)
              (record { tells = record { relevant = relevant; reading = is }; same = refl }));
        grows = λ r h. (
          projection_row e seen,
          refl,
          subst (λ x. x.version ≤ seen.1) (some-injective h) (leb→le row.version seen.1 newer),
        );
        covers = λ other tells.
            (projection_row e seen, refl, version-le seen.1 (told-seen is tells) (omega arith));
      }))
  | inr older ↦ rw older (record {
    origin = λ r h. inl h;
    grows = λ r h. (r, h, omega arith);
    covers = λ other tells. (row, refl, version-le row.version (told-seen is tells) (ground arith));
  })
]

unmoved :
    (id : String) (e : Envelope) (before : Option StatusProjectionRow)
    → ((seen : String × ℕ) → Tells id e seen → ⊥)
    → Moves id e before before
unmoved id e before never = record {
  origin = λ r h. inl h;
  grows = λ r h. (r, h, omega arith);
  covers = λ seen tells. absurd (never seen tells);
}

merged-any-Moves :
    (id : String) (e : Envelope) (t : Result (String × ℕ)) (before : Option StatusProjectionRow)
    → (is_projected e.event_type && str_eq e.application_id id) ≡ true
    → told e ≡ t
    → SameCase e before
    → Moves id e before (merged e t before)
unfolding merged
merged-any-Moves id e (ok seen) before relevant is own =
    merged-Moves id e seen before relevant is own
merged-any-Moves id e (err raised) before relevant is own =
    unmoved id e before (λ seen tells. err-ne-ok (sym is ∙ tells.reading))

-- One message, projected.
pub advanced-Moves :
    (id : String) (e : Envelope) (before : Option StatusProjectionRow)
    → (str_eq e.application_id id ≡ true → SameCase e before)
    → Moves id e before (advanced id e before)
unfolding advanced
advanced-Moves id e before own =
    elim (Bool-cases (is_projected e.event_type && str_eq e.application_id id)) [
      | inl relevant ↦
          rw relevant (merged-any-Moves id e (told e) before relevant refl (own (ground arith)))
      | inr other ↦
          rw other (unmoved id e before (λ seen tells. true≢false (sym tells.relevant ∙ other)))
    ]
