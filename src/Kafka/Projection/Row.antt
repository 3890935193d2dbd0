-- ===== src/Kafka/Projection/Row.antt =====
-- The projection of one application as the consumer's statements change it.
use loan_credit.Prelude.{
  ◌≡◌, refl, sym, ◌∙◌, subst, ℕ, true, false, ◌&&◌, Option, none, some, String, find, any, leb,
  str_eq, eq_iff, eq_refl, str_eq→eq, Bool-cases, Option-cases, inl, inr, if◌then◌else◌,
  find-append, find-eq-some, find-append-other, find-map-some, find-map-other, find-none-any,
  find-and, find-and-none, arith,
}
use loan_credit.Domain.Error.{Error, Result, ok, err, err-ne-ok}
use loan_credit.Store.Rows.{Db, StatusProjectionRow}
use loan_credit.Store.Session.{
  World, Action, continue, ◌>>=◌, read, lift, pure, insert_row, visible,
}
use loan_credit.Kafka.Envelope.{Envelope}
use loan_credit.Kafka.Projection.{
  is_projected, told, is_projection_of, find_projection, projection_row, insert_projection,
  move_projection, update_projection, project_over, project,
}

-- The projection of an application.
abbrev pub row_of : String → Db → Option StatusProjectionRow
row_of id db = find (is_projection_of id) db.status_projection

str_eq-other : (s t u : String) → str_eq t u ≡ false → str_eq s u ≡ true → str_eq s t ≡ false
str_eq-other s t u differ is = elim (Bool-cases (str_eq s t)) [
  | inl same ↦ let e = (eq_iff t u).1 (sym (str_eq→eq s t same) ∙ str_eq→eq s u is) in cc
  | inr other ↦ other
]

refused :
    (new : StatusProjectionRow) (w : World)
    → str_eq new.tenant_id w.tenant ≡ false
    → (insert_projection new w).0 ≡ ok tt
    → ⊥
unfolding insert_projection insert_row
refused new w foreign stored =
    err-ne-ok {a = tt} {e = Error.row_level_security "status_projection"}
      (sym (rw foreign refl) ∙ stored)

insert-same :
    (new : StatusProjectionRow) (w : World)
    → row_of new.application_id w.view ≡ none
    → (insert_projection new w).0 ≡ ok tt
    → row_of new.application_id (insert_projection new w).1.view ≡ some new
unfolding insert_projection insert_row
insert-same new w absent stored = elim (Bool-cases (str_eq new.tenant_id w.tenant)) [
  | inl own ↦
      rw (own, find-none-any _ w.view.status_projection absent)
        (find-append (is_projection_of new.application_id) w.view.status_projection new absent
          ∙ rw (eq_refl new.application_id) refl)
  | inr foreign ↦ absurd (refused new w foreign stored)
]

insert-other :
    (new : StatusProjectionRow) (w : World) (id : String)
    → str_eq new.application_id id ≡ false
    → row_of id (insert_projection new w).1.view ≡ row_of id w.view
unfolding insert_projection insert_row
insert-other new w id other = elim (Bool-cases (str_eq new.tenant_id w.tenant)) [
  | inl own ↦
      elim (Bool-cases (any (is_projection_of new.application_id) w.view.status_projection)) [
        | inl taken ↦ rw (own, taken) refl
        | inr free ↦
            rw (own, free)
              (find-append-other (is_projection_of id) w.view.status_projection new other)
      ]
  | inr foreign ↦ rw foreign refl
]

update-same :
    (new r : StatusProjectionRow) (w : World)
    → row_of new.application_id w.view ≡ some r
    → visible w r.tenant_id ≡ true
    → row_of new.application_id (update_projection new w).1.view ≡ some (move_projection new r)
unfolding update_projection
update-same new r w present seen =
    find-map-some (is_projection_of new.application_id) _ w.view.status_projection r
      (λ y. ground arith) present
    ∙ rw
        (
          find-eq-some (is_projection_of new.application_id) w.view.status_projection r present,
          seen,
        )
        refl

update-other :
    (new : StatusProjectionRow) (w : World) (id : String)
    → str_eq new.application_id id ≡ false
    → row_of id (update_projection new w).1.view ≡ row_of id w.view
unfolding update_projection
update-other new w id other =
    find-map-other (is_projection_of id) _ w.view.status_projection (λ y. ground arith)
      (λ y own. rw (str_eq-other y.application_id new.application_id id other own) refl)

-- The projection after an event, as a function of the projection before it.
unfoldable pub merged :
    Envelope → Result (String × ℕ) → Option StatusProjectionRow → Option StatusProjectionRow
merged e (err raised) row = row
merged e (ok seen) none = some (projection_row e seen)
merged e (ok seen) (some row) =
    if leb row.version seen.1 then some (move_projection (projection_row e seen) row) else some row

-- The projection of the application `id` after an event of any application.
unfoldable pub advanced :
    String → Envelope → Option StatusProjectionRow → Option StatusProjectionRow
advanced id e row =
    if is_projected e.event_type && str_eq e.application_id id then merged e (told e) row else row

-- The session of a message sees the projection of the message's application.
abbrev pub IsOwn : Envelope → Db → Type 0
IsOwn e db =
    (r : StatusProjectionRow) → row_of e.application_id db ≡ some r → r.tenant_id ≡ e.tenant_id

project_over-same :
    (e : Envelope) (seen : String × ℕ) (w : World) (row : Option StatusProjectionRow)
    → row_of e.application_id w.view ≡ row
    → ((r : StatusProjectionRow) → row ≡ some r → visible w r.tenant_id ≡ true)
    → (project_over (projection_row e seen) row w).0 ≡ ok tt
    → row_of e.application_id (project_over (projection_row e seen) row w).1.view
      ≡ merged e (ok seen) row
unfolding merged pure
project_over-same e seen w none is own stored = insert-same (projection_row e seen) w is stored
project_over-same e seen w (some r) is own stored = elim (Bool-cases (leb r.version seen.1)) [
  | inl newer ↦ rw newer (update-same (projection_row e seen) r w is (own r refl))
  | inr older ↦ rw older is
]

project_over-other :
    (e : Envelope) (seen : String × ℕ) (w : World) (row : Option StatusProjectionRow) (id : String)
    → str_eq e.application_id id ≡ false
    → row_of id (project_over (projection_row e seen) row w).1.view ≡ row_of id w.view
unfolding pure
project_over-other e seen w none id other = insert-other (projection_row e seen) w id other
project_over-other e seen w (some r) id other = elim (Bool-cases (leb r.version seen.1)) [
  | inl newer ↦ rw newer (update-other (projection_row e seen) w id other)
  | inr older ↦ rw older refl
]

visible-own : (w : World) (tenant t : String) → w.tenant ≡ tenant → t ≡ tenant → visible w t ≡ true
visible-own w tenant t is same = rw is (rw same (eq_refl tenant))

find-own :
    (e : Envelope) (w : World)
    → w.tenant ≡ e.tenant_id
    → IsOwn e w.view
    → find_projection e.application_id w ≡ row_of e.application_id w.view
unfolding find_projection
find-own e w tenant own = elim (Option-cases (row_of e.application_id w.view)) [
  | inl absent ↦
      find-and-none (is_projection_of e.application_id) (λ r. visible w r.tenant_id)
        w.view.status_projection absent
      ∙ sym absent
  | inr (r, present) ↦
      find-and (is_projection_of e.application_id) (λ r. visible w r.tenant_id)
        w.view.status_projection r present
        (visible-own w e.tenant_id r.tenant_id tenant (own r present))
      ∙ sym present
]

-- `project` after the event is read.
unfoldable continued : Envelope → Result (String × ℕ) → Action (Unit {0})
continued e (ok seen) w =
    project_over (projection_row e seen) (find_projection e.application_id w) w
continued e (err raised) w = (err raised, w)

continued-eq :
    (e : Envelope) (w : World) (t : Result (String × ℕ))
    → continue t
        (λ seen.
          read (λ w'. ok (find_projection e.application_id w'))
          >>= project_over (projection_row e seen))
        w
      ≡ continued e t w
unfolding ◌>>=◌ read continued
continued-eq e w (ok seen) = refl
continued-eq e w (err raised) = refl

project-continued : (e : Envelope) (w : World) → project e w ≡ continued e (told e) w
unfolding project ◌>>=◌ lift
project-continued e w = continued-eq e w (told e)

continued-same :
    (e : Envelope) (w : World) (t : Result (String × ℕ))
    → w.tenant ≡ e.tenant_id
    → IsOwn e w.view
    → (continued e t w).0 ≡ ok tt
    → row_of e.application_id (continued e t w).1.view ≡ merged e t (row_of e.application_id w.view)
unfolding continued
continued-same e w (ok seen) tenant own = rw (find-own e w tenant own) (
    project_over-same e seen w (row_of e.application_id w.view) refl
      (λ r present. visible-own w e.tenant_id r.tenant_id tenant (own r present)))
continued-same e w (err raised) tenant own = λ h. absurd (err-ne-ok h)

continued-other :
    (e : Envelope) (w : World) (t : Result (String × ℕ)) (id : String)
    → str_eq e.application_id id ≡ false
    → row_of id (continued e t w).1.view ≡ row_of id w.view
unfolding continued
continued-other e w (ok seen) id other =
    project_over-other e seen w (find_projection e.application_id w) id other
continued-other e w (err raised) id other = refl

-- A projected event moves its own application's projection by `merged`, and no other.
pub project-row_of :
    (e : Envelope) (w : World) (id : String)
    → w.tenant ≡ e.tenant_id
    → (str_eq e.application_id id ≡ true → IsOwn e w.view)
    → (project e w).0 ≡ ok tt
    → row_of id (project e w).1.view ≡ (
        if str_eq e.application_id id
        then merged e (told e) (row_of id w.view)
        else row_of id w.view)
project-row_of e w id tenant own = rw (project-continued e w) λ stored.
    elim (Bool-cases (str_eq e.application_id id)) [
      | inl same ↦ rw same (
          subst
            (λ i. row_of i (continued e (told e) w).1.view ≡ merged e (told e) (row_of i w.view))
            (str_eq→eq e.application_id id same)
            (continued-same e w (told e) tenant (own same) stored))
      | inr other ↦ rw other (continued-other e w (told e) id other)
    ]
