-- ===== src/Commands/Decisions/Marked.antt =====
-- Between the marking of the queue entry and the saving of the aggregate, ApplyReviewDecision
-- leaves the decided application alone without its record: `IsMarked` says what holds then.
use loan_credit.Prelude.{
  ◌≡◌, refl, Bool, true, false, ◌&&◌, some, List, [], ◌∷◌, String, subst, sym, arith, any, find,
  str_eq, str_eq→eq, eq_refl, Bool-cases, inl, inr,
}
use loan_credit.Domain.Status.{value}
use loan_credit.Domain.Application.{Application}
use loan_credit.Store.Rows.{ApplicationRow, ReviewQueueEntryRow}
use loan_credit.Store.Session.{World, visible}
use loan_credit.Store.Repository.{overwrite, update_applications}
use loan_credit.Store.ReviewQueue.{Decided, decide, decide_in}
use loan_credit.Commands.Decisions.{is_decision, records, HasRecord, AllRecorded, AreRecorded}

-- A row or an entry of the application, in the session's tenant.
abbrev pub is_touched : (tenant id : String) → (row_tenant row_id : String) → Bool
is_touched tenant id row_tenant row_id = str_eq row_id id && str_eq row_tenant tenant

abbrev pub AllOthers :
    (tenant id : String) → List ReviewQueueEntryRow → List ApplicationRow → Type 0
AllOthers tenant id queue [] = Unit
AllOthers tenant id queue (row ∷ rows) =
    (is_touched tenant id row.tenant_id row.application_id ≡ false → HasRecord queue row)
    × AllOthers tenant id queue rows

-- The entry decides the application with the decision.
abbrev pub decides : (tenant id decision : String) → ReviewQueueEntryRow → Bool
decides tenant id decision e =
    str_eq e.application_id id
    && (str_eq e.tenant_id tenant && (str_eq e.status "decided" && is_decision e.decision decision))

pub record IsMarked (id decision : String) (w : World) : Type 0 where
  pub committed : AreRecorded w.durable
  pub others : AllOthers w.tenant id w.view.review_queue_entries w.view.applications
  pub decided : any (decides w.tenant id decision) w.view.review_queue_entries ≡ true

is_touched-eq :
    (tenant id row_tenant row_id : String)
    → is_touched tenant id row_tenant row_id ≡ true
    → (row_id ≡ id) × (row_tenant ≡ tenant)
is_touched-eq tenant id row_tenant row_id h =
    (str_eq→eq row_id id (ground arith), str_eq→eq row_tenant tenant (ground arith))

foreign_record :
    (tenant id : String) (row : ApplicationRow) (e : ReviewQueueEntryRow)
    → is_touched tenant id row.tenant_id row.application_id ≡ false
    → is_touched tenant id e.tenant_id e.application_id ≡ true
    → records row e ≡ false
foreign_record tenant id row e other hit =
    elim (Bool-cases (str_eq e.application_id row.application_id)) [
      | inl same ↦ elim (Bool-cases (str_eq e.tenant_id row.tenant_id)) [
        | inl same_tenant ↦
            let touched =
              subst (λ t. is_touched tenant id t row.application_id ≡ true)
                (str_eq→eq e.tenant_id row.tenant_id same_tenant)
                (subst (λ i. is_touched tenant id e.tenant_id i ≡ true)
                  (str_eq→eq e.application_id row.application_id same) hit) in
            cc
        | inr foreign ↦ rw same (rw foreign refl)
      ]
      | inr different ↦ rw different refl
    ]

module _ (w : World) (id : String) (d : Decided) where
  record_stays :
      (row : ApplicationRow) (queue : List ReviewQueueEntryRow)
      → is_touched w.tenant id row.tenant_id row.application_id ≡ false
      → any (records row) queue ≡ true
      → any (records row) (decide_in w id d queue) ≡ true
  unfolding decide_in decide
  record_stays row [] other h = h
  record_stays row (e ∷ es) other h =
      elim (Bool-cases (is_touched w.tenant id e.tenant_id e.application_id)) [
        | inl hit ↦
            ground (arith, foreign_record w.tenant id row e other hit, record_stays row es other)
        | inr miss ↦ ground (arith, record_stays row es other)
      ]

  pub AllOthers-decide_in :
      (queue : List ReviewQueueEntryRow) (rows : List ApplicationRow)
      → AllRecorded queue rows
      → AllOthers w.tenant id (decide_in w id d queue) rows
  AllOthers-decide_in queue [] h = tt
  AllOthers-decide_in queue (row ∷ rows) h =
      (λ other final. record_stays row queue other (h.0 final), AllOthers-decide_in queue rows h.1)

  pub decides-decide_in :
      (queue : List ReviewQueueEntryRow) (found : ReviewQueueEntryRow)
      → find (λ r. str_eq r.application_id id && visible w r.tenant_id) queue ≡ some found
      → any (decides w.tenant id d.decision) (decide_in w id d queue) ≡ true
  unfolding decide_in decide
  decides-decide_in [] found h = cc
  decides-decide_in (e ∷ es) found h =
      elim (Bool-cases (is_touched w.tenant id e.tenant_id e.application_id)) [
        | inl hit ↦ rw hit (ground (arith, eq_refl d.decision))
        | inr miss ↦ ground (arith, decides-decide_in es found)
      ]

pub AllRecorded-decided :
    (w : World) (a : Application) (queue : List ReviewQueueEntryRow) (rows : List ApplicationRow)
    → any (decides w.tenant a.application_id (value a.status)) queue ≡ true
    → AllOthers w.tenant a.application_id queue rows
    → AllRecorded queue (update_applications w a rows)
unfolding update_applications overwrite
AllRecorded-decided w a queue [] decided others = tt
AllRecorded-decided w a queue (row ∷ rows) decided others =
    elim (Bool-cases (str_eq row.application_id a.application_id && visible w row.tenant_id)) [
      | inl hit ↦
          let (same, own) =
            is_touched-eq w.tenant a.application_id row.tenant_id row.application_id hit in
          (
            rw hit (λ final.
                subst (λ t. any (decides t row.application_id (value a.status)) queue ≡ true)
                  (sym own)
                  (subst (λ i. any (decides w.tenant i (value a.status)) queue ≡ true) (sym same)
                    decided)),
            AllRecorded-decided w a queue rows decided others.1,
          )
      | inr miss ↦ (rw miss (others.0 miss), AllRecorded-decided w a queue rows decided others.1)
    ]
