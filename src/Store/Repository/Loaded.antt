-- ===== src/Store/Repository/Loaded.antt =====
-- What is known of an aggregate that the repository returns.
use loan_credit.Prelude.{
  ◌≡◌, subst, ◌&&◌, some, String, arith, find-eq-some, str_eq, str_eq→eq, Bool-cases, Option-cases,
  inl, inr,
}
use loan_credit.Domain.Status.{of_value}
use loan_credit.Domain.Error.{ok}
use loan_credit.Domain.Application.{Application}
use loan_credit.Store.Rows.{ApplicationRow}
use loan_credit.Store.Session.{World, visible}
use loan_credit.Store.Repository.{row_to_application, load_application, find_application}

pub record IsOf (row : ApplicationRow) (a : Application) : Type 0 where
  pub application_id : a.application_id ≡ row.application_id
  pub tenant_id : a.tenant_id ≡ row.tenant_id
  pub version : a.version ≡ row.version
  pub status : of_value row.status ≡ some a.status

row_to_application-IsOf :
    (row : ApplicationRow) (a : Application) → row_to_application row ≡ ok a → IsOf row a
unfolding row_to_application
row_to_application-IsOf row a h = ground arith

pub record IsFound (tenant id : String) (w : World) (a : Application) (row : ApplicationRow)
    : Type 0 where
  pub found : find_application id w ≡ some row
  pub of_row : IsOf row a
  pub same_id : row.application_id ≡ id
  pub in_session : row.tenant_id ≡ w.tenant
  pub in_tenant : row.tenant_id ≡ tenant

load_own :
    (tenant : String) (row : ApplicationRow) (a : Application)
    → load_application tenant (some row) ≡ ok (some a)
    → (row.tenant_id ≡ tenant) × (row_to_application row ≡ ok a)
load_own tenant row a h = elim (Bool-cases (str_eq row.tenant_id tenant)) [
  | inl own ↦ (str_eq→eq row.tenant_id tenant own, ground arith)
  | inr foreign ↦ absurd (ground arith)
]

found_own :
    (id : String) (w : World) (row : ApplicationRow)
    → find_application id w ≡ some row
    → (row.application_id ≡ id) × (row.tenant_id ≡ w.tenant)
unfolding find_application
found_own id w row h =
    let hit =
      find-eq-some (λ (r : ApplicationRow). str_eq r.application_id id && visible w r.tenant_id)
        w.view.applications row h in
    (
      str_eq→eq row.application_id id (ground arith),
      str_eq→eq row.tenant_id w.tenant (ground arith),
    )

-- The aggregate that `get` finds is read from a row of that id, in the session's tenant.
pub find-IsFound :
    (tenant id : String) (w : World) (a : Application)
    → load_application tenant (find_application id w) ≡ ok (some a)
    → (row : ApplicationRow) × IsFound tenant id w a row
find-IsFound tenant id w a h = elim (Option-cases (find_application id w)) [
  | inl missing ↦ absurd (ground arith)
  | inr (row, found) ↦
      let (own, built) =
        load_own tenant row a (subst (λ o. load_application tenant o ≡ ok (some a)) found h) in
      let (same_id, in_session) = found_own id w row found in
      (
        row,
        record {
          found = found;
          of_row = row_to_application-IsOf row a built;
          same_id = same_id;
          in_session = in_session;
          in_tenant = own;
        },
      )
]
