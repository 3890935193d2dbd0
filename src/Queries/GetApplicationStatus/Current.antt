-- ===== src/Queries/GetApplicationStatus/Current.antt =====
-- The answer of the status query against the committed rows.
use loan_credit.Prelude.{◌≡◌, refl, subst, ◌∙◌, some, String, arith}
use loan_credit.Domain.Status.{of_value}
use loan_credit.Domain.Error.{Result, ok, err, ok-injective}
use loan_credit.Domain.Application.{Application}
use loan_credit.Store.Rows.{ApplicationRow}
use loan_credit.Store.Session.{World, continue, pure, ◌>>=◌, transaction}
use loan_credit.Store.Repository.{get_application, find_application, load_application}
use loan_credit.Store.Repository.Loaded.{find-IsFound}
use loan_credit.Commands.Common.{load}
use loan_credit.Queries.GetApplicationStatus.{
  GetApplicationStatusQuery, ApplicationStatusResult, get_application_status,
}

-- The session that the query opens.
abbrev pub opened : GetApplicationStatusQuery → World → World
opened query w = record w { view = w.durable; tenant = query.tenant_id }

abbrev pub IsCurrent : GetApplicationStatusQuery → World → ApplicationStatusResult → Type 0
IsCurrent query w r =
    (row : ApplicationRow) × (find_application query.application_id (opened query w) ≡ some row)
    × (row.tenant_id ≡ query.tenant_id)
    × (row.application_id ≡ query.application_id)
    × (r.application_id ≡ query.application_id)
    × (of_value row.status ≡ some r.status)
    × (r.version ≡ row.version)

abbrev answer : Application → ApplicationStatusResult
answer a = record {
  application_id = a.application_id;
  status = a.status;
  version = a.version;
  active_workflow_id = a.active_workflow_id;
}

answered_from :
    (m : Result Application) (w : World) (r : ApplicationStatusResult)
    → (continue m (λ a. pure (answer a)) w).0 ≡ ok r
    → (a : Application) × (m ≡ ok a) × (answer a ≡ r)
unfolding pure
answered_from (ok a) w r h = (a, refl, ok-injective h)
answered_from (err e) w r h = cc

load_found :
    (tenant id : String) (w : World) (a : Application)
    → (load tenant id w).0 ≡ ok a
    → load_application tenant (find_application id w) ≡ ok (some a)
unfolding load get_application ◌>>=◌
load_found tenant id w a h = ground arith

loaded :
    (query : GetApplicationStatusQuery) (w : World) (r : ApplicationStatusResult)
    → (get_application_status query w).0 ≡ ok r
    → (a : Application) × (load_application query.tenant_id
          (find_application query.application_id (opened query w))
        ≡ ok (some a))
      × (answer a ≡ r)
unfolding get_application_status transaction ◌>>=◌
loaded query w r h =
    let v = opened query w in
    let m = load query.tenant_id query.application_id v in
    let (a, returned, answered) = answered_from m.0 m.1 r h in
    (a, load_found query.tenant_id query.application_id v a returned, answered)

-- If the status query returns, the database has a committed row of that id which belongs to the
-- caller's tenant, and the status and the version that it returns are the row's.
pub get_application_status-IsCurrent :
    (query : GetApplicationStatusQuery) (w : World) (r : ApplicationStatusResult)
    → (get_application_status query w).0 ≡ ok r
    → IsCurrent query w r
get_application_status-IsCurrent query w r h =
    let (a, found, answered) = loaded query w r h in
    let (row, f) = find-IsFound query.tenant_id query.application_id (opened query w) a found in
    subst (IsCurrent query w) answered (
      row,
      f.found,
      f.in_tenant,
      f.same_id,
      f.of_row.application_id ∙ f.same_id,
      f.of_row.status,
      f.of_row.version,
    )
