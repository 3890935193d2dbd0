-- ===== src/Store/Repository.antt =====
-- finassist/infrastructure/postgres/repository.py and product_catalog.py.
pub mod Loaded
pub mod Roundtrip
use loan_credit.Prelude.{
  ℕ, ◌+◌, ◌-◌, Bool, true, false, not, ◌&&◌, ◌||◌, Option, none, some, List, [], ◌∷◌, ◌++◌, map,
  String, any, find, ◌==◌, str_eq, if◌then◌else◌,
}
use loan_credit.Domain.Status.{ApplicationStatus, value, of_value}
use loan_credit.Domain.Error.{Error, Result, ok, err, value_error, concurrency_conflict}
use loan_credit.Domain.Error
use loan_credit.Domain.Money
use loan_credit.Domain.Money.{Money, money, cents}
use loan_credit.Domain.Product
use loan_credit.Domain.Product.{Product}
use loan_credit.Domain.Applicant
use loan_credit.Domain.Applicant.{Applicant}
use loan_credit.Domain.Application.{Application}
use loan_credit.Store.Rows.{Db, ApplicationRow, ApplicationVersionRow, ApplicantRow, ProductRow}
use loan_credit.Store.Session.{
  Env, World, Action, continue, ◌>>=◌, ◌>>◌, read, caught, modify, now, new_id, insert_row, visible,
}

unfoldable pub application_to_row : Application → ApplicationRow
application_to_row a = record {
  application_id = a.application_id;
  tenant_id = a.tenant_id;
  applicant_id = a.applicant_id;
  product_id = a.product_id;
  requested_amount = a.requested_amount.amount;
  currency = a.requested_amount.currency;
  requested_term_months = a.requested_term_months;
  status = value a.status;
  version = a.version;
  created_at = a.created_at;
  updated_at = a.updated_at;
  active_workflow_id = a.active_workflow_id;
}

abbrev pub status_of : Option ApplicationStatus → Result ApplicationStatus
status_of none = err (value_error "not a valid ApplicationStatus")
status_of (some s) = ok s

-- The fields are built in the order of the constructor's call: the amount, then the status.
unfoldable pub row_to_application : ApplicationRow → Result Application
row_to_application row = Error.◌>>=◌ (money (cents row.requested_amount) row.currency) λ amount.
    Error.◌>>=◌ (status_of (of_value row.status)) λ status. ok (record {
      application_id = row.application_id;
      tenant_id = row.tenant_id;
      applicant_id = row.applicant_id;
      product_id = row.product_id;
      requested_amount = amount;
      requested_term_months = row.requested_term_months;
      status = status;
      version = row.version;
      created_at = row.created_at;
      updated_at = row.updated_at;
      active_workflow_id = row.active_workflow_id;
      pending_events = [];
    })

unfoldable pub version_snapshot_row : Application → String → ApplicationVersionRow
version_snapshot_row a snapshot_id = record {
  id = snapshot_id;
  application_id = a.application_id;
  tenant_id = a.tenant_id;
  version = a.version;
  status = value a.status;
  requested_amount = a.requested_amount.amount;
  currency = a.requested_amount.currency;
  requested_term_months = a.requested_term_months;
  applicant_id = a.applicant_id;
  product_id = a.product_id;
  recorded_at = a.updated_at;
}

-- `session.get(ApplicationRow, id)`: the row of the key, if the policy shows it.
unfoldable pub find_application : String → World → Option ApplicationRow
find_application id w =
    find (λ r. str_eq r.application_id id && visible w r.tenant_id) w.view.applications

abbrev pub load_application : String → Option ApplicationRow → Result (Option Application)
load_application tenant none = ok none
load_application tenant (some row) =
    if not (str_eq row.tenant_id tenant)
    then ok none
    else Error.◌>>=◌ (row_to_application row) λ a. ok (some a)

-- `SqlAlchemyApplicationRepository.get`
unfoldable pub get_application : (tenant id : String) → Action (Option Application)
unfolding read find_application row_to_application
get_application tenant id = read (λ w. load_application tenant (find_application id w))

-- The keys of `application_versions`: its id, and the application with the version.
abbrev pub version_clash : ApplicationVersionRow → Db → Bool
version_clash new db =
    any
      (λ r.
        str_eq r.id new.id
        || (str_eq r.application_id new.application_id && r.version == new.version))
      db.application_versions

unfoldable pub insert_version : ApplicationVersionRow → Action (Unit {0})
unfolding insert_row
insert_version row =
    insert_row "application_versions" row.tenant_id (version_clash row)
      (λ db. record db { application_versions = db.application_versions ++ row ∷ [] })

unfoldable pub insert_application : ApplicationRow → Action (Unit {0})
unfolding insert_row
insert_application row =
    insert_row "applications" row.tenant_id
      (λ db. any (λ r. str_eq r.application_id row.application_id) db.applications)
      (λ db. record db { applications = db.applications ++ row ∷ [] })

-- `except IntegrityError: raise ValueError`
abbrev pub already_exists : {A : Type 0} → Result A → Result A
already_exists (ok a) = ok a
already_exists (err (Error.integrity_error table)) = err (value_error "application already exists")
already_exists (err e) = err e

-- `SqlAlchemyApplicationRepository.add`
unfoldable pub add_application : Env → Application → Action (Unit {0})
add_application env a = caught already_exists (do
  id ← new_id env
  insert_application (application_to_row a)
  insert_version (version_snapshot_row a id))

-- The columns that `save` assigns.
unfoldable pub overwrite : Application → ApplicationRow → ApplicationRow
overwrite a row = record row {
  status = value a.status;
  version = a.version;
  updated_at = a.updated_at;
  requested_amount = a.requested_amount.amount;
  requested_term_months = a.requested_term_months;
  active_workflow_id = a.active_workflow_id;
}

unfoldable pub update_applications : World → Application → List ApplicationRow → List ApplicationRow
unfolding overwrite
update_applications w a = map λ r.
    if str_eq r.application_id a.application_id && visible w r.tenant_id then overwrite a r else r

-- The optimistic check: the stored version is the one before the aggregate's.
abbrev pub check_version : Application → Option ApplicationRow → Result (Unit {0})
check_version a none = err (concurrency_conflict a.application_id (a.version - 1) 0)
check_version a (some row) =
    if row.version + 1 == a.version
    then ok tt
    else err (concurrency_conflict a.application_id (a.version - 1) row.version)

unfoldable pub write_application : Application → Action (Unit {0})
unfolding update_applications
write_application a w = (
  ok tt,
  record w { view = record w.view { applications = update_applications w a w.view.applications } },
)

-- `SqlAlchemyApplicationRepository.save`
unfoldable pub save : Env → Application → Action (Unit {0})
save env a = do
  read (λ w. check_version a (find_application a.application_id w))
  write_application a
  id ← new_id env
  insert_version (version_snapshot_row a id)

-- `SqlAlchemyApplicantRepository.add`
unfoldable pub add_applicant : Env → Applicant → Action (Unit {0})
add_applicant env a = do
  created_at ← now env
  insert_row "applicants" a.tenant_id
      (λ db. any (λ r. str_eq r.applicant_id a.applicant_id) db.applicants)
      (λ db. record db {
        applicants =
            db.applicants
            ++ record {
              applicant_id = a.applicant_id;
              tenant_id = a.tenant_id;
              given_name = a.given_name;
              family_name = a.family_name;
              date_of_birth = a.date_of_birth;
              email = a.email;
              created_at = created_at;
            }
              ∷ [];
      })

unfoldable pub row_to_product : ProductRow → Result Product
row_to_product row = Error.◌>>=◌ (money (cents row.min_amount) row.currency) λ min_amount.
    Error.◌>>=◌ (money (cents row.max_amount) row.currency) λ max_amount. Product.validate (record {
      product_id = row.product_id;
      code = row.code;
      name = row.name;
      currency = row.currency;
      min_amount = min_amount;
      max_amount = max_amount;
      min_term_months = row.min_term_months;
      max_term_months = row.max_term_months;
      is_active = row.is_active;
    })

abbrev pub load_product : Option ProductRow → Result (Option Product)
load_product none = ok none
load_product (some row) = Error.◌>>=◌ (row_to_product row) λ p. ok (some p)

-- `SqlAlchemyProductCatalog.get`
unfoldable pub get_product : String → Action (Option Product)
unfolding read row_to_product
get_product id =
    read λ w.
      load_product (find (λ r. str_eq r.product_id id && visible w r.tenant_id) w.view.products)
