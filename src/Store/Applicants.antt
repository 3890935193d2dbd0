-- ===== src/Store/Applicants.antt =====
-- finassist/infrastructure/postgres/repository.py: the look-up of an applicant.
use loan_credit.Prelude.{not, ◌&&◌, Option, none, some, String, find, str_eq, if◌then◌else◌}
use loan_credit.Domain.Error.{Result, ok}
use loan_credit.Domain.Error
use loan_credit.Domain.Applicant
use loan_credit.Domain.Applicant.{Applicant}
use loan_credit.Store.Rows.{ApplicantRow}
use loan_credit.Store.Session.{Env, World, Action, read, visible}

-- The entity is built, and so checked, again.
unfoldable pub row_to_applicant : Env → ApplicantRow → Result Applicant
row_to_applicant env row = Applicant.validate env.repr (record {
  applicant_id = row.applicant_id;
  tenant_id = row.tenant_id;
  given_name = row.given_name;
  family_name = row.family_name;
  date_of_birth = row.date_of_birth;
  email = row.email;
})

abbrev pub load_applicant : Env → String → Option ApplicantRow → Result (Option Applicant)
load_applicant env tenant none = ok none
load_applicant env tenant (some row) =
    if not (str_eq row.tenant_id tenant)
    then ok none
    else Error.◌>>=◌ (row_to_applicant env row) λ a. ok (some a)

unfoldable pub find_applicant : String → World → Option ApplicantRow
find_applicant id w =
    find (λ r. str_eq r.applicant_id id && visible w r.tenant_id) w.view.applicants

-- `SqlAlchemyApplicantRepository.get`
unfoldable pub get_applicant : Env → (tenant id : String) → Action (Option Applicant)
get_applicant env tenant id = read (λ w. load_applicant env tenant (find_applicant id w))
