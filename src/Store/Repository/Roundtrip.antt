-- ===== src/Store/Repository/Roundtrip.antt =====
-- Writing an aggregate's row and reading it.
use loan_credit.Prelude.{◌≡◌, refl, []}
use loan_credit.Domain.Status.{value}
use loan_credit.Domain.Status.Paths.{of_value_iff}
use loan_credit.Domain.Error.{ok}
use loan_credit.Domain.Money.{money, cents}
use loan_credit.Domain.Application.{Application}
use loan_credit.Store.Repository.{application_to_row, row_to_application}

-- The row of an aggregate whose amount was made by `Money` is read back as the aggregate, with no
-- pending event.
pub row_to_application-application_to_row :
    (a : Application)
    → money (cents a.requested_amount.amount) a.requested_amount.currency ≡ ok a.requested_amount
    → row_to_application (application_to_row a) ≡ ok (record a { pending_events = [] })
unfolding row_to_application application_to_row
row_to_application-application_to_row a made =
    rw made (rw ((of_value_iff (value a.status) a.status).1 refl) refl)
