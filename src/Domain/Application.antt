-- ===== src/Domain/Application.antt =====
-- finassist/domain/applications/application.py: the aggregate root. A method that mutates the
-- object returns the new one; the instant that the clock gives is an argument.
pub mod History
use loan_credit.Prelude.{ℕ, ◌+◌, not, ◌||◌, Option, none, some, List, [], ◌∷◌, ◌++◌, String}
use loan_credit.Prelude.Int.{ℤ, pos, ltb_ℤ}
use loan_credit.Domain.Status.{ApplicationStatus, draft, submitted, cancelled, is_legal_transition}
use loan_credit.Domain.Error.{Result, ok, value_error, illegal_state_transition, ◌>>◌, raise_if}
use loan_credit.Domain.Money
use loan_credit.Domain.Money.{Money}
use loan_credit.Domain.Product.{Product}
use loan_credit.Domain.Event.{DomainEvent, application_created, application_state_changed}

pub record Application : Type 0 where
  pub application_id : String
  pub tenant_id : String
  pub applicant_id : String
  pub product_id : String
  pub requested_amount : Money
  pub requested_term_months : ℤ
  pub status : ApplicationStatus
  pub version : ℕ
  pub created_at : ℕ
  pub updated_at : ℕ
  pub active_workflow_id : Option String
  pub pending_events : List DomainEvent

unfoldable pub create :
    (application_id tenant_id applicant_id : String)
    → Product
    → Money
    → ℤ
    → (now : ℕ) → Result Application
unfolding Money.is_negative Money.is_zero
create application_id tenant_id applicant_id product amount term now = do
  raise_if (Money.is_negative amount || Money.is_zero amount)
      (value_error "requested_amount must be positive")
  raise_if (ltb_ℤ term (pos 1)) (value_error "requested_term_months must be at least 1")
  ok (record {
    application_id = application_id;
    tenant_id = tenant_id;
    applicant_id = applicant_id;
    product_id = product.product_id;
    requested_amount = amount;
    requested_term_months = term;
    status = draft;
    version = 1;
    created_at = now;
    updated_at = now;
    active_workflow_id = none;
    pending_events =
        record {
          application_id = application_id;
          tenant_id = tenant_id;
          occurred_at = now;
          body = application_created product.product_id;
        }
        ∷ [];
  })

-- The object after a legal transition.
unfoldable pub moved_to : Application → ApplicationStatus → String → ℕ → Application
moved_to a new_status reason now = record a {
  status = new_status;
  version = a.version + 1;
  updated_at = now;
  pending_events =
      a.pending_events
      ++ record {
        application_id = a.application_id;
        tenant_id = a.tenant_id;
        occurred_at = now;
        body = application_state_changed a.status new_status reason (a.version + 1);
      }
        ∷ [];
}

unfoldable pub transition_to : Application → ApplicationStatus → String → ℕ → Result Application
unfolding moved_to
transition_to a new_status reason now = do
  raise_if (not (is_legal_transition a.status new_status))
      (illegal_state_transition a.status new_status)
  ok (moved_to a new_status reason now)

unfoldable pub submit : Application → ℕ → Result Application
submit a now = transition_to a submitted "applicant submitted" now

unfoldable pub cancel : Application → String → ℕ → Result Application
cancel a reason now = transition_to a cancelled reason now

unfoldable pub attach_workflow : Application → String → Application
attach_workflow a workflow_id = record a { active_workflow_id = some workflow_id }

unfoldable pub detach_workflow : Application → Application
detach_workflow a = record a { active_workflow_id = none }

-- The drained events, and the object without them.
unfoldable pub pull_events : Application → List DomainEvent × Application
pull_events a = (a.pending_events, record a { pending_events = [] })
