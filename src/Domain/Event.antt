-- ===== src/Domain/Event.antt =====
-- finassist/domain/applications/events.py: a `DomainEvent` with the fields of the base class, and
-- a constructor for each subclass.
use loan_credit.Prelude.{ℕ, String}
use loan_credit.Domain.Status.{ApplicationStatus}

pub data EventBody : Type 0 where
  application_created : (product_id : String) → EventBody
  application_state_changed :
      (previous_status new_status : ApplicationStatus) (reason : String) (version : ℕ) → EventBody
  document_uploaded : (document_id document_type object_key : String) → EventBody

-- `occurred_at` is an instant, counted from a fixed origin.
pub record DomainEvent : Type 0 where
  pub application_id : String
  pub tenant_id : String
  pub occurred_at : ℕ
  pub body : EventBody
