-- ===== src/Api/Problems.antt =====
-- finassist/api/error_handling/problem_details.py: the HTTP status and the problem code of the
-- response to an exception. The body's text, the headers and the logging are left out.
use loan_credit.Prelude.{ℕ, Option, none, some, String}
use loan_credit.Domain.Error.{
  Error, illegal_state_transition, concurrency_conflict, invalid_application_data,
  application_not_found, product_not_found, product_rejected_request, no_active_workflow,
  duplicate_request,
}

pub record Problem : Type 0 where
  pub http_status : ℕ
  pub code : String

-- The table `_DOMAIN_EXCEPTION_STATUS`, by the class of the exception.
unfoldable pub problem_of : Error → Option Problem
problem_of (application_not_found id) =
    some (record { http_status = 404; code = "application_not_found" })
problem_of (product_not_found id) = some (record { http_status = 404; code = "product_not_found" })
problem_of (duplicate_request operation key) =
    some (record { http_status = 409; code = "duplicate_request" })
problem_of (concurrency_conflict id expected actual) =
    some (record { http_status = 409; code = "concurrency_conflict" })
problem_of (illegal_state_transition source target) =
    some (record { http_status = 409; code = "illegal_state_transition" })
problem_of (no_active_workflow id) =
    some (record { http_status = 409; code = "no_active_workflow" })
problem_of (product_rejected_request id amount term) =
    some (record { http_status = 422; code = "product_rejected_request" })
problem_of (invalid_application_data detail) =
    some (record { http_status = 422; code = "invalid_application_data" })
problem_of _ = none

-- `_handle_unexpected_error`
abbrev pub unexpected_problem : Problem
unexpected_problem = record { http_status = 500; code = "internal_server_error" }

-- What reaches the application's exception handlers: an exception of the program, one of a subclass
-- of `DomainError` with its class attributes, or the framework's refusal of a request.
pub data Raised : Type 0 where
  raised : Error → Raised
  domain_error : (http_status : ℕ) → (code : String) → Raised
  request_validation_error : Raised

-- `DomainError` itself.
abbrev pub plain_domain_error : Raised
plain_domain_error = domain_error 400 "domain_error"

abbrev pub or_unexpected : Option Problem → Problem
or_unexpected none = unexpected_problem
or_unexpected (some p) = p

-- The handler that is registered for the exception's class, or the one for every exception.
unfoldable pub respond : Raised → Problem
respond (raised e) = or_unexpected (problem_of e)
respond (domain_error http_status code) = record { http_status = http_status; code = code }
respond request_validation_error = record { http_status = 422; code = "request_validation_failed" }
