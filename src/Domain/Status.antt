-- ===== src/Domain/Status.antt =====
-- src/finassist/domain/applications/status.py: the fifteen case statuses and the table of legal
-- transitions. The table is built from the same four parts as in the source.
pub mod Paths
use loan_credit.Prelude.{
  ℕ, Bool, Option, none, some, List, [], ◌∷◌, ◌++◌, String, any, find, ◌==◌, str_eq, if◌then◌else◌,
}

pub data ApplicationStatus : Type 0 where
  draft submitted intake_validation document_processing verification : ApplicationStatus
  policy_evaluation affordability_evaluation fraud_analysis risk_synthesis : ApplicationStatus
  awaiting_human_review approved declined needs_more_information : ApplicationStatus
  escalated cancelled : ApplicationStatus

-- The position of a member in the enumeration, by which members are compared.
abbrev pub rank : ApplicationStatus → ℕ
rank draft = 0
rank submitted = 1
rank intake_validation = 2
rank document_processing = 3
rank verification = 4
rank policy_evaluation = 5
rank affordability_evaluation = 6
rank fraud_analysis = 7
rank risk_synthesis = 8
rank awaiting_human_review = 9
rank approved = 10
rank declined = 11
rank needs_more_information = 12
rank escalated = 13
rank cancelled = 14

abbrev pub same_status : ApplicationStatus → ApplicationStatus → Bool
same_status a b = rank a == rank b

-- `status in statuses`
abbrev pub contains : List ApplicationStatus → ApplicationStatus → Bool
contains statuses status = any (same_status status) statuses

abbrev pub terminal_statuses : List ApplicationStatus
terminal_statuses = approved ∷ declined ∷ cancelled ∷ []

abbrev pub cancellable_from : List ApplicationStatus
cancellable_from =
    draft ∷ submitted ∷ intake_validation ∷ document_processing ∷ verification ∷ policy_evaluation
    ∷ affordability_evaluation ∷ fraud_analysis ∷ risk_synthesis ∷ awaiting_human_review
    ∷ needs_more_information ∷ escalated ∷ []

-- The dictionary of the forward pipeline.
abbrev pub forward_pipeline : ApplicationStatus → Option ApplicationStatus
forward_pipeline draft = some submitted
forward_pipeline submitted = some intake_validation
forward_pipeline intake_validation = some document_processing
forward_pipeline document_processing = some verification
forward_pipeline verification = some policy_evaluation
forward_pipeline policy_evaluation = some affordability_evaluation
forward_pipeline affordability_evaluation = some fraud_analysis
forward_pipeline fraud_analysis = some risk_synthesis
forward_pipeline risk_synthesis = some awaiting_human_review
forward_pipeline _ = none

abbrev pub can_escalate_to_human_review : List ApplicationStatus
can_escalate_to_human_review =
    intake_validation ∷ document_processing ∷ verification ∷ policy_evaluation
    ∷ affordability_evaluation ∷ fraud_analysis ∷ risk_synthesis ∷ []

-- The explicit additions to the table for the three statuses that a human or an applicant leaves.
abbrev pub manual_targets : ApplicationStatus → List ApplicationStatus
manual_targets awaiting_human_review = approved ∷ declined ∷ needs_more_information ∷ escalated ∷ []
manual_targets escalated = approved ∷ declined ∷ awaiting_human_review ∷ []
manual_targets needs_more_information = document_processing ∷ []
manual_targets _ = []

abbrev pub option_list : Option ApplicationStatus → List ApplicationStatus
option_list none = []
option_list (some s) = s ∷ []

-- The entry of one source in the table that `_build_allowed_transitions` builds.
unfoldable pub allowed_transitions : ApplicationStatus → List ApplicationStatus
allowed_transitions source =
    option_list (forward_pipeline source)
    ++ (if contains can_escalate_to_human_review source then awaiting_human_review ∷ [] else [])
    ++ manual_targets source
    ++ (if contains cancellable_from source then cancelled ∷ [] else [])

unfoldable pub is_legal_transition : ApplicationStatus → ApplicationStatus → Bool
unfolding allowed_transitions
is_legal_transition source target = contains (allowed_transitions source) target

unfoldable pub is_terminal : ApplicationStatus → Bool
is_terminal status = contains terminal_statuses status

-- `status.value`
abbrev pub value : ApplicationStatus → String
value draft = "DRAFT"
value submitted = "SUBMITTED"
value intake_validation = "INTAKE_VALIDATION"
value document_processing = "DOCUMENT_PROCESSING"
value verification = "VERIFICATION"
value policy_evaluation = "POLICY_EVALUATION"
value affordability_evaluation = "AFFORDABILITY_EVALUATION"
value fraud_analysis = "FRAUD_ANALYSIS"
value risk_synthesis = "RISK_SYNTHESIS"
value awaiting_human_review = "AWAITING_HUMAN_REVIEW"
value approved = "APPROVED"
value declined = "DECLINED"
value needs_more_information = "NEEDS_MORE_INFORMATION"
value escalated = "ESCALATED"
value cancelled = "CANCELLED"

abbrev pub all_statuses : List ApplicationStatus
all_statuses =
    draft ∷ submitted ∷ intake_validation ∷ document_processing ∷ verification ∷ policy_evaluation
    ∷ affordability_evaluation ∷ fraud_analysis ∷ risk_synthesis ∷ awaiting_human_review ∷ approved
    ∷ declined ∷ needs_more_information ∷ escalated ∷ cancelled ∷ []

-- `ApplicationStatus(text)`; `none` is the `ValueError`.
unfoldable pub of_value : String → Option ApplicationStatus
of_value text = find (λ s. str_eq (value s) text) all_statuses
