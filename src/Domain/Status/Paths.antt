-- ===== src/Domain/Status/Paths.antt =====
-- What the table of domain/applications/status.py allows along any path of legal transitions.
use loan_credit.Prelude.{
  ◌<◌, ◌≡◌, refl, ◌↔◌, ◌⊎◌, inl, inr, true, false, not, List, [], ◌∷◌, ◌++◌, some, String, sym,
  subst, find-eq-some, eq_iff, str_eq, arith,
}
use loan_credit.Domain.Status.{
  ApplicationStatus, draft, submitted, intake_validation, document_processing,
  awaiting_human_review, approved, declined, needs_more_information, escalated, cancelled, rank,
  contains, allowed_transitions, is_legal_transition, is_terminal, of_value, value, all_statuses,
}

-- The outcomes of a review.
abbrev pub review_outcomes : List ApplicationStatus
review_outcomes = approved ∷ declined ∷ needs_more_information ∷ escalated ∷ []

-- A legal transition to one of the four outcomes of a review starts at AWAITING_HUMAN_REVIEW, or
-- at ESCALATED: no automated stage reaches an outcome.
pub outcome_needs_review :
    (s t : ApplicationStatus)
    → is_legal_transition s t ≡ true
    → contains review_outcomes t ≡ true
    → (s ≡ awaiting_human_review) ⊎ (s ≡ escalated)
unfolding is_legal_transition
outcome_needs_review draft t legal outcome = ground arith
outcome_needs_review submitted t legal outcome = ground arith
outcome_needs_review _ t legal outcome = ground arith

-- A status is terminal exactly if its entry of the table is empty, and exactly if a case in it
-- cannot be cancelled.
pub terminal_iff :
    (s : ApplicationStatus)
    → ((is_terminal s ≡ true) ↔ (allowed_transitions s ≡ []))
      × (is_terminal s ≡ not (is_legal_transition s cancelled))
unfolding is_terminal is_legal_transition
terminal_iff draft = ((ground arith, ground arith), refl)
terminal_iff _ = ((ground arith, ground arith), refl)

abbrev pub Trail : Type 0
Trail = List ApplicationStatus

-- A path of legal transitions, with the statuses that it visits after the first, latest first.
pub data LegalPath (s : ApplicationStatus) : Trail → ApplicationStatus → Type 0 where
  here : LegalPath s [] s
  next :
      {trail : Trail} {t u : ApplicationStatus}
      → LegalPath s trail t
      → is_legal_transition t u ≡ true
      → LegalPath s (u ∷ trail) u

-- Either human review has been visited, or the case is before it or cancelled.
abbrev BeforeReview : Trail → ApplicationStatus → Type 0
BeforeReview trail t =
    (contains trail awaiting_human_review ≡ true) ⊎ ((rank t < 9) ⊎ (t ≡ cancelled))

BeforeReview-step :
    (trail : Trail) (t u : ApplicationStatus)
    → BeforeReview trail t
    → is_legal_transition t u ≡ true
    → BeforeReview (u ∷ trail) u
unfolding is_legal_transition
BeforeReview-step trail draft u b legal = ground arith
BeforeReview-step trail submitted u b legal = ground arith
BeforeReview-step trail _ u b legal = ground arith

LegalPath-BeforeReview :
    {trail : Trail} {t : ApplicationStatus} → LegalPath draft trail t → BeforeReview trail t
LegalPath-BeforeReview here = inr (inl (omega arith))
LegalPath-BeforeReview (next {trail = trail} {t = t} {u = u} p legal) =
    BeforeReview-step trail t u (LegalPath-BeforeReview p) legal

-- On every path of legal transitions from DRAFT to an outcome of a review, the case has been in
-- AWAITING_HUMAN_REVIEW.
pub outcome_visits_review :
    {trail : Trail} {t : ApplicationStatus}
    → LegalPath draft trail t
    → contains review_outcomes t ≡ true
    → contains trail awaiting_human_review ≡ true
outcome_visits_review p outcome = ground (arith, LegalPath-BeforeReview p)

prepend :
    {s t u : ApplicationStatus} {trail : Trail}
    → is_legal_transition s t ≡ true
    → LegalPath t trail u
    → LegalPath s (trail ++ t ∷ []) u
prepend legal here = next here legal
prepend legal (next p last) = next (prepend legal p) last

abbrev pub CanBeApproved : ApplicationStatus → Type 0
CanBeApproved s = (trail : Trail) × LegalPath s trail approved

from_review : CanBeApproved awaiting_human_review
unfolding is_legal_transition
from_review = (approved ∷ [], next here refl)

after_step :
    {s : ApplicationStatus} (t : ApplicationStatus)
    → is_legal_transition s t ≡ true
    → CanBeApproved t
    → CanBeApproved s
after_step t legal (trail, p) = (trail ++ t ∷ [], prepend legal p)

-- Enough for every status from which review is one step away.
through_review :
    (s : ApplicationStatus) → is_legal_transition s awaiting_human_review ≡ true → CanBeApproved s
through_review s legal = after_step awaiting_human_review legal from_review

from_submitted : CanBeApproved submitted
unfolding is_legal_transition
from_submitted = after_step intake_validation refl (through_review intake_validation refl)

-- Every case that is not terminal can still be approved: some path of legal transitions leads to
-- APPROVED.
pub can_be_approved : (s : ApplicationStatus) → is_terminal s ≡ false → CanBeApproved s
unfolding is_terminal is_legal_transition
can_be_approved draft live = after_step submitted refl from_submitted
can_be_approved submitted live = from_submitted
can_be_approved awaiting_human_review live = from_review
can_be_approved needs_more_information live =
    after_step document_processing refl (through_review document_processing refl)
can_be_approved approved live = cc
can_be_approved declined live = cc
can_be_approved cancelled live = cc
can_be_approved s live = through_review s refl

of_value-value : (s : ApplicationStatus) → of_value (value s) ≡ some s
unfolding of_value
of_value-value draft = refl
of_value-value submitted = refl
of_value-value _ = refl

-- `ApplicationStatus(text)` is a status exactly if the text is the status's value.
pub of_value_iff :
    (text : String) (s : ApplicationStatus) → (of_value text ≡ some s) ↔ (text ≡ value s)
unfolding of_value
of_value_iff text s = (
  λ h. sym ((eq_iff (value s) text).0 (find-eq-some (λ r. str_eq (value r) text) all_statuses s h)),
  λ e. subst (λ t. of_value t ≡ some s) (sym e) (of_value-value s),
)
