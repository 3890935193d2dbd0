-- ===== src/Tests/Domain.antt =====
-- The domain at concrete statuses, amounts and products.
use loan_credit.Prelude.{map, List, ℕ, ◌≡◌, refl, true, ◌&&◌, none, [], ◌∷◌, str_eq, if◌then◌else◌}
use loan_credit.Prelude.Int.{pos, ◌+ℤ◌, leb_ℤ}
use loan_credit.Domain.Status.{
  draft, submitted, intake_validation, awaiting_human_review, approved, contains, value,
  all_statuses, is_legal_transition, is_terminal,
}
use loan_credit.Domain.Status.Paths.{
  LegalPath, here, next, CanBeApproved, outcome_visits_review, can_be_approved,
}
use loan_credit.Domain.Error.{ok, err, illegal_state_transition, unsupported_document_type}
use loan_credit.Domain.Money.{Money, money, cents, quantize, round_half_even, add, sub}
use loan_credit.Domain.Money.Rounding.{IsRounded, money-IsRounded, money_idempotent}
use loan_credit.Domain.Money.Sums.{add-sub}
use loan_credit.Domain.Product.{Product, validate, accepts}
use loan_credit.Domain.Product.Bounds.{HasBounds, validate-HasBounds, accepts_iff}
use loan_credit.Domain.Application.{Application, create, moved_to, transition_to, attach_workflow}
use loan_credit.Domain.Application.History
use loan_credit.Domain.Files.{
  Scanner, PdfReading, FileSafetyReport, scan, scan_as, expected_content_type, suffix_from,
  lowers_to, sniff_content_type,
}
use loan_credit.Domain.Files.Safety.{IsSafe, scan-IsSafe}
use loan_credit.Domain.Event.{application_created}
use loan_credit.Store.Repository.{row_to_application, application_to_row}
use loan_credit.Store.Repository.Roundtrip.{row_to_application-application_to_row}

review_path :
    LegalPath draft (approved ∷ awaiting_human_review ∷ intake_validation ∷ submitted ∷ []) approved
unfolding is_legal_transition
review_path = next (next (next (next here refl) refl) refl) refl

outcome_visits_review_example :
    contains
      (approved ∷ awaiting_human_review ∷ intake_validation ∷ submitted ∷ [])
      awaiting_human_review
    ≡ true
outcome_visits_review_example = outcome_visits_review review_path refl

can_be_approved_example : CanBeApproved submitted
unfolding is_terminal
can_be_approved_example = can_be_approved submitted refl

status_texts :
    map value all_statuses
    ≡ "DRAFT" ∷ "SUBMITTED" ∷ "INTAKE_VALIDATION" ∷ "DOCUMENT_PROCESSING" ∷ "VERIFICATION"
      ∷ "POLICY_EVALUATION" ∷ "AFFORDABILITY_EVALUATION" ∷ "FRAUD_ANALYSIS" ∷ "RISK_SYNTHESIS"
      ∷ "AWAITING_HUMAN_REVIEW" ∷ "APPROVED" ∷ "DECLINED" ∷ "NEEDS_MORE_INFORMATION" ∷ "ESCALATED"
      ∷ "CANCELLED" ∷ []
status_texts = refl

round_half_even_tie : round_half_even 5 2 ≡ 2
unfolding round_half_even
round_half_even_tie = refl

-- 10.005 and 0.01 US dollars.
abbrev ten : Money
ten = record { amount = pos 1000; currency = "USD" }

abbrev cent : Money
cent = record { amount = pos 1; currency = "USD" }

ten_made : money (record { coefficient = pos 10005; places = 3 }) "USD" ≡ ok ten
unfolding money quantize round_half_even
ten_made = refl

ten_and_cent : add ten cent ≡ ok (record { amount = pos 1001; currency = "USD" })
unfolding add money quantize ◌+ℤ◌
ten_and_cent = refl

add-sub_example :
    (ten.currency ≡ cent.currency)
    × (pos 1001 ≡ pos 1000 +ℤ pos 1)
    × ("USD" ≡ ten.currency)
    × (sub (record { amount = pos 1001; currency = "USD" }) cent ≡ ok ten)
add-sub_example =
    add-sub (record { coefficient = pos 10005; places = 3 }) "USD" ten cent
      (record { amount = pos 1001; currency = "USD" }) ten_made ten_and_cent

money-IsRounded_example : IsRounded (record { coefficient = pos 10005; places = 3 }) "USD" ten
money-IsRounded_example =
    money-IsRounded (record { coefficient = pos 10005; places = 3 }) "USD" ten ten_made

abbrev euro : Money
euro = record { amount = pos 100; currency = "EUR" }

abbrev loan : Product
loan = record {
  product_id = "personal";
  code = "PL";
  name = "Personal loan";
  currency = "USD";
  min_amount = ten;
  max_amount = record { amount = pos 500000; currency = "USD" };
  min_term_months = pos 6;
  max_term_months = pos 60;
  is_active = true;
}

loan_made : validate loan ≡ ok loan
unfolding validate
loan_made = refl

validate-HasBounds_example : HasBounds loan
validate-HasBounds_example = validate-HasBounds loan loan loan_made

accepts_iff_example :
    accepts loan cent (pos 12)
    ≡ ok (
        true
        && (str_eq "USD" "USD"
            && (leb_ℤ (pos 1000) (pos 1)
                && (leb_ℤ (pos 1) (pos 500000)
                    && (leb_ℤ (pos 6) (pos 12) && leb_ℤ (pos 12) (pos 60))))))
accepts_iff_example = accepts_iff loan cent (pos 12) (validate-HasBounds loan loan loan_made)

abbrev fresh : Application
fresh = record {
  application_id = "a1";
  tenant_id = "t1";
  applicant_id = "p1";
  product_id = "personal";
  requested_amount = ten;
  requested_term_months = pos 12;
  status = draft;
  version = 1;
  created_at = 5;
  updated_at = 5;
  active_workflow_id = none;
  pending_events =
      record {
        application_id = "a1";
        tenant_id = "t1";
        occurred_at = 5;
        body = application_created "personal";
      }
      ∷ [];
}

fresh_made : create "a1" "t1" "p1" loan ten (pos 12) 5 ≡ ok fresh
unfolding create
fresh_made = refl

transition_to_cases_example : transition_to fresh approved "skipping the review" 6 ≡ (
    if is_legal_transition draft approved
    then ok (moved_to fresh approved "skipping the review" 6)
    else err (illegal_state_transition draft approved))
transition_to_cases_example = History.transition_to_cases fresh approved "skipping the review" 6

fresh_moved :
    transition_to fresh submitted "applicant submitted" 7
    ≡ ok (moved_to fresh submitted "applicant submitted" 7)
unfolding transition_to is_legal_transition
fresh_moved = refl

Steps-IsHistory_example :
    History.IsHistory (attach_workflow (moved_to fresh submitted "applicant submitted" 7) "w1")
Steps-IsHistory_example = History.Steps-IsHistory "a1" "t1" "p1" loan ten (pos 12) 5 fresh_made (
    History.next
      (History.next History.here (History.transition submitted "applicant submitted" 7 fresh_moved))
      (History.attach "w1"))

ten_again : money (cents (pos 1000)) "USD" ≡ ok ten
ten_again = money_idempotent (record { coefficient = pos 10005; places = 3 }) "USD" ten_made

row_to_application-application_to_row_example :
    row_to_application (application_to_row fresh) ≡ ok (record fresh { pending_events = [] })
row_to_application-application_to_row_example =
    row_to_application-application_to_row fresh ten_again

abbrev scanner : Scanner
scanner = record { max_size_bytes = 10; max_pages = 3; read_pdf = λ bytes. PdfReading.readable 2 }

abbrev pdf_bytes : List ℕ
pdf_bytes = 0x25 ∷ 0x50 ∷ 0x44 ∷ 0x46 ∷ 0x2d ∷ 0x31 ∷ []

abbrev pdf_report : FileSafetyReport
pdf_report = record { detected_content_type = "application/pdf"; page_count = 2 }

pdf_scanned : scan scanner pdf_bytes "a.b.PDF" "text/plain" ≡ ok pdf_report
unfolding scan scan_as expected_content_type suffix_from lowers_to sniff_content_type
pdf_scanned = refl

scan-IsSafe_example : IsSafe scanner pdf_bytes "a.b.PDF" pdf_report
scan-IsSafe_example = scan-IsSafe scanner pdf_bytes "a.b.PDF" "text/plain" pdf_report pdf_scanned

-- Bytes that are not those of the extension's type are refused.
renamed_png :
    scan scanner pdf_bytes "a.png" "image/png" ≡ err (unsupported_document_type "image/png")
unfolding scan scan_as expected_content_type suffix_from lowers_to sniff_content_type
renamed_png = refl

-- Without a dot, the whole name is the extension.
undotted_name : scan scanner pdf_bytes "pdf" "text/plain" ≡ ok pdf_report
unfolding scan scan_as expected_content_type suffix_from lowers_to sniff_content_type
undotted_name = refl
