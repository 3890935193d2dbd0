-- ===== src/Tests/Scenario.antt =====
-- A case of one tenant, from its creation on: the outside world, the requests and the states.
use Prim.Native.String.{◌++◌ as ◌+++◌}
use loan_credit.Prelude.{length, ℕ, zero, suc, ◌*◌, true, false, none, some, [], ◌∷◌, String}
use loan_credit.Domain.Double.{one, unit}
use loan_credit.Domain.Facts.Extractor.{PdfPages}
use loan_credit.Prelude.Int.{pos, ◌+ℤ◌}
use loan_credit.Domain.Status.{
  awaiting_human_review, ApplicationStatus, approved, draft, needs_more_information,
  is_legal_transition, of_value,
}
use loan_credit.Domain.Error.{ok}
use loan_credit.Domain.Files.{PdfReading}
use loan_credit.Store.Rows.{empty_db}
use loan_credit.Store.Session.{Env, World, ◌>>=◌}
use loan_credit.Commands.Common.{Runner}
use loan_credit.Commands.EnterHumanReview.{EnterHumanReviewCommand, handle_enter_human_review}
use loan_credit.Commands.Handlers.{
  Request, create, submit, resubmit, advance_intake, advance_documents, apply_decision, upload,
  handle,
}
use loan_credit.Store.Session
use loan_credit.Store.Repository
use loan_credit.Store.ReviewQueue
use loan_credit.Store.Documents
use loan_credit.Store.Audit
use loan_credit.Store.UnitOfWork
use loan_credit.Domain.Money
use loan_credit.Domain.Product
use loan_credit.Domain.Applicant
use loan_credit.Domain.Application
use loan_credit.Domain.Status
use loan_credit.Commands.Common
use loan_credit.Commands.CreateApplication
use loan_credit.Commands.SubmitApplication
use loan_credit.Commands.ResubmitApplication
use loan_credit.Commands.AdvanceIntakeValidation
use loan_credit.Commands.AdvanceDocumentProcessing
use loan_credit.Commands.EnterHumanReview
use loan_credit.Commands.ApplyReviewDecision

abbrev pub marks : ℕ → String
marks zero = ""
marks (suc n) = "i" +++ marks n

abbrev pub env : Env
env = record {
  now_at = λ n. n;
  id_at = marks;
  canonical_json = λ m. m.prev_hash +++ m.event_id;
  sha256_hex = λ s. "#" +++ s;
  int_text = λ z. "n";
  decimal_text = λ z. "n";
  scanner = record {
    max_size_bytes = 100;
    max_pages = 5;
    read_pdf = λ bytes. PdfReading.readable 2;
  };
  put_object =
      λ tenant key bytes kind. ok (record { checksum_sha256 = "c"; size_bytes = length bytes });
  content_type_of = λ tenant key. ok "application/pdf";
  get_object = λ tenant key. ok [];
  reader = record {
    read_pages = λ bytes. PdfPages.texts ("GOVERNMENT-ISSUED ID" ∷ "SYNTHETIC PAY STUB" ∷ []);
    search = λ pattern text. some (text ∷ "id" ∷ "town" ∷ []);
    strip = λ s. s;
    lower = λ s. s;
    without_commas = λ s. s;
    iso_date = λ s. some s;
  };
  external = record {
    verify_identity = λ given family born id street city. ok (record {
      status = "PASS";
      name_match_score = one;
      address_match_score = one;
      date_of_birth_match = true;
      reference_id = "r";
    });
    verify_employment = λ given family id employer income. ok (record {
      is_employment_confirmed = true;
      verified_annual_income = pos 30;
      tenure_months = pos 5;
    });
    get_credit_report = λ given family born id. ok (record {
      credit_score = pos 700;
      tradelines = [];
      hard_inquiries_last_12_months = pos 0;
      is_duplicate_identity_flag = false;
    });
    get_transaction_history = λ given family id income. ok (record {
      average_daily_balance_cents = pos 9;
      nsf_count_last_90_days = pos 0;
      recent_transactions = [];
    });
  };
  read_float = λ s. ok (pos (5 * unit));
  repr = λ s. s;
  two_decimals = λ x. "x";
}

abbrev pub seeded : World
seeded =
    let db = record empty_db {
      products =
          record {
            product_id = "personal";
            tenant_id = "t1";
            code = "PL";
            name = "Personal loan";
            currency = "USD";
            min_amount = pos 1000;
            max_amount = pos 500000;
            min_term_months = pos 6;
            max_term_months = pos 60;
            is_active = true;
            created_at = 0;
          }
          ∷ [];
    } in
    record { durable = db; view = db; tenant = ""; ticks = 0; issued = 0; started = [] }

abbrev pub apply_for : Request
apply_for = create (record {
  tenant_id = "t1";
  idempotency_key = "k";
  applicant_given_name = "Ada";
  applicant_family_name = "Byron";
  applicant_date_of_birth = 700000;
  applicant_email = "ada@example.com";
  product_id = "personal";
  requested_amount = record { amount = pos 20000; currency = "USD" };
  requested_term_months = pos 12;
})

-- The second id that is drawn is the application's.
abbrev pub app : String
app = "i"

abbrev pub sent : Request
sent = submit (record { tenant_id = "t1"; application_id = app; idempotency_key = "k" })

abbrev pub checked : Request
checked = advance_intake (record { tenant_id = "t1"; application_id = app; idempotency_key = "k" })

-- There is no document, so the case enters human review.
abbrev pub counted : Request
counted =
    advance_documents (record { tenant_id = "t1"; application_id = app; idempotency_key = "k" })

abbrev pub decided : ApplicationStatus → Request
decided s = apply_decision (record {
  tenant_id = "t1";
  application_id = app;
  idempotency_key = "k";
  decision = s;
  reason = "seen";
  reviewer_id = some "r1";
})

abbrev pub after : Request → World → World
after r w = (handle env none r w).1

abbrev pub in_review : World
in_review = after counted (after checked (after sent (after apply_for seeded)))

-- What unfolds this computes whole runs.
unfoldable pub everything : Unit {0}
unfolding handle CreateApplication.create_application CreateApplication.create_in_transaction
    CreateApplication.create_checked CreateApplication.create_at_clock
    SubmitApplication.submit_application SubmitApplication.submit_in_transaction
    AdvanceIntakeValidation.advance_intake_validation AdvanceIntakeValidation.advance_intake
    AdvanceIntakeValidation.enter_document_processing
    AdvanceDocumentProcessing.advance_document_processing
    AdvanceDocumentProcessing.advance_documents ApplyReviewDecision.apply_review_decision
    ApplyReviewDecision.decide_in_transaction EnterHumanReview.handle_enter_human_review
    EnterHumanReview.enter_in_transaction ResubmitApplication.resubmit_application
    ResubmitApplication.resubmit_in_transaction Common.reserve Common.load Common.transition
    Common.record_pending Common.enter_human_review Common.application_workflow_id
    Common.start_workflow ◌>>=◌ Session.caught Session.now Session.new_id Session.insert_row
    Session.commit Session.transaction Repository.application_to_row Repository.row_to_application
    Repository.version_snapshot_row Repository.find_application Repository.get_application
    Repository.insert_version Repository.insert_application Repository.add_application
    Repository.overwrite Repository.update_applications Repository.write_application Repository.save
    Repository.add_applicant Repository.row_to_product Repository.get_product ReviewQueue.add_entry
    ReviewQueue.find_entry ReviewQueue.decide ReviewQueue.decide_in ReviewQueue.mark_decided
    Documents.documents_of Documents.count_for_application Audit.compute_audit_hash Audit.event_type
    Audit.event_payload UnitOfWork.outbox_row UnitOfWork.audit_row UnitOfWork.latest_hash
    UnitOfWork.move_checkpoint UnitOfWork.insert_outbox UnitOfWork.insert_audit
    UnitOfWork.record_event UnitOfWork.record_domain_events UnitOfWork.reserve_idempotency_key
    Money.quantize_magnitude Money.quantize Money.money Money.gt Money.le Money.is_negative
    Money.is_zero Product.validate Product.accepts Applicant.is_blank Applicant.has_at_sign
    Applicant.validate Application.create Application.moved_to Application.transition_to
    Application.attach_workflow Application.detach_workflow Application.pull_events
    Status.allowed_transitions is_legal_transition of_value ◌+ℤ◌
everything = tt

-- The case is sent back for more information and resubmitted; it stands before a second review.
abbrev pub resubmitted : World
resubmitted =
    after (resubmit (record { tenant_id = "t1"; application_id = app; idempotency_key = "k" }))
      (after (decided needs_more_information) in_review)

abbrev pub second_review : EnterHumanReviewCommand
second_review = record {
  tenant_id = "t1";
  application_id = app;
  idempotency_key = "k2";
  reason = "seen again";
}

-- An upload of a file whose bytes are those of a PDF.
abbrev pub payslip : Request
payslip = upload (record {
  tenant_id = "t1";
  application_id = app;
  idempotency_key = "k";
  document_type = "payslip";
  filename = "may.PDF";
  content_type = "text/plain";
  bytes = 0x25 ∷ 0x50 ∷ 0x44 ∷ 0x46 ∷ 0x2d ∷ 0x31 ∷ [];
})
