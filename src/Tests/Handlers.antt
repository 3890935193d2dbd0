-- ===== src/Tests/Handlers.antt =====
-- Runs of the handlers: a case from its creation to its approval, a second review, an upload.
use loan_credit.Prelude.{◌≡◌, refl, none, some, [], ◌∷◌, map}
use loan_credit.Domain.Status.{awaiting_human_review, approved, needs_more_information}
use loan_credit.Domain.Error.{ok, Error, err, duplicate_request, integrity_error}
use loan_credit.Domain.Files.{
  scan, scan_as, expected_content_type, suffix_from, lowers_to, sniff_content_type,
}
use loan_credit.Store.UnitOfWork.Chain.{AreChained}
use loan_credit.Commands.EnterHumanReview.{handle_enter_human_review}
use loan_credit.Commands.Decisions.{AreRecorded}
use loan_credit.Commands.ReviewOnce.{HasEntry}
use loan_credit.Commands.Handlers.{handle}
use loan_credit.Commands.Handlers.Later.{Later, reviewed_only_once}
use loan_credit.Commands.Handlers.Reachable
use loan_credit.Commands.Handlers.Reachable.{
  Reach, handle_atomic, reachable-AreRecorded, reachable-AreChained,
}
use loan_credit.Commands.Idempotency.{HasKey, key_of, duplicate_is_rejected}
use loan_credit.Queries.GetApplicationStatus.{get_application_status}
use loan_credit.Queries.GetApplicationStatus.Current.{IsCurrent, get_application_status-IsCurrent}
use loan_credit.Api.Problems.{raised, problem_of, respond, unexpected_problem}
use loan_credit.Store.Documents
use loan_credit.Commands.UploadDocument
use loan_credit.Tests.Scenario.{
  env, seeded, apply_for, app, sent, checked, counted, decided, after, in_review, everything,
  resubmitted, second_review, payslip,
}

seeded-Reach : Reach env none seeded
seeded-Reach = Reachable.start seeded refl refl refl refl

approved-Reach : Reach env none (after (decided approved) in_review)
approved-Reach = Reachable.serve (decided approved) (
    Reachable.serve counted
      (Reachable.serve checked (Reachable.serve sent (Reachable.serve apply_for seeded-Reach))))

approved_run :
    map (λ r. r.status) (after (decided approved) in_review).durable.applications ≡ "APPROVED" ∷ []
unfolding everything
approved_run = refl

reachable-AreRecorded_example : AreRecorded (after (decided approved) in_review).durable
reachable-AreRecorded_example = reachable-AreRecorded approved-Reach

reachable-AreChained_example : AreChained env (after (decided approved) in_review).durable
reachable-AreChained_example = reachable-AreChained approved-Reach

unknown_case : (handle env none sent seeded).0 ≡ err (Error.application_not_found app)
unfolding everything
unknown_case = refl

handle_atomic_example : (handle env none sent seeded).1.durable ≡ seeded.durable
handle_atomic_example =
    handle_atomic env none sent seeded (Error.application_not_found app) unknown_case

key_taken : HasKey (key_of apply_for) (after apply_for seeded).durable
unfolding everything
key_taken = refl

duplicate_is_rejected_example :
    ((handle env none apply_for (after apply_for seeded)).0
      ≡ err (duplicate_request "create_application" "k"))
    × ((handle env none apply_for (after apply_for seeded)).1.durable
        ≡ (after apply_for seeded).durable)
duplicate_is_rejected_example =
    duplicate_is_rejected env none apply_for (after apply_for seeded) refl key_taken

resubmitted_case : map (λ r. r.status) resubmitted.durable.applications ≡ "DOCUMENT_PROCESSING" ∷ []
unfolding everything
resubmitted_case = refl

second_review_clashes :
    (handle_enter_human_review env second_review resubmitted).0
    ≡ err (integrity_error "review_queue_entries")
unfolding everything
second_review_clashes = refl

in_review_entry : HasEntry app in_review.durable
unfolding everything
in_review_entry = refl

in_review_fresh : in_review.view ≡ in_review.durable
unfolding everything
in_review_fresh = refl

reviewed_only_once_example :
    (e : Error) × ((handle_enter_human_review env second_review resubmitted).0 ≡ err e)
    × ((handle_enter_human_review env second_review resubmitted).1.durable ≡ resubmitted.durable)
reviewed_only_once_example =
    reviewed_only_once second_review in_review_fresh in_review_entry
      (Later.serve _ (Later.serve (decided needs_more_information) Later.here))

uploaded_types :
    map (λ d. d.document_type) (after payslip (after apply_for seeded)).durable.documents
    ≡ "payslip" ∷ []
unfolding everything scan scan_as expected_content_type suffix_from lowers_to sniff_content_type
    Documents.add_document UploadDocument.object_key_of UploadDocument.upload_document
    UploadDocument.upload_in_transaction
uploaded_types = refl

status_read :
    (get_application_status (record { tenant_id = "t1"; application_id = app }) in_review).0
    ≡ ok (record {
      application_id = app;
      status = awaiting_human_review;
      version = 5;
      active_workflow_id = some "application:t1:i:vn";
    })
unfolding everything get_application_status
status_read = refl

get_application_status-IsCurrent_example :
    IsCurrent
      (record { tenant_id = "t1"; application_id = app })
      in_review
      (record {
        application_id = app;
        status = awaiting_human_review;
        version = 5;
        active_workflow_id = some "application:t1:i:vn";
      })
get_application_status-IsCurrent_example =
    get_application_status-IsCurrent (record { tenant_id = "t1"; application_id = app }) in_review
      (record {
        application_id = app;
        status = awaiting_human_review;
        version = 5;
        active_workflow_id = some "application:t1:i:vn";
      })
      status_read

-- The exceptions of documents are not in the table.
oversized_is_unexpected : respond (raised (Error.document_too_large 11 10)) ≡ unexpected_problem
unfolding problem_of respond
oversized_is_unexpected = refl
