-- ===== src/Store/Audit.antt =====
-- finassist/infrastructure/postgres/audit_hash.py and event_mapping.py: the record that an event
-- becomes, and the hash that chains it to the records before it.
use loan_credit.Prelude.{[], ◌∷◌, String}
use loan_credit.Domain.Status.{value}
use loan_credit.Domain.Event.{
  EventBody, application_created, application_state_changed, document_uploaded,
}
use loan_credit.Store.Rows.{Payload, text, number}
use loan_credit.Store.Session.{AuditMaterial, Env}

-- "0" * 64
abbrev pub genesis_hash : String
genesis_hash = "0000000000000000000000000000000000000000000000000000000000000000"

unfoldable pub compute_audit_hash : Env → AuditMaterial → String
compute_audit_hash env m = env.sha256_hex (env.canonical_json m)

-- `event_to_record`: the event type and the payload; the aggregate type is always "Application".
-- Every subclass is mapped, so the final `raise` cannot be reached.
unfoldable pub event_type : EventBody → String
event_type (application_created product_id) = "ApplicationCreated"
event_type (application_state_changed previous new reason version) = "ApplicationStateChanged"
event_type (document_uploaded id kind key) = "DocumentUploaded"

unfoldable pub event_payload : EventBody → Payload
event_payload (application_created product_id) = ("product_id", text product_id) ∷ []
event_payload (application_state_changed previous new reason version) =
    ("previous_status", text (value previous))
    ∷ ("new_status", text (value new))
    ∷ ("reason", text reason)
    ∷ ("version", number version)
    ∷ []
event_payload (document_uploaded id kind key) =
    ("document_id", text id) ∷ ("document_type", text kind) ∷ ("object_key", text key) ∷ []

abbrev pub aggregate_type_application : String
aggregate_type_application = "Application"
