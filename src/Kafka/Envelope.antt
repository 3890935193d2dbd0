-- ===== src/Kafka/Envelope.antt =====
-- The messages of the events topic: finassist/infrastructure/kafka/outbox_relay.py. A message is the
-- envelope itself, which `json.dumps` writes and `json.loads` reads.
use loan_credit.Prelude.{ℕ, Option, none, String}
use loan_credit.Store.Rows.{OutboxEventRow, Payload}

pub record Envelope : Type 0 where
  pub event_id : String
  pub event_type : String
  pub schema_version : ℕ
  pub occurred_at : ℕ
  pub producer : String
  pub tenant_id : String
  pub application_id : String
  pub correlation_id : Option String
  pub causation_id : Option String
  pub traceparent : Option String
  pub data_classification : String
  pub payload : Payload

abbrev pub producer_name : String
producer_name = "finassist-api"

abbrev pub data_classification : String
data_classification = "internal"

-- `_build_envelope`
abbrev pub build_envelope : OutboxEventRow → Envelope
build_envelope row = record {
  event_id = row.event_id;
  event_type = row.event_type;
  schema_version = row.schema_version;
  occurred_at = row.occurred_at;
  producer = producer_name;
  tenant_id = row.tenant_id;
  application_id = row.aggregate_id;
  correlation_id = row.correlation_id;
  causation_id = row.causation_id;
  traceparent = none;
  data_classification = data_classification;
  payload = row.payload;
}
