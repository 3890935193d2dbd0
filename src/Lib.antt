-- ===== src/Lib.antt =====
-- The loan-underwriting platform FinAssist (src/finassist): a case is created, submitted and led
-- through automated stages to a human review, whose decision ends it.
--
-- The parts, and where they are modelled:
-- Domain: src/finassist/domain. Domain/Status is applications/status.py (the statuses and the
-- table of legal transitions, built from the same four parts), Domain/Money is shared/money.py,
-- Domain/Product, Domain/Applicant, Domain/Event and Domain/Application are the files of the same
-- names in applications. A method that mutates an object returns the new one. Domain/Error has
-- the exceptions and a result type.
-- Store: src/finassist/infrastructure/postgres. Store/Rows has the tables of orm_models.py as
-- lists of rows. Store/Session is the computation that a handler runs: it reads the clock, draws
-- ids, works on a transaction's view of the database, and returns or raises; what is committed is
-- kept beside the view, so that a rollback is visible. Row-level security (migrations/versions)
-- compares a row's tenant with the session's: `visible` hides rows, `insert_row` refuses them,
-- and `insert_row` also checks the table's keys. Store/Repository, Store/ReviewQueue and
-- Store/Documents are the repositories, one function per method. Store/UnitOfWork and Store/Audit
-- write one outbox row and one hash-chained audit row per event and reserve idempotency keys.
-- Commands: src/finassist/application/commands, one module per handler, each composed as the
-- source composes it. Commands/Common has the steps that the source repeats in every handler
-- (`reserve`, `load`, `transition`, `record_pending`), `_enter_human_review.py` and
-- `_workflow_id.py`. Commands/Handlers gathers the handlers into one step function, `handle`, and
-- a run of the system is a sequence of requests, each in its own session.
--
-- Domain/Facts is src/finassist/domain/documents/document_fact.py and Domain/Facts/Extractor
-- infrastructure/documents/pdf_parser.py and regex_extractor.py; Store/Extraction is
-- extraction_repository.py. Domain/Verification is src/finassist/domain/verification/contradiction.py
-- with application/ports/external_verification.py, Store/Verification is verification_repository.py,
-- and Commands/VerifyFacts is verify_application_facts.py, whose checks are in its child Checks.
-- Domain/Double is the arithmetic of Python's floats. Commands/Evidence has what the proofs about
-- ProcessDocument and VerifyApplicationFacts share.
--
-- Domain/Files is infrastructure/documents/file_safety_scanner.py, with `pypdf` as a parameter, and
-- Queries is src/finassist/application/queries.
-- Temporal is src/finassist/infrastructure/temporal: Temporal/Activities the activities, each of
-- which calls one handler with a key made of the ids that Temporal gives, Temporal/Workflow the
-- workflow over them. Temporal itself is a parameter: `execute` runs an activity at least once
-- (Temporal/Execution), each attempt to its end; Temporal/Retried is about a further attempt,
-- Temporal/Decided about who decides a case (with Commands/Granted on the handlers). The retry
-- policy and the time limits are inside of the parameter, and the signal that came within the review
-- window, or none, is an argument of the run.
-- Api/Problems is src/finassist/api/error_handling/problem_details.py.
-- Kafka is src/finassist/infrastructure/kafka. Kafka/Envelope and Kafka/Relay are outbox_relay.py: a
-- `Pipe` is the database's state with the messages that the topic holds, and the broker is a function
-- that takes or refuses a message. Kafka/Projection is projection_consumer.py: each message is
-- consumed in its own session, which keeps the inbox and the status projection.
--
-- How the parts interact: a handler opens a transaction for its tenant, reserves the idempotency
-- key, loads the aggregate, changes it by the domain's methods, saves it (with a version check and
-- a snapshot row), writes its events to the outbox and the audit trail, and commits. Submission and
-- resubmission then ask the workflow runner to start; a failure there is swallowed.
--
-- The proofs about handlers rest on a few interfaces. `Keeps` (Store/Session/Keeps) says that an
-- action keeps a predicate of the state, with one rule for each way to build an action;
-- `Primitives` (Commands/Kept) is what an invariant has to say of the repositories; `IsClosed`
-- (Commands/Closed) is the easier case of an invariant that does not look at the applications.
-- Store/Session/Atomic, Runs and Never have the
-- rules for what is committed when an action raises, for conditions before and after, and for
-- actions that cannot return.
--
-- Numbers: instants and dates are numbers, amounts are whole cents (both currencies have two decimal
-- places, and the columns are NUMERIC(18, 2)), a `Decimal` is a coefficient and a number of decimal
-- places, limited to 28 digits as in Python's default context. A float is a finite double, as a whole number of 2^-1074, and
-- operations round to the nearest, ties to even. The search for a double's spacing (`spacing` of
-- Domain/Double) runs on fuel: 2046 doublings, more than the 2045 that a double below 2^1024 needs.
-- Every other loop of the modelled code goes through a list.
--
-- What comes from outside is a field of `Env`: the clock, the id generator, `json.dumps` with sorted
-- keys, SHA-256, `str` of a number, the scanner's settings with the PDF library, the object
-- store's answers, the reader of documents (pypdf, `re.search`, a few methods of `str` and `date`),
-- the external systems, `float` of a text, `repr`, and a float with two decimals. The workflow
-- runner is an optional function that accepts or refuses a start.
--
-- Not modelled: the UUID syntax of identifiers (they are texts), NaN and infinite decimals, foreign
-- keys and CHECK constraints, SQLAlchemy's identity map and flush order (an insert meets the
-- constraints at once and is seen by later reads; in the source, two events of one transaction before
-- a tenant's first checkpoint would each add one, and the flush would fail), the order of a SELECT without ORDER BY (rows come in the order of insertion),
-- floats that are not finite or are a negative zero (where an operation has no finite result and the
-- source raises OverflowError, so does the model), two transactions that overlap in time (requests are
-- served one after the other), logging and metrics, and what the object store keeps when a transaction
-- is rolled back. Of the other parts, the HTTP routes have no model here;
-- Kafka's partitions and offsets are outside, as is a second relay that holds locks on rows; the
-- external services, the object store and the mock services are outside of the program's own logic.
pub mod Prelude
pub mod Domain
pub mod Store
pub mod Commands
pub mod Kafka
pub mod Queries
pub mod Temporal
pub mod Api
pub mod Tests
