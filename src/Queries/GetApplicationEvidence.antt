-- ===== src/Queries/GetApplicationEvidence.antt =====
-- finassist/application/queries/get_application_evidence.py.
use loan_credit.Prelude.{List, String}
use loan_credit.Domain.Verification.{VerificationCheck}
use loan_credit.Store.Session.{Action, ◌>>=◌, pure, transaction}
use loan_credit.Store.Extraction.{StoredFact, get_facts_for_application}
use loan_credit.Store.Verification.{get_checks_for_application}
use loan_credit.Commands.Common.{load}

pub record GetApplicationEvidenceQuery : Type 0 where
  pub tenant_id : String
  pub application_id : String

pub record ApplicationEvidenceResult : Type 0 where
  pub application_id : String
  pub facts : List StoredFact
  pub verification_checks : List VerificationCheck

-- `GetApplicationEvidenceHandler.handle`
unfoldable pub get_application_evidence :
    GetApplicationEvidenceQuery → Action ApplicationEvidenceResult
get_application_evidence query = transaction query.tenant_id (do
  a ← load query.tenant_id query.application_id
  facts ← get_facts_for_application query.tenant_id query.application_id
  checks ← get_checks_for_application query.tenant_id query.application_id
  pure (record {
    application_id = query.application_id;
    facts = facts;
    verification_checks = checks;
  }))
