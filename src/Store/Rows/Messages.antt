-- ===== src/Store/Rows/Messages.antt =====
-- finassist/infrastructure/postgres/orm_models.py: the tables of the projection consumer.
use loan_credit.Prelude.{ℕ, String}

pub record InboxMessageRow : Type 0 where
  pub event_id : String
  pub consumer_name : String
  pub processed_at : ℕ

pub record StatusProjectionRow : Type 0 where
  pub application_id : String
  pub tenant_id : String
  pub status : String
  pub version : ℕ
  pub updated_at : ℕ
