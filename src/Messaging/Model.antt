-- ===== src/Messaging/Model.antt =====
-- svc-aerial-messaging/internal/messaging: the messages, the table `messaging.messages` of the
-- migration, and the stream of JetStream, an append-only log of what was published.
use aerial_ran_platform.Base.{ℕ, String, Bool, true, List}

pub data Sentinel : Type 0 where
  invalid_message : Sentinel

abbrev pub same : Sentinel → Sentinel → Bool
same invalid_message invalid_message = true

-- `messaging.Message`, with identifiers as texts.
pub record Message : Type 0 where
  pub id : String
  pub org_id : String
  pub from_user : String
  pub to_user : String
  pub body : String
  pub created_at : ℕ

pub record SendRequest : Type 0 where
  pub to_user_id : String
  pub body : String

-- A row of `messaging.messages`.
pub record MessageRow : Type 0 where
  pub id : ℕ
  pub org_id : ℕ
  pub from_user_id : ℕ
  pub to_user_id : ℕ
  pub body : String
  pub created_at : ℕ

pub record Published : Type 0 where
  pub subject : String
  pub payload : Message

-- The table, and the stream's log in the order of publication.
pub record Data : Type 0 where
  pub messages : List MessageRow
  pub log : List Published
