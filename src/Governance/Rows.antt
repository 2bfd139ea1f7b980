-- ===== src/Governance/Rows.antt =====
-- The rows that services/api/src/tkp_api/governance/deletion.py reads and writes. Of the rows that it
-- only deletes the columns are kept that select them.
use tkp_platform.Base.{ℕ, Option, List}
use tkp_platform.Base.Text.{Text}
use tkp_platform.Worker.Rows.{Database}
use tkp_platform.Access.Rows.{TenantMembership, WorkspaceMembership, KbMembership}

-- `other` is any text that is not in `_SUPPORTED_RESOURCE_TYPES`.
pub data ResourceType : Type 0 where
  document user conversation : ResourceType
  other : Text → ResourceType

pub data RequestStatus : Type 0 where
  pending approved rejected cancelled expired completed failed : RequestStatus

pub record DeletionRequest : Type 0 where
  pub id : ℕ
  pub tenant_id : ℕ
  pub user_id : ℕ
  pub resource_type : ResourceType
  pub resource_id : ℕ
  pub reason : Text
  pub status : RequestStatus
  pub requested_at : ℕ
  pub approved_by : Option ℕ
  pub approved_at : Option ℕ
  pub rejected_by : Option ℕ
  pub rejected_at : Option ℕ
  pub reject_reason : Option Text
  pub executed_by : Option ℕ
  pub executed_at : Option ℕ
  pub proof_id : Option ℕ
  pub created_at : ℕ
  pub updated_at : ℕ

pub record DeletionProof : Type 0 where
  pub proof_id : ℕ
  pub request_id : ℕ
  pub tenant_id : ℕ
  pub resource_type : ResourceType
  pub resource_id : ℕ
  pub deleted_at : ℕ
  pub deleted_by : ℕ
  pub data_hash : Text
  pub proof_hash : Text

-- A conversation, and an agent run within one.
pub record Conversation : Type 0 where
  pub id : ℕ
  pub tenant_id : ℕ
  pub user_id : ℕ

pub record AgentRun : Type 0 where
  pub id : ℕ
  pub tenant_id : ℕ
  pub user_id : ℕ
  pub conversation_id : Option ℕ

pub record Feedback : Type 0 where
  pub id : ℕ
  pub tenant_id : ℕ
  pub user_id : ℕ
  pub conversation_id : Option ℕ

pub record FeedbackReplay : Type 0 where
  pub feedback_id : ℕ

-- A row of messages.
pub record MessageRow : Type 0 where
  pub tenant_id : ℕ
  pub conversation_id : ℕ

-- A row of agent_recoveries or of agent_checkpoints.
pub record OfRun : Type 0 where
  pub tenant_id : ℕ
  pub agent_run_id : ℕ

-- A row of retrieval_logs.
pub record LogRow : Type 0 where
  pub tenant_id : ℕ
  pub user_id : ℕ

pub record User : Type 0 where
  pub id : ℕ
  pub email : Text
  pub display_name : Text
  pub status : Text

-- The tables that a deletion touches; those of the documents are the worker's. `user_credentials` and
-- `user_mfa_totp` are lists of the users that have a row there.
pub record Tables : Type 0 where
  pub store : Database
  pub conversations : List Conversation
  pub messages : List MessageRow
  pub agent_runs : List AgentRun
  pub agent_recoveries : List OfRun
  pub agent_checkpoints : List OfRun
  pub user_feedbacks : List Feedback
  pub feedback_replays : List FeedbackReplay
  pub retrieval_logs : List LogRow
  pub workspace_memberships : List WorkspaceMembership
  pub kb_memberships : List KbMembership
  pub tenant_memberships : List TenantMembership
  pub users : List User
  pub user_credentials : List ℕ
  pub user_mfa_totp : List ℕ

pub record GovernanceDb : Type 0 where
  pub requests : List DeletionRequest
  pub proofs : List DeletionProof
  pub tables : Tables
