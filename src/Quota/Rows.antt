-- ===== src/Quota/Rows.antt =====
-- The rows that quotas are about (services/api/src/tkp_api/models/quota.py, and the columns that
-- `_usage_in_window` of services/quota.py counts).
use tkp_platform.Base.{ℕ, Bool, Option, List}
use tkp_platform.Base.Text.{Text}

-- `QuotaMetric`, and any other code that a request may name.
pub data Metric : Type 0 where
  retrieval_requests chat_tokens agent_runs document_uploads : Metric
  other : Text → Metric

pub data Scope : Type 0 where
  tenant workspace : Scope
  other : Text → Scope

pub record QuotaPolicy : Type 0 where
  pub id : ℕ
  pub tenant_id : ℕ
  pub scope_type : Scope
  pub scope_id : ℕ
  pub metric_code : Metric
  pub limit_value : ℕ
  pub window_minutes : ℕ
  pub enabled : Bool
  pub created_by : Option ℕ
  pub updated_by : Option ℕ

-- A row of retrieval_logs or of agent_runs.
pub record Event : Type 0 where
  pub tenant_id : ℕ
  pub created_at : ℕ

-- `total_tokens` is the number in `usage`, if `usage` is an object that has one.
pub record Message : Type 0 where
  pub tenant_id : ℕ
  pub by_assistant : Bool
  pub total_tokens : Option ℕ
  pub created_at : ℕ

pub record Upload : Type 0 where
  pub tenant_id : ℕ
  pub workspace_id : ℕ
  pub created_at : ℕ

pub record WorkspaceRow : Type 0 where
  pub id : ℕ
  pub tenant_id : ℕ

-- What the audit log says of an exceeded quota, which the raised error repeats.
pub record Excess : Type 0 where
  pub policy_id : ℕ
  pub metric_code : Metric
  pub scope_type : Scope
  pub scope_id : ℕ
  pub limit_value : ℕ
  pub used_value : ℕ
  pub projected_value : ℕ
  pub window_minutes : ℕ

pub record QuotaDb : Type 0 where
  pub policies : List QuotaPolicy
  pub workspaces : List WorkspaceRow
  pub retrieval_logs : List Event
  pub agent_runs : List Event
  pub messages : List Message
  pub documents : List Upload
  pub alerts : List Excess
