-- ===== src/Quota/Policies.antt =====
-- `_validate_metric_scope`, `_normalize_scope_id` and `upsert_quota_policy` of
-- services/api/src/tkp_api/services/quota.py.
use tkp_platform.Base.{
  ℕ, Bool, true, false, not, ◌&&◌, Option, none, some, List, [], ◌∷◌, ◌++◌, ◌==◌, find,
  update_where,
}
use tkp_platform.Base.Result.{Result, ok, err, ◌>>=◌, ◌>>◌, raise_if, or_raise}
use tkp_platform.Base.Text.{text_eq}
use tkp_platform.Quota.Rows.{Metric, Scope, QuotaPolicy, WorkspaceRow, Excess, QuotaDb}

pub data QuotaError : Type 0 where
  invalid_metric invalid_scope_for_metric scope_id_required invalid_scope_type workspace_not_found :
      QuotaError
  quota_exceeded : Excess → QuotaError

unfoldable pub metric_eq : Metric → Metric → Bool
metric_eq Metric.retrieval_requests Metric.retrieval_requests = true
metric_eq Metric.chat_tokens Metric.chat_tokens = true
metric_eq Metric.agent_runs Metric.agent_runs = true
metric_eq Metric.document_uploads Metric.document_uploads = true
metric_eq (Metric.other a) (Metric.other b) = text_eq a b
metric_eq _ _ = false

unfoldable pub scope_eq : Scope → Scope → Bool
scope_eq Scope.tenant Scope.tenant = true
scope_eq Scope.workspace Scope.workspace = true
scope_eq (Scope.other a) (Scope.other b) = text_eq a b
scope_eq _ _ = false

-- `_SUPPORTED_SCOPE_BY_METRIC`
unfoldable pub validate_metric_scope : Metric → Scope → Result QuotaError (Unit {0})
validate_metric_scope (Metric.other code) scope = err invalid_metric
validate_metric_scope _ Scope.tenant = ok tt
validate_metric_scope Metric.document_uploads Scope.workspace = ok tt
validate_metric_scope _ _ = err invalid_scope_for_metric

unfoldable pub normalize_scope_id : ℕ → Scope → Option ℕ → Result QuotaError ℕ
normalize_scope_id tenant Scope.tenant scope_id = ok tenant
normalize_scope_id tenant Scope.workspace scope_id = or_raise scope_id scope_id_required
normalize_scope_id tenant (Scope.other name) scope_id = err invalid_scope_type

-- The WHERE clauses that both queries of the policies share.
unfoldable pub has_key : ℕ → Scope → ℕ → Metric → QuotaPolicy → Bool
has_key tenant scope_type scope_id metric row =
    row.tenant_id == tenant
    && (scope_eq row.scope_type scope_type
        && (row.scope_id == scope_id && metric_eq row.metric_code metric))

-- What a request sets; `id` is the id that a new row gets.
pub record PolicyRequest : Type 0 where
  pub tenant_id : ℕ
  pub user_id : ℕ
  pub metric_code : Metric
  pub scope_type : Scope
  pub scope_id : Option ℕ
  pub limit_value : ℕ
  pub window_minutes : ℕ
  pub enabled : Bool
  pub id : ℕ

unfoldable pub changed_policy : PolicyRequest → QuotaPolicy → QuotaPolicy
changed_policy r row = record row {
  limit_value = r.limit_value;
  window_minutes = r.window_minutes;
  enabled = r.enabled;
  updated_by = some r.user_id;
}

unfoldable pub new_policy : PolicyRequest → ℕ → QuotaPolicy
new_policy r scope_id = record {
  id = r.id;
  tenant_id = r.tenant_id;
  scope_type = r.scope_type;
  scope_id = scope_id;
  metric_code = r.metric_code;
  limit_value = r.limit_value;
  window_minutes = r.window_minutes;
  enabled = r.enabled;
  created_by = some r.user_id;
  updated_by = some r.user_id;
}

-- The check that a workspace is the tenant's.
unfoldable pub check_scope_workspace : ℕ → Scope → ℕ → QuotaDb → Result QuotaError (Unit {0})
check_scope_workspace tenant Scope.workspace scope_id db = do
  w ← or_raise (find (λ (w : WorkspaceRow). w.id == scope_id) db.workspaces) workspace_not_found
  raise_if (not (w.tenant_id == tenant)) workspace_not_found
check_scope_workspace tenant _ scope_id db = ok tt

-- The key is unique, so that at most one row is changed.
abbrev pub put_found : PolicyRequest → ℕ → List QuotaPolicy → Option QuotaPolicy → List QuotaPolicy
put_found r scope_id rows none = rows ++ new_policy r scope_id ∷ []
put_found r scope_id rows (some row) =
    update_where (has_key r.tenant_id r.scope_type scope_id r.metric_code) (changed_policy r) rows

unfoldable pub put_policy : PolicyRequest → ℕ → List QuotaPolicy → List QuotaPolicy
put_policy r scope_id rows =
    put_found r scope_id rows (find (has_key r.tenant_id r.scope_type scope_id r.metric_code) rows)

unfoldable pub upsert_quota_policy : PolicyRequest → QuotaDb → Result QuotaError QuotaDb
upsert_quota_policy r db = do
  validate_metric_scope r.metric_code r.scope_type
  scope_id ← normalize_scope_id r.tenant_id r.scope_type r.scope_id
  check_scope_workspace r.tenant_id r.scope_type scope_id db
  ok (record db { policies = put_policy r scope_id db.policies })
