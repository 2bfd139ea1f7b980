-- ===== src/Quota/Tests.antt =====
-- A tenant with a limit of uploads, of which a workspace has its own.
use tkp_platform.Base.{ℕ, ◌≡◌, ◌↔◌, refl, true, some, [], ◌∷◌, arith}
use tkp_platform.Base.Result.{ok}
use tkp_platform.Quota.Rows.{Metric, Scope, Upload, QuotaDb}
use tkp_platform.Quota.Policies.{
  has_key, PolicyRequest, normalize_scope_id, validate_metric_scope, check_scope_workspace,
  put_policy, new_policy, upsert_quota_policy, metric_eq, scope_eq,
}
use tkp_platform.Quota.Enforce.{
  in_window, usage_in_window, check_policy, check_scope, check_scopes, enforce_quota,
}
use tkp_platform.Quota.Limits.{HasRoom, enforce_quota_iff}

abbrev upload : ℕ → ℕ → Upload
upload w t = record { tenant_id = 1; workspace_id = w; created_at = t }

abbrev before : QuotaDb
before = record {
  policies = [];
  workspaces = record { id = 11; tenant_id = 1 } ∷ [];
  retrieval_logs = [];
  agent_runs = [];
  messages = [];
  documents = upload 11 900_000_000 ∷ upload 12 900_000_000 ∷ upload 11 1_000 ∷ [];
  alerts = [];
}

abbrev request : PolicyRequest
request = record {
  tenant_id = 1;
  user_id = 5;
  metric_code = Metric.document_uploads;
  scope_type = Scope.workspace;
  scope_id = some 11;
  limit_value = 2;
  window_minutes = 10;
  enabled = true;
  id = 70;
}

abbrev limited : QuotaDb
limited = record before {
  policies =
      record {
        id = 70;
        tenant_id = 1;
        scope_type = Scope.workspace;
        scope_id = 11;
        metric_code = Metric.document_uploads;
        limit_value = 2;
        window_minutes = 10;
        enabled = true;
        created_by = some 5;
        updated_by = some 5;
      }
      ∷ [];
}

adds_policy : upsert_quota_policy request before ≡ ok limited
unfolding upsert_quota_policy validate_metric_scope normalize_scope_id check_scope_workspace
    put_policy new_policy
adds_policy = refl

-- One upload of the workspace is in the window: one more fits, two do not.
one_more : (enforce_quota 1_000_000_000 1 Metric.document_uploads 1 limited (some 11)).1 ≡ ok tt
unfolding enforce_quota check_scopes check_scope check_policy validate_metric_scope has_key scope_eq
    metric_eq usage_in_window in_window
one_more = refl

enforce_quota_iff_example :
    ((enforce_quota 1_000_000_000 1 Metric.document_uploads 2 limited (some 11)).1 ≡ ok tt)
    ↔ HasRoom 1_000_000_000 1 Metric.document_uploads 2 limited (some 11)
enforce_quota_iff_example =
    enforce_quota_iff 1_000_000_000 1 Metric.document_uploads 2 limited (some 11) (omega arith)
