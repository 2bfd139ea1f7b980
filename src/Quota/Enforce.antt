-- ===== src/Quota/Enforce.antt =====
-- `_usage_in_window` and `enforce_quota` of services/api/src/tkp_api/services/quota.py.
use tkp_platform.Base.{
  ℕ, ◌+◌, ◌*◌, max, Bool, true, false, ◌&&◌, Option, none, some, List, [], ◌∷◌, ◌++◌, ◌==◌,
  if◌then◌else◌, leb, filter, find, length,
}
use tkp_platform.Base.Result.{Result, ok, err}
use tkp_platform.Quota.Rows.{Metric, Scope, QuotaPolicy, Event, Message, Upload, Excess, QuotaDb}
use tkp_platform.Quota.Policies.{QuotaError, quota_exceeded, has_key, validate_metric_scope}

-- created_at >= now - max(1, minutes) minutes
unfoldable pub in_window : ℕ → ℕ → ℕ → Bool
in_window now minutes created_at = leb now (created_at + max 1 minutes * 60_000_000)

abbrev pub token_sum : List Message → ℕ
token_sum [] = 0
token_sum (m ∷ ms) = (elim m.total_tokens [ none ↦ 0 | some n ↦ n ]) + token_sum ms

abbrev pub is_workspace : Scope → Bool
is_workspace Scope.workspace = true
is_workspace _ = false

-- Only metrics that have passed `_validate_metric_scope` get here.
unfoldable pub usage_in_window : ℕ → ℕ → Scope → ℕ → Metric → ℕ → QuotaDb → ℕ
usage_in_window now tenant scope_type scope_id Metric.retrieval_requests minutes db = length (
    filter (λ (e : Event). e.tenant_id == tenant && in_window now minutes e.created_at)
      db.retrieval_logs)
usage_in_window now tenant scope_type scope_id Metric.chat_tokens minutes db = token_sum (
    filter
      (λ (m : Message).
        m.tenant_id == tenant && (m.by_assistant && in_window now minutes m.created_at))
      db.messages)
usage_in_window now tenant scope_type scope_id Metric.agent_runs minutes db = length (
    filter (λ (e : Event). e.tenant_id == tenant && in_window now minutes e.created_at)
      db.agent_runs)
usage_in_window now tenant scope_type scope_id Metric.document_uploads minutes db = length (
    filter
      (λ (d : Upload).
        d.tenant_id == tenant
        && (in_window now minutes d.created_at
            && (if is_workspace scope_type then d.workspace_id == scope_id else true)))
      db.documents)
usage_in_window now tenant scope_type scope_id (Metric.other code) minutes db = 0

module _ (now tenant : ℕ) (metric : Metric) (increment : ℕ) (db : QuotaDb) where
  abbrev pub enabled_policy : Scope × ℕ → Option QuotaPolicy
  enabled_policy s =
      find (λ (row : QuotaPolicy). has_key tenant s.0 s.1 metric row && row.enabled) db.policies

  abbrev pub used_by : Scope × ℕ → QuotaPolicy → ℕ
  used_by s row = usage_in_window now tenant s.0 s.1 metric row.window_minutes db

  unfoldable pub excess_of : Scope × ℕ → QuotaPolicy → Excess
  excess_of s row = record {
    policy_id = row.id;
    metric_code = metric;
    scope_type = s.0;
    scope_id = s.1;
    limit_value = row.limit_value;
    used_value = used_by s row;
    projected_value = used_by s row + increment;
    window_minutes = row.window_minutes;
  }

  -- One round of the loop: the excess, if there is one. `none` is `continue`.
  unfoldable pub check_policy : Scope × ℕ → Option QuotaPolicy → Option Excess
  check_policy s none = none
  check_policy s (some row) =
      if leb (used_by s row + increment) row.limit_value then none else some (excess_of s row)

  -- `except HTTPException: continue`
  abbrev pub check_supported : Scope × ℕ → Result QuotaError (Unit {0}) → Option Excess
  check_supported s (err e) = none
  check_supported s (ok u) = check_policy s (enabled_policy s)

  unfoldable pub check_scope : Scope × ℕ → Option Excess
  check_scope s = check_supported s (validate_metric_scope metric s.0)

  -- The first excess is raised, and ends the loop.
  abbrev pub first_of : Option Excess → Option Excess → Option Excess
  first_of none later = later
  first_of (some e) later = some e

  unfoldable pub check_scopes : List (Scope × ℕ) → Option Excess
  check_scopes [] = none
  check_scopes (s ∷ rest) = first_of (check_scope s) (check_scopes rest)

  abbrev pub scope_pairs : Option ℕ → List (Scope × ℕ)
  scope_pairs none = (Scope.tenant, tenant) ∷ []
  scope_pairs (some w) = (Scope.tenant, tenant) ∷ (Scope.workspace, w) ∷ []

  abbrev pub raised : Option Excess → QuotaDb × Result QuotaError (Unit {0})
  raised none = (db, ok tt)
  raised (some e) = (record db { alerts = db.alerts ++ e ∷ [] }, err (quota_exceeded e))

  -- The database after the check, with the audit row that is committed before the error is raised.
  unfoldable pub enforce_quota : Option ℕ → QuotaDb × Result QuotaError (Unit {0})
  enforce_quota workspace_id =
      if increment == 0 then (db, ok tt) else raised (check_scopes (scope_pairs workspace_id))
