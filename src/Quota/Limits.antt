-- ===== src/Quota/Limits.antt =====
-- When the quota check passes
-- (services/api/src/tkp_api/services/quota.py).
use tkp_platform.Base.{
  ℕ, ◌+◌, ◌*◌, max, leb, Bool, true, ◌&&◌, filter, find, length, ap, ◌≤◌, ◌<◌, ◌≡◌, ◌↔◌, refl, sym,
  ◌∙◌, false, Option, none, some, ◌==◌, All, some_inj, subst,
}
use tkp_platform.Base.Result.{ok}
use tkp_platform.Quota.Rows.{Metric, Scope, QuotaPolicy, Event, Message, Upload, QuotaDb}
use tkp_platform.Quota.Policies.{validate_metric_scope, scope_eq, metric_eq, has_key}
use tkp_platform.Quota.Enforce.{token_sum, in_window, usage_in_window, scope_pairs, enforce_quota}
use tkp_platform.Quota.Scopes.{Within, enforce_quota-Within}

-- What the tenant has used in so many minutes, at least one: its retrievals, the tokens of its answers, its
-- runs of agents or its uploads. Other metrics have no use.
abbrev pub tenant_use : ℕ → ℕ → QuotaDb → Metric → ℕ → ℕ
tenant_use now tenant db Metric.retrieval_requests minutes = length (
    filter
      (λ (e : Event). e.tenant_id == tenant && leb now (e.created_at + max 1 minutes * 60_000_000))
      db.retrieval_logs)
tenant_use now tenant db Metric.chat_tokens minutes = token_sum (
    filter
      (λ (m : Message).
        m.tenant_id == tenant
        && (m.by_assistant && leb now (m.created_at + max 1 minutes * 60_000_000)))
      db.messages)
tenant_use now tenant db Metric.agent_runs minutes = length (
    filter
      (λ (e : Event). e.tenant_id == tenant && leb now (e.created_at + max 1 minutes * 60_000_000))
      db.agent_runs)
tenant_use now tenant db Metric.document_uploads minutes = length (
    filter
      (λ (d : Upload). d.tenant_id == tenant && leb now (d.created_at + max 1 minutes * 60_000_000))
      db.documents)
tenant_use now tenant db (Metric.other code) minutes = 0

-- The uploads of the tenant into the workspace in so many minutes.
abbrev pub workspace_use : ℕ → ℕ → QuotaDb → ℕ → ℕ → ℕ
workspace_use now tenant db w minutes = length (
    filter
      (λ (d : Upload).
        d.tenant_id == tenant
        && (leb now (d.created_at + max 1 minutes * 60_000_000) && d.workspace_id == w))
      db.documents)

module _ (now tenant : ℕ) (metric : Metric) (increment : ℕ) (db : QuotaDb) where
  -- The enabled policy of the tenant for the metric and the scope, if there is one, leaves room.
  abbrev pub Fits : Scope → ℕ → (ℕ → ℕ) → Type 0
  Fits scope id used =
      (row : QuotaPolicy)
      → find
          (λ (x : QuotaPolicy).
            (x.tenant_id == tenant
              && (scope_eq x.scope_type scope
                  && (x.scope_id == id && metric_eq x.metric_code metric)))
            && x.enabled)
          db.policies
        ≡ some row
      → used row.window_minutes + increment ≤ row.limit_value

  abbrev pub is_known : Metric → Bool
  is_known (Metric.other code) = false
  is_known _ = true

  -- The policies of the tenant and, for uploads into a workspace, those of the workspace leave room.
  abbrev pub HasRoom : Option ℕ → Type 0
  HasRoom workspace_id =
      (is_known metric ≡ true → Fits Scope.tenant tenant (tenant_use now tenant db metric))
      × ((w : ℕ)
          → workspace_id ≡ some w
          → metric ≡ Metric.document_uploads
          → Fits Scope.workspace w (workspace_use now tenant db w))

  and_true : (b : Bool) → (b && true) ≡ b
  and_true true = refl
  and_true false = refl

  -- For the tenant, the place of an upload does not matter.
  tenant_usage :
      (m : Metric) (minutes : ℕ)
      → usage_in_window now tenant Scope.tenant tenant m minutes db
        ≡ tenant_use now tenant db m minutes
  unfolding usage_in_window in_window
  tenant_usage Metric.retrieval_requests minutes = refl
  tenant_usage Metric.chat_tokens minutes = refl
  tenant_usage Metric.agent_runs minutes = refl
  tenant_usage Metric.document_uploads minutes =
      ap (λ (p : Upload → Bool). length (filter p db.documents))
        (λ i d.
          d.tenant_id == tenant && and_true (leb now (d.created_at + max 1 minutes * 60_000_000)) i)
  tenant_usage (Metric.other code) minutes = refl

  workspace_usage :
      (w minutes : ℕ)
      → usage_in_window now tenant Scope.workspace w Metric.document_uploads minutes db
        ≡ workspace_use now tenant db w minutes
  unfolding usage_in_window in_window
  workspace_usage w minutes = refl

  known_scope : (m : Metric) → is_known m ≡ true → validate_metric_scope m Scope.tenant ≡ ok tt
  unfolding validate_metric_scope
  known_scope Metric.retrieval_requests k = refl
  known_scope Metric.chat_tokens k = refl
  known_scope Metric.agent_runs k = refl
  known_scope Metric.document_uploads k = refl
  known_scope (Metric.other code) k = cc

  scope_known : (m : Metric) → validate_metric_scope m Scope.tenant ≡ ok tt → is_known m ≡ true
  unfolding validate_metric_scope
  scope_known Metric.retrieval_requests v = refl
  scope_known Metric.chat_tokens v = refl
  scope_known Metric.agent_runs v = refl
  scope_known Metric.document_uploads v = refl
  scope_known (Metric.other code) v = cc

  uploads_only :
      (m : Metric) → validate_metric_scope m Scope.workspace ≡ ok tt → m ≡ Metric.document_uploads
  unfolding validate_metric_scope
  uploads_only Metric.retrieval_requests v = cc
  uploads_only Metric.chat_tokens v = cc
  uploads_only Metric.agent_runs v = cc
  uploads_only Metric.document_uploads v = refl
  uploads_only (Metric.other code) v = cc

  uploads_scope : validate_metric_scope Metric.document_uploads Scope.workspace ≡ ok tt
  unfolding validate_metric_scope
  uploads_scope = refl

  tenant-Fits :
      Within now tenant metric increment db (Scope.tenant, tenant)
      ↔ (is_known metric ≡ true → Fits Scope.tenant tenant (tenant_use now tenant db metric))
  unfolding has_key
  tenant-Fits = (
    λ w k row f.
        subst (λ n. n + increment ≤ row.limit_value) (tenant_usage metric row.window_minutes)
          (w row (known_scope metric k) f),
    λ w row v f.
        subst (λ n. n + increment ≤ row.limit_value) (sym (tenant_usage metric row.window_minutes))
          (w (scope_known metric v) row f),
  )

  workspace-Fits :
      (w : ℕ)
      → Within now tenant metric increment db (Scope.workspace, w) ↔ (
          metric ≡ Metric.document_uploads → Fits Scope.workspace w (workspace_use now tenant db w))
  unfolding has_key
  workspace-Fits w = (
    λ x same row f.
        let scoped : validate_metric_scope metric Scope.workspace ≡ ok tt =
          subst (λ m. validate_metric_scope m Scope.workspace ≡ ok tt) (sym same) uploads_scope in
        subst (λ n. n + increment ≤ row.limit_value)
          (ap (λ m. usage_in_window now tenant Scope.workspace w m row.window_minutes db) same
            ∙ workspace_usage w row.window_minutes)
          (x row scoped f),
    λ x row v f.
        let same = uploads_only metric v in
        subst (λ n. n + increment ≤ row.limit_value)
          (sym (
            ap (λ m. usage_in_window now tenant Scope.workspace w m row.window_minutes db) same
            ∙ workspace_usage w row.window_minutes))
          (x same row f),
  )

  all-HasRoom :
      (workspace_id : Option ℕ)
      → All
          (Within now tenant metric increment db)
          (scope_pairs now tenant metric increment db workspace_id)
        ↔ HasRoom workspace_id
  all-HasRoom none = (λ a. (tenant-Fits.0 a.0, λ w e. cc e), λ r. (tenant-Fits.1 r.0, tt))
  all-HasRoom (some v) = (
    λ a. (
      tenant-Fits.0 a.0,
      λ w e.
          subst
            (λ x.
              metric ≡ Metric.document_uploads
              → Fits Scope.workspace x (workspace_use now tenant db x))
            (some_inj e) ((workspace-Fits v).0 a.1.0),
    ),
    λ r. (tenant-Fits.1 r.0, ((workspace-Fits v).1 (r.1 v refl), tt)),
  )

  -- A request that adds something passes exactly when there is room for it: the enabled policy of the tenant
  -- for the metric, if there is one, allows what the tenant has used in its window and the increment
  -- together, and so does, for uploads into a workspace, that of the workspace for the uploads into it. A
  -- metric of another name always passes.
  pub enforce_quota_iff :
      (workspace_id : Option ℕ)
      → 0 < increment
      → ((enforce_quota now tenant metric increment db workspace_id).1 ≡ ok tt)
        ↔ HasRoom workspace_id
  enforce_quota_iff workspace_id h =
      let (passes, fits) = enforce_quota-Within now tenant metric increment db workspace_id h in
      let (opened, closed) = all-HasRoom workspace_id in
      (λ x. opened (passes x), λ r. fits (closed r))
