-- ===== src/Quota/Scopes.antt =====
-- The loop of `enforce_quota`
-- (services/api/src/tkp_api/services/quota.py).
use tkp_platform.Base.{
  ℕ, ◌+◌, ◌≤◌, ◌<◌, ◌≡◌, ◌↔◌, refl, sym, ◌∙◌, inl, inr, false, Option, none, some, List, [], ◌∷◌,
  ◌==◌, arith, All, Option-cases, some_inj, subst,
}
use tkp_platform.Base.Result.{ok, Result-cases}
use tkp_platform.Quota.Rows.{Metric, Scope, QuotaPolicy, QuotaDb}
use tkp_platform.Quota.Policies.{validate_metric_scope}
use tkp_platform.Quota.Enforce.{
  enabled_policy, used_by, check_policy, check_scope, check_scopes, scope_pairs, enforce_quota,
}

module _ (now tenant : ℕ) (metric : Metric) (increment : ℕ) (db : QuotaDb) where
  -- The enabled policy of the scope, if the metric has that scope and there is one, leaves room.
  abbrev pub Within : Scope × ℕ → Type 0
  Within s =
      (row : QuotaPolicy)
      → validate_metric_scope metric s.0 ≡ ok tt
      → enabled_policy now tenant metric increment db s ≡ some row
      → used_by now tenant metric increment db s row + increment ≤ row.limit_value

  check_policy-none :
      (s : Scope × ℕ) (row : QuotaPolicy)
      → (check_policy now tenant metric increment db s (some row) ≡ none)
        ↔ (used_by now tenant metric increment db s row + increment ≤ row.limit_value)
  unfolding check_policy
  check_policy-none s row = (λ h. ground arith, λ h. ground arith)

  check_policy-nothing : (s : Scope × ℕ) → check_policy now tenant metric increment db s none ≡ none
  unfolding check_policy
  check_policy-nothing s = refl

  check_scope-Within :
      (s : Scope × ℕ) → (check_scope now tenant metric increment db s ≡ none) ↔ Within s
  unfolding check_scope
  check_scope-Within s = elim (Result-cases (validate_metric_scope metric s.0)) [
    | inr (e, h) ↦ (λ x row v f. cc (h, v), λ x. rw h refl)
    | inl (u, h) ↦ elim (Option-cases (enabled_policy now tenant metric increment db s)) [
      | inl n ↦ (λ x row v f. cc (n, f), λ x. rw (h, n) (check_policy-nothing s))
      | inr (row, f) ↦ (
        λ x r v g.
            let same : row ≡ r = some_inj (sym f ∙ g) in
            subst
              (λ (y : QuotaPolicy).
                used_by now tenant metric increment db s y + increment ≤ y.limit_value)
              same ((check_policy-none s row).0 (rw (h, f) at x)),
        λ w. rw (h, f) ((check_policy-none s row).1 (w row h f)),
      )
    ]
  ]

  check_scopes-Within :
      (ss : List (Scope × ℕ))
      → (check_scopes now tenant metric increment db ss ≡ none) ↔ All Within ss
  unfolding check_scopes
  check_scopes-Within [] = (λ h. tt, λ h. refl)
  check_scopes-Within (s ∷ ss) =
      elim (Option-cases (check_scope now tenant metric increment db s)) [
        | inl n ↦
            let (to, from) = check_scopes-Within ss in
            (λ h. ((check_scope-Within s).0 n, to (rw n at h)), λ a. rw n (from a.1))
        | inr (e, f) ↦ (λ h. cc (rw f at h), λ a. let n = (check_scope-Within s).1 a.0 in cc (n, f))
      ]

  -- A request passes exactly when no scope in the list is exceeded.
  pub enforce_quota-Within :
      (workspace_id : Option ℕ)
      → 0 < increment
      → ((enforce_quota now tenant metric increment db workspace_id).1 ≡ ok tt)
        ↔ All Within (scope_pairs now tenant metric increment db workspace_id)
  unfolding enforce_quota
  enforce_quota-Within workspace_id h =
      let pairs = scope_pairs now tenant metric increment db workspace_id in
      let (to, from) = check_scopes-Within pairs in
      let ne : (increment == 0) ≡ false = ground arith in
      elim (Option-cases (check_scopes now tenant metric increment db pairs)) [
        | inl n ↦ (λ x. to n, λ a. rw (ne, n) refl)
        | inr (e, f) ↦ (λ x. cc (rw (ne, f) at x), λ a. let n = from a in cc (n, f))
      ]
