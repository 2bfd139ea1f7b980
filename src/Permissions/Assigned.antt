-- ===== src/Permissions/Assigned.antt =====
-- What a role may do after its permissions are set (services/api/src/tkp_api/services/permissions.py).
use tkp_platform.Base.{
  ℕ, ◌≡◌, refl, sym, ap, ◌∙◌, inl, inr, Bool, true, false, not, ◌&&◌, List, [], ◌∷◌, ◌++◌, ◌==◌,
  filter, map, arith, Bool-cases, ==_refl, ==→eq, append-nil,
}
use tkp_platform.Base.Result.{ok, Result-cases, ok_inj, raise_if}
use tkp_platform.Base.TableLaws.{filter-append, filter-not, filter-outside}
use tkp_platform.Base.Text.{Text}
use tkp_platform.Access.Rows.{TenantRole}
use tkp_platform.Permissions.Codes.{default_role_actions}
use tkp_platform.Permissions.Sets.{has_code, sorted_set, has-sorted_set}
use tkp_platform.Permissions.Actions.{
  RolePermission, forbidden, role_eq, normalize_permission_codes, unknown_codes, no_codes,
  validate_catalog_permission_codes, of_role, load_role_permissions, configured_actions, actions_of,
  list_tenant_actions, new_rows, set_tenant_role_actions, require_tenant_action,
}
use tkp_platform.Permissions.Catalog.{catalog_codes}

role_eq_refl : (r : TenantRole) → role_eq r r ≡ true
role_eq_refl r = ground arith

role_eq→eq : (a b : TenantRole) → role_eq a b ≡ true → a ≡ b
role_eq→eq a b h = ground arith

abbrev same_key : ℕ → TenantRole → ℕ → TenantRole → Bool
same_key tenant role tenant' role' = tenant' == tenant && role_eq role' role

module _ (tenant : ℕ) (role : TenantRole) where
  filter-own :
      (cs : List Text)
      → filter (of_role tenant role) (new_rows tenant role cs) ≡ new_rows tenant role cs
  filter-own [] = refl
  filter-own (c ∷ cs) =
      rw (==_refl tenant, role_eq_refl role)
        (ap (λ rows. record { tenant_id = tenant; role = role; permission_code = c } ∷ rows)
          (filter-own cs))

  codes-new_rows :
      (cs : List Text)
      → map (λ (row : RolePermission). row.permission_code) (new_rows tenant role cs) ≡ cs
  codes-new_rows [] = refl
  codes-new_rows (c ∷ cs) = ap (λ l. c ∷ l) (codes-new_rows cs)

  abbrev replaced : List Text → List RolePermission → List RolePermission
  replaced cs rows = filter (λ row. not (of_role tenant role row)) rows ++ new_rows tenant role cs

  load-replaced :
      (cs : List Text) (rows : List RolePermission)
      → load_role_permissions tenant role (replaced cs rows) ≡ cs
  unfolding load_role_permissions
  load-replaced cs rows =
      ap (map (λ (row : RolePermission). row.permission_code)) (
        filter-append (of_role tenant role) (filter (λ row. not (of_role tenant role row)) rows)
          (new_rows tenant role cs)
        ∙ ap (λ l. l ++ filter (of_role tenant role) (new_rows tenant role cs))
            (filter-not (of_role tenant role) rows)
        ∙ filter-own cs)
      ∙ codes-new_rows cs

  validated :
      (cs ns : List Text)
      → validate_catalog_permission_codes cs ≡ ok ns
      → (no_codes (unknown_codes ns) ≡ true) × (normalize_permission_codes cs ≡ ns)
  unfolding validate_catalog_permission_codes
  validated cs ns h = elim (Bool-cases (no_codes (unknown_codes (normalize_permission_codes cs)))) [
    | inr n ↦ cc (rw n at h)
    | inl t ↦
        let same = ok_inj (rw t at h) in (ap (λ l. no_codes (unknown_codes l)) (sym same) ∙ t, same)
  ]

  set_result :
      (cs ns : List Text) (rows rows' : List RolePermission)
      → set_tenant_role_actions tenant role cs rows ≡ ok (ns, rows')
      → (validate_catalog_permission_codes cs ≡ ok ns) × (replaced ns rows ≡ rows')
  unfolding set_tenant_role_actions
  set_result cs ns rows rows' h = elim (Result-cases (validate_catalog_permission_codes cs)) [
    | inr (x, e) ↦ cc (rw e at h)
    | inl (ms, e) ↦
        let same = ok_inj (rw e at h) in
        let first = ap (λ x. x.0) same in
        (e ∙ ap ok first, ap (λ l. replaced l rows) (sym first) ∙ ap (λ x. x.1) same)
  ]

  has-actions_of :
      (c : Text) (ns : List Text)
      → no_codes ns ≡ false
      → no_codes (unknown_codes ns) ≡ true
      → has_code c (actions_of tenant role ns) ≡ has_code c ns
  unfolding configured_actions
  has-actions_of c [] h k = cc
  has-actions_of c (n ∷ ns) h k = has-sorted_set c _ ∙ ap (has_code c) (catalog_codes (n ∷ ns) k)

  list-replaced :
      (cs : List Text) (rows : List RolePermission)
      → list_tenant_actions tenant role (replaced cs rows) ≡ actions_of tenant role cs
  unfolding list_tenant_actions
  list-replaced cs rows = ap (actions_of tenant role) (load-replaced cs rows)

  outside :
      (t : ℕ) (r : TenantRole) (row : RolePermission)
      → same_key tenant role t r ≡ false
      → of_role t r row ≡ true
      → of_role tenant role row ≡ false
  outside t r row other h =
      let a = ==→eq row.tenant_id t (ground (arith, h)) in
      let b = role_eq→eq row.role r (ground (arith, h)) in
      ap (λ n. n == tenant && role_eq row.role role) a
      ∙ ap (λ x. t == tenant && role_eq x role) b
      ∙ other

  new_outside :
      (t : ℕ) (r : TenantRole) (cs : List Text)
      → same_key tenant role t r ≡ false
      → filter (of_role t r) (new_rows tenant role cs) ≡ []
  new_outside t r [] other = refl
  new_outside t r (c ∷ cs) other =
      elim (Bool-cases
        (of_role t r (record { tenant_id = tenant; role = role; permission_code = c }))) [
          | inr n ↦ rw n (new_outside t r cs other)
          | inl y ↦
              let out =
                outside t r (record { tenant_id = tenant; role = role; permission_code = c }) other
                  y in
              let own : (tenant == tenant && role_eq role role) ≡ true =
                rw (==_refl tenant, role_eq_refl role) refl in
              cc (out, own)
        ]

  load-others :
      (t : ℕ) (r : TenantRole) (cs : List Text) (rows : List RolePermission)
      → same_key tenant role t r ≡ false
      → load_role_permissions t r (replaced cs rows) ≡ load_role_permissions t r rows
  unfolding load_role_permissions
  load-others t r cs rows other = ap (map (λ (row : RolePermission). row.permission_code)) (
      filter-append (of_role t r) (filter (λ row. not (of_role tenant role row)) rows)
        (new_rows tenant role cs)
      ∙ ap (λ l. filter (of_role t r) (filter (λ row. not (of_role tenant role row)) rows) ++ l)
          (new_outside t r cs other)
      ∙ append-nil _
      ∙ filter-outside (of_role t r) (of_role tenant role) rows (λ row h. outside t r row other h))

  list-others :
      (t : ℕ) (r : TenantRole) (cs : List Text) (rows : List RolePermission)
      → same_key tenant role t r ≡ false
      → list_tenant_actions t r (replaced cs rows) ≡ list_tenant_actions t r rows
  unfolding list_tenant_actions
  list-others t r cs rows other = ap (actions_of t r) (load-others t r cs rows other)

-- After the permissions of a role are set to codes of which at least one is left, the role has exactly
-- the codes that were returned, and every other role, and every role of another tenant, has what it had.
pub set_then_list :
    (tenant : ℕ) (role : TenantRole) (cs ns : List Text) (rows rows' : List RolePermission)
    → set_tenant_role_actions tenant role cs rows ≡ ok (ns, rows')
    → no_codes ns ≡ false
    → ((c : Text) → has_code c (list_tenant_actions tenant role rows') ≡ has_code c ns)
      × ((t : ℕ) (r : TenantRole)
          → same_key tenant role t r ≡ false
          → list_tenant_actions t r rows' ≡ list_tenant_actions t r rows)
set_then_list tenant role cs ns rows rows' h some_left =
    let (valid, same) = set_result tenant role cs ns rows rows' h in
    let (known, norm) = validated tenant role cs ns valid in
    (
      λ c.
          ap (λ l. has_code c (list_tenant_actions tenant role l)) (sym same)
          ∙ ap (has_code c) (list-replaced tenant role ns rows)
          ∙ has-actions_of tenant role c ns some_left known,
      λ t r other.
          ap (list_tenant_actions t r) (sym same) ∙ list-others tenant role t r ns rows other,
    )

default_allowed :
    (tenant : ℕ) (role : TenantRole) (rows : List RolePermission) (action : Text)
    → has_code action (default_role_actions role) ≡ true
    → require_tenant_action tenant role action (replaced tenant role [] rows) ≡ ok tt
unfolding require_tenant_action
default_allowed tenant role rows action h =
    let e =
      ap (has_code action) (list-replaced tenant role [] rows)
      ∙ has-sorted_set action (default_role_actions role)
      ∙ h in
    ap (λ b. raise_if (not b) forbidden) e

-- Taking every permission from a role succeeds, and gives the role its defaults: each action of the
-- defaults is then allowed.
empty_restores_defaults :
    (tenant : ℕ) (role : TenantRole) (rows : List RolePermission)
    → (rows' : List RolePermission) × (set_tenant_role_actions tenant role [] rows ≡ ok ([], rows'))
      × ((action : Text)
          → has_code action (default_role_actions role) ≡ true
          → require_tenant_action tenant role action rows' ≡ ok tt)
unfolding set_tenant_role_actions validate_catalog_permission_codes normalize_permission_codes
    sorted_set
empty_restores_defaults tenant role rows =
    (replaced tenant role [] rows, refl, λ action h. default_allowed tenant role rows action h)
