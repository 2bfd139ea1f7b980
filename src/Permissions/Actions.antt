-- ===== src/Permissions/Actions.antt =====
-- services/api/src/tkp_api/services/permissions.py over the table `tenant_role_permissions`.
use tkp_platform.Base.{
  ℕ, Bool, true, false, not, ◌&&◌, ◌||◌, Option, none, some, List, [], ◌∷◌, ◌++◌, ◌==◌,
  if◌then◌else◌, any, find, filter, map, drop,
}
use tkp_platform.Base.Result.{Result, ok, err, ◌>>=◌, ◌>>◌, raise_if}
use tkp_platform.Base.Text.{Text, text_eq, strip}
use tkp_platform.Chunker.Split.{is_empty}
use tkp_platform.Access.Rows.{TenantRole, WorkspaceRole, KbRole}
use tkp_platform.Permissions.Codes.{
  api_actions, default_ui_permissions, default_role_actions, template_roles, UiItem, menu_items,
  button_items, feature_items,
}
use tkp_platform.Permissions.Sets.{has_code, sorted_set}

pub record RolePermission : Type 0 where
  pub tenant_id : ℕ
  pub role : TenantRole
  pub permission_code : Text

pub data PermissionError : Type 0 where
  forbidden : PermissionError
  snapshot_not_found : PermissionError
  invalid_codes : List Text → PermissionError

abbrev pub role_eq : TenantRole → TenantRole → Bool
role_eq TenantRole.owner TenantRole.owner = true
role_eq TenantRole.admin TenantRole.admin = true
role_eq TenantRole.member TenantRole.member = true
role_eq TenantRole.viewer TenantRole.viewer = true
role_eq _ _ = false

abbrev pub permission_catalog : List Text
permission_catalog = api_actions ++ default_ui_permissions

-- `_LEGACY_TO_API_ACTIONS.get(code, code)`: every action begins with "api.".
abbrev pub or_code : Option Text → Text → Text
or_code none code = code
or_code (some action) code = action

unfoldable pub normalize_stripped : Text → Text
normalize_stripped code =
    if is_empty code || has_code code api_actions
    then code
    else or_code (find (λ a. text_eq code (drop 4 a)) api_actions) code

unfoldable pub normalize_permission_code : Text → Text
normalize_permission_code code = normalize_stripped (strip code)

abbrev pub is_blank : Text → Bool
is_blank code = is_empty (strip code)

unfoldable pub normalize_permission_codes : List Text → List Text
normalize_permission_codes cs =
    sorted_set (map normalize_permission_code (filter (λ c. not (is_blank c)) cs))

abbrev pub unknown_codes : List Text → List Text
unknown_codes = filter (λ c. not (has_code c permission_catalog))

-- `if invalid_codes: raise ...`
abbrev pub no_codes : List Text → Bool
no_codes [] = true
no_codes (c ∷ cs) = false

unfoldable pub validate_catalog_permission_codes : List Text → Result PermissionError (List Text)
validate_catalog_permission_codes cs =
    let normalized = normalize_permission_codes cs in
    raise_if (not (no_codes (unknown_codes normalized))) (invalid_codes (unknown_codes normalized))
    >> ok normalized

abbrev pub of_role : ℕ → TenantRole → RolePermission → Bool
of_role tenant role row = row.tenant_id == tenant && role_eq row.role role

module _ (tenant : ℕ) (role : TenantRole) where
  unfoldable pub load_role_permissions : List RolePermission → List Text
  load_role_permissions rows =
      map (λ (row : RolePermission). row.permission_code) (filter (of_role tenant role) rows)

  -- The codes that a configuration stands for.
  unfoldable pub configured_actions : List Text → List Text
  configured_actions cs = sorted_set (
      filter (λ c. has_code c permission_catalog)
        (map normalize_permission_code (filter (λ c. not (is_blank c)) cs)))

  abbrev pub actions_of : List Text → List Text
  actions_of [] = sorted_set (default_role_actions role)
  actions_of (c ∷ cs) = configured_actions (c ∷ cs)

  unfoldable pub list_tenant_actions : List RolePermission → List Text
  list_tenant_actions rows = actions_of (load_role_permissions rows)

  abbrev pub new_rows : List Text → List RolePermission
  new_rows = map (λ c. record { tenant_id = tenant; role = role; permission_code = c })

  -- The rows after the change; what the function returns are the normalized codes.
  unfoldable pub set_tenant_role_actions :
      List Text → List RolePermission → Result PermissionError (List Text × List RolePermission)
  set_tenant_role_actions cs rows = do
    normalized ← validate_catalog_permission_codes cs
    ok (normalized, filter (λ row. not (of_role tenant role row)) rows ++ new_rows normalized)

  unfoldable pub reset_tenant_role_actions : List RolePermission → List Text × List RolePermission
  reset_tenant_role_actions rows =
      (sorted_set (default_role_actions role), filter (λ row. not (of_role tenant role row)) rows)

  unfoldable pub require_tenant_action :
      Text → List RolePermission → Result PermissionError (Unit {0})
  require_tenant_action action rows =
      raise_if (not (has_code action (list_tenant_actions rows))) forbidden

  -- `permission_ui_manifest`: each entry with whether it is allowed.
  abbrev pub is_allowed : List Text → UiItem → Bool
  is_allowed allowed item =
      has_code item.code allowed && not (any (λ a. not (has_code a allowed)) item.required_actions)

  abbrev pub resolve_items : List Text → List UiItem → List (UiItem × Bool)
  resolve_items allowed = map (λ item. (item, is_allowed allowed item))

  unfoldable pub permission_ui_manifest :
      List RolePermission → List (UiItem × Bool) × List (UiItem × Bool) × List (UiItem × Bool)
  permission_ui_manifest rows =
      let allowed = list_tenant_actions rows in
      (
        resolve_items allowed menu_items,
        resolve_items allowed button_items,
        resolve_items allowed feature_items,
      )

-- `list_tenant_role_permission_matrix`
unfoldable pub permission_matrix : ℕ → List RolePermission → List (TenantRole × List Text)
permission_matrix tenant rows =
    map (λ role. (role, list_tenant_actions tenant role rows)) template_roles

-- The loop of `publish_default_permission_template`.
unfoldable pub publish_roles :
    ℕ → Bool → List TenantRole → List RolePermission → Result PermissionError (List RolePermission)
publish_roles tenant overwrite [] rows = ok rows
publish_roles tenant overwrite (role ∷ roles) rows =
    let keep = publish_roles tenant overwrite roles rows in
    if not (no_codes (load_role_permissions tenant role rows)) && not overwrite then keep else do
      (cs, rows') ←
          set_tenant_role_actions tenant role (sorted_set (default_role_actions role)) rows
      publish_roles tenant overwrite roles rows'

unfoldable pub publish_default_permission_template :
    ℕ → Bool → List RolePermission → Result PermissionError (List RolePermission)
publish_default_permission_template tenant overwrite rows =
    publish_roles tenant overwrite template_roles rows

-- `role_permissions` of a snapshot: the codes of a role; a role that is missing, or whose value is no
-- list, has none.
abbrev pub Snapshot : Type 0
Snapshot = TenantRole → List Text

-- `_normalize_snapshot_role_permissions` checks all roles before any is set.
unfoldable pub normalize_snapshot :
    Snapshot → List TenantRole → Result PermissionError (List (TenantRole × List Text))
normalize_snapshot snapshot [] = ok []
normalize_snapshot snapshot (role ∷ roles) = do
  cs ← validate_catalog_permission_codes (snapshot role)
  rest ← normalize_snapshot snapshot roles
  ok ((role, cs) ∷ rest)

unfoldable pub set_roles :
    ℕ
    → List (TenantRole × List Text)
    → List RolePermission
    → Result PermissionError (List RolePermission)
set_roles tenant [] rows = ok rows
set_roles tenant (r ∷ rest) rows = do
  (cs, rows') ← set_tenant_role_actions tenant r.0 r.1 rows
  set_roles tenant rest rows'

-- Nothing stands for `role_permissions` of a snapshot that is no dict.
unfoldable pub apply_policy_snapshot :
    ℕ → Option Snapshot → List RolePermission → Result PermissionError (List RolePermission)
apply_policy_snapshot tenant none rows = err snapshot_not_found
apply_policy_snapshot tenant (some snapshot) rows = do
  checked ← normalize_snapshot snapshot template_roles
  set_roles tenant checked rows

abbrev pub manages_tenant : TenantRole → Bool
manages_tenant TenantRole.owner = true
manages_tenant TenantRole.admin = true
manages_tenant _ = false

unfoldable pub can_manage_workspace_members : TenantRole → Option WorkspaceRole → Bool
can_manage_workspace_members t (some WorkspaceRole.owner) = true
can_manage_workspace_members t w = manages_tenant t

unfoldable pub can_manage_kb_members : TenantRole → Option WorkspaceRole → Option KbRole → Bool
can_manage_kb_members t (some WorkspaceRole.owner) k = true
can_manage_kb_members t (some WorkspaceRole.editor) k = true
can_manage_kb_members t w (some KbRole.owner) = true
can_manage_kb_members t w k = manages_tenant t
