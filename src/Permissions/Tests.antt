-- ===== src/Permissions/Tests.antt =====
-- Runs of the permission functions (services/api/src/tkp_api/services/permissions.py).
use tkp_platform.Base.{ℕ, ◌≡◌, refl, false, some, List, [], ◌∷◌, ◌==◌, ◌&&◌}
use tkp_platform.Base.Result.{ok, err}
use tkp_platform.Base.Text.{Text, codes, strip}
use tkp_platform.Access.Rows.{TenantRole, WorkspaceRole}
use tkp_platform.Permissions.Sets.{has_code, insert, sorted_set}
use tkp_platform.Permissions.Actions.{
  RolePermission, role_eq, normalize_permission_code, normalize_stripped,
  normalize_permission_codes, validate_catalog_permission_codes, invalid_codes, list_tenant_actions,
  set_tenant_role_actions, can_manage_workspace_members,
}
use tkp_platform.Permissions.Assigned.{set_then_list}

abbrev read_kb : Text
read_kb = codes "api.kb.read"

abbrev chat : Text
chat = codes "api.chat.completion"

abbrev row : ℕ → TenantRole → Text → RolePermission
row t r c = record { tenant_id = t; role = r; permission_code = c }

abbrev stored : List RolePermission
stored = row 1 TenantRole.viewer read_kb ∷ row 2 TenantRole.viewer chat ∷ []

abbrev changed : List RolePermission
changed =
    row 2 TenantRole.viewer chat
    ∷ row 1 TenantRole.viewer chat
    ∷ row 1 TenantRole.viewer read_kb
    ∷ []

legacy_code : normalize_permission_code (codes " kb.read ") ≡ read_kb
unfolding normalize_permission_code normalize_stripped strip
legacy_code = refl

unknown_code :
    validate_catalog_permission_codes (codes "api.fly" ∷ [])
    ≡ err (invalid_codes (codes "api.fly" ∷ []))
unfolding validate_catalog_permission_codes normalize_permission_codes normalize_permission_code
    normalize_stripped sorted_set insert strip
unknown_code = refl

viewer_manages : can_manage_workspace_members TenantRole.viewer (some WorkspaceRole.editor) ≡ false
unfolding can_manage_workspace_members
viewer_manages = refl

set_viewer :
    set_tenant_role_actions 1 TenantRole.viewer (codes "kb.read" ∷ chat ∷ codes " " ∷ []) stored
    ≡ ok (chat ∷ read_kb ∷ [], changed)
unfolding set_tenant_role_actions validate_catalog_permission_codes normalize_permission_codes
    normalize_permission_code normalize_stripped sorted_set insert strip
set_viewer = refl

set_then_list_example :
    ((c : Text)
      → has_code c (list_tenant_actions 1 TenantRole.viewer changed)
        ≡ has_code c (chat ∷ read_kb ∷ []))
    × ((t : ℕ) (r : TenantRole)
        → (t == 1 && role_eq r TenantRole.viewer) ≡ false
        → list_tenant_actions t r changed ≡ list_tenant_actions t r stored)
set_then_list_example =
    set_then_list 1 TenantRole.viewer (codes "kb.read" ∷ chat ∷ codes " " ∷ [])
      (chat ∷ read_kb ∷ []) stored changed set_viewer refl
