-- ===== src/Permissions/Codes.antt =====
-- The permission codes and their defaults (services/api/src/tkp_api/services/permissions.py).
use tkp_platform.Base.{List, [], ◌∷◌, ◌++◌}
use tkp_platform.Base.Text.{Text, codes}
use tkp_platform.Access.Rows.{TenantRole}

-- The values of `PermissionAction`.
abbrev pub api_actions : List Text
api_actions =
    codes "api.tenant.read"
    ∷ codes "api.tenant.update"
    ∷ codes "api.tenant.delete"
    ∷ codes "api.tenant.member.manage"
    ∷ codes "api.user.read"
    ∷ codes "api.user.update"
    ∷ codes "api.user.delete"
    ∷ codes "api.workspace.create"
    ∷ codes "api.workspace.read"
    ∷ codes "api.workspace.update"
    ∷ codes "api.workspace.delete"
    ∷ codes "api.workspace.member.manage"
    ∷ codes "api.kb.create"
    ∷ codes "api.kb.read"
    ∷ codes "api.kb.update"
    ∷ codes "api.kb.delete"
    ∷ codes "api.kb.member.manage"
    ∷ codes "api.document.read"
    ∷ codes "api.document.write"
    ∷ codes "api.document.delete"
    ∷ codes "api.retrieval.query"
    ∷ codes "api.chat.completion"
    ∷ codes "api.agent.run.create"
    ∷ codes "api.agent.run.read"
    ∷ codes "api.agent.run.cancel"
    ∷ codes "api.governance.deletion.request.create"
    ∷ codes "api.governance.deletion.request.read"
    ∷ codes "api.governance.deletion.request.review"
    ∷ codes "api.governance.deletion.execute"
    ∷ codes "api.governance.retention.cleanup"
    ∷ codes "api.governance.pii.mask"
    ∷ []

-- `_ADMIN_ACTIONS`
abbrev pub admin_actions : List Text
admin_actions =
    codes "api.tenant.read"
    ∷ codes "api.tenant.update"
    ∷ codes "api.tenant.member.manage"
    ∷ codes "api.user.read"
    ∷ codes "api.user.update"
    ∷ codes "api.user.delete"
    ∷ codes "api.workspace.create"
    ∷ codes "api.workspace.read"
    ∷ codes "api.workspace.update"
    ∷ codes "api.workspace.delete"
    ∷ codes "api.workspace.member.manage"
    ∷ codes "api.kb.create"
    ∷ codes "api.kb.read"
    ∷ codes "api.kb.update"
    ∷ codes "api.kb.delete"
    ∷ codes "api.kb.member.manage"
    ∷ codes "api.document.read"
    ∷ codes "api.document.write"
    ∷ codes "api.document.delete"
    ∷ codes "api.retrieval.query"
    ∷ codes "api.chat.completion"
    ∷ codes "api.agent.run.create"
    ∷ codes "api.agent.run.read"
    ∷ codes "api.agent.run.cancel"
    ∷ codes "api.governance.deletion.request.create"
    ∷ codes "api.governance.deletion.request.read"
    ∷ codes "api.governance.deletion.request.review"
    ∷ codes "api.governance.deletion.execute"
    ∷ codes "api.governance.retention.cleanup"
    ∷ codes "api.governance.pii.mask"
    ∷ []

-- `_MEMBER_ACTIONS`
abbrev pub member_actions : List Text
member_actions =
    codes "api.tenant.read"
    ∷ codes "api.workspace.create"
    ∷ codes "api.workspace.read"
    ∷ codes "api.kb.read"
    ∷ codes "api.document.read"
    ∷ codes "api.retrieval.query"
    ∷ codes "api.chat.completion"
    ∷ codes "api.agent.run.create"
    ∷ codes "api.agent.run.read"
    ∷ codes "api.agent.run.cancel"
    ∷ codes "api.governance.deletion.request.create"
    ∷ codes "api.governance.deletion.request.read"
    ∷ codes "api.governance.pii.mask"
    ∷ []

-- `_VIEWER_ACTIONS`
abbrev pub viewer_actions : List Text
viewer_actions =
    codes "api.tenant.read"
    ∷ codes "api.workspace.read"
    ∷ codes "api.kb.read"
    ∷ codes "api.document.read"
    ∷ codes "api.retrieval.query"
    ∷ codes "api.chat.completion"
    ∷ codes "api.agent.run.create"
    ∷ codes "api.agent.run.read"
    ∷ codes "api.agent.run.cancel"
    ∷ codes "api.governance.deletion.request.create"
    ∷ codes "api.governance.deletion.request.read"
    ∷ codes "api.governance.pii.mask"
    ∷ []

-- `DEFAULT_UI_PERMISSIONS`
abbrev pub default_ui_permissions : List Text
default_ui_permissions =
    codes "menu.tenant"
    ∷ codes "menu.workspace"
    ∷ codes "menu.kb"
    ∷ codes "menu.document"
    ∷ codes "menu.user"
    ∷ codes "button.tenant.update"
    ∷ codes "button.tenant.delete"
    ∷ codes "button.workspace.create"
    ∷ codes "button.workspace.update"
    ∷ codes "button.workspace.delete"
    ∷ codes "button.kb.create"
    ∷ codes "button.kb.update"
    ∷ codes "button.kb.delete"
    ∷ codes "button.document.upload"
    ∷ codes "button.document.update"
    ∷ codes "button.document.delete"
    ∷ codes "button.user.delete"
    ∷ codes "button.member.add"
    ∷ codes "button.member.remove"
    ∷ codes "feature.auth.permissions"
    ∷ []

-- `_MEMBER_UI_CODES`
abbrev pub member_ui_codes : List Text
member_ui_codes =
    codes "menu.workspace"
    ∷ codes "menu.kb"
    ∷ codes "menu.document"
    ∷ codes "button.document.upload"
    ∷ codes "button.document.update"
    ∷ codes "button.document.delete"
    ∷ []

-- `_VIEWER_UI_CODES`
abbrev pub viewer_ui_codes : List Text
viewer_ui_codes = codes "menu.workspace" ∷ codes "menu.kb" ∷ codes "menu.document" ∷ []

-- `DEFAULT_TENANT_ROLE_ACTIONS`; the owner has every action.
abbrev pub default_role_actions : TenantRole → List Text
default_role_actions TenantRole.owner = api_actions ++ default_ui_permissions
default_role_actions TenantRole.admin = admin_actions ++ default_ui_permissions
default_role_actions TenantRole.member = member_actions ++ member_ui_codes
default_role_actions TenantRole.viewer = viewer_actions ++ viewer_ui_codes

-- `_TEMPLATE_ROLES`
abbrev pub template_roles : List TenantRole
template_roles = TenantRole.owner ∷ TenantRole.admin ∷ TenantRole.member ∷ TenantRole.viewer ∷ []

-- An entry of `PERMISSION_UI_MANIFEST`, without the name that is shown.
pub record UiItem : Type 0 where
  pub code : Text
  pub required_actions : List Text

abbrev pub menu_items : List UiItem
menu_items =
    record { code = codes "menu.tenant"; required_actions = codes "api.tenant.read" ∷ [] }
    ∷ record { code = codes "menu.workspace"; required_actions = codes "api.workspace.read" ∷ [] }
    ∷ record { code = codes "menu.kb"; required_actions = codes "api.kb.read" ∷ [] }
    ∷ record { code = codes "menu.document"; required_actions = codes "api.document.read" ∷ [] }
    ∷ record { code = codes "menu.user"; required_actions = codes "api.user.read" ∷ [] }
    ∷ []

abbrev pub button_items : List UiItem
button_items =
    record {
      code = codes "button.tenant.update";
      required_actions = codes "api.tenant.update" ∷ [];
    }
    ∷ record {
      code = codes "button.tenant.delete";
      required_actions = codes "api.tenant.delete" ∷ [];
    }
    ∷ record {
      code = codes "button.workspace.create";
      required_actions = codes "api.workspace.create" ∷ [];
    }
    ∷ record {
      code = codes "button.workspace.update";
      required_actions = codes "api.workspace.update" ∷ [];
    }
    ∷ record {
      code = codes "button.workspace.delete";
      required_actions = codes "api.workspace.delete" ∷ [];
    }
    ∷ record { code = codes "button.kb.create"; required_actions = codes "api.kb.create" ∷ [] }
    ∷ record { code = codes "button.kb.update"; required_actions = codes "api.kb.update" ∷ [] }
    ∷ record { code = codes "button.kb.delete"; required_actions = codes "api.kb.delete" ∷ [] }
    ∷ record {
      code = codes "button.document.upload";
      required_actions = codes "api.document.write" ∷ [];
    }
    ∷ record {
      code = codes "button.document.update";
      required_actions = codes "api.document.write" ∷ [];
    }
    ∷ record {
      code = codes "button.document.delete";
      required_actions = codes "api.document.delete" ∷ [];
    }
    ∷ record { code = codes "button.user.delete"; required_actions = codes "api.user.delete" ∷ [] }
    ∷ record {
      code = codes "button.member.add";
      required_actions = codes "api.tenant.member.manage" ∷ [];
    }
    ∷ record {
      code = codes "button.member.remove";
      required_actions = codes "api.tenant.member.manage" ∷ [];
    }
    ∷ []

abbrev pub feature_items : List UiItem
feature_items =
    record {
      code = codes "feature.auth.permissions";
      required_actions = codes "api.tenant.member.manage" ∷ [];
    }
    ∷ []
