-- ===== src/Members/Sync.antt =====
-- services/api/src/tkp_api/services/membership_sync.py. The table of the memberships has a unique
-- key of the workspace and the user, so that a query by both finds one row at most.
use tkp_platform.Base.{
  ℕ, Bool, not, ◌&&◌, List, [], ◌∷◌, ◌++◌, ◌==◌, if◌then◌else◌, any, contains, filter, map,
  update_where,
}
use tkp_platform.Base.Text.{Text, strip, lower}
use tkp_platform.Access.Rows.{
  MembershipStatus, TenantRole, TenantMembership, Workspace, WorkspaceRole, WorkspaceMembership,
  AccessTables,
}
use tkp_platform.Access.Checks.{is_active, ws_is_archived}

unfoldable pub normalize_email : Text → Text
normalize_email value = lower (strip value)

abbrev pub workspace_role_from_tenant_role : TenantRole → WorkspaceRole
workspace_role_from_tenant_role TenantRole.owner = WorkspaceRole.owner
workspace_role_from_tenant_role TenantRole.admin = WorkspaceRole.editor
workspace_role_from_tenant_role _ = WorkspaceRole.viewer

-- What one round of either loop is to establish.
pub record Grant : Type 0 where
  pub workspace_id : ℕ
  pub user_id : ℕ
  pub role : WorkspaceRole

abbrev pub is_row_of : ℕ → Grant → WorkspaceMembership → Bool
is_row_of tenant g m =
    m.tenant_id == tenant && (m.workspace_id == g.workspace_id && m.user_id == g.user_id)

abbrev pub renewed : Grant → WorkspaceMembership → WorkspaceMembership
renewed g m = record m { role = g.role; status = MembershipStatus.active }

abbrev pub new_row : ℕ → Grant → WorkspaceMembership
new_row tenant g = record {
  tenant_id = tenant;
  workspace_id = g.workspace_id;
  user_id = g.user_id;
  role = g.role;
  status = MembershipStatus.active;
}

-- The body of both loops; `existing` are the rows of the query before the loop.
unfoldable pub put_grant :
    ℕ → List WorkspaceMembership → Grant → List WorkspaceMembership → List WorkspaceMembership
put_grant tenant existing g rows =
    if any (is_row_of tenant g) existing
    then update_where (is_row_of tenant g) (renewed g) rows
    else rows ++ new_row tenant g ∷ []

unfoldable pub put_grants :
    ℕ → List WorkspaceMembership → List Grant → List WorkspaceMembership → List WorkspaceMembership
put_grants tenant existing [] rows = rows
put_grants tenant existing (g ∷ gs) rows =
    put_grants tenant existing gs (put_grant tenant existing g rows)

-- The workspaces of a tenant that are not archived.
abbrev pub live_workspace_ids : ℕ → AccessTables → List ℕ
live_workspace_ids tenant db =
    map (λ (w : Workspace). w.id)
      (filter (λ (w : Workspace). w.tenant_id == tenant && not (ws_is_archived w.status))
        db.workspaces)

-- Without workspaces nothing is changed, as with the early return.
unfoldable pub sync_workspace_memberships_for_tenant_member :
    ℕ → ℕ → TenantRole → AccessTables → AccessTables
sync_workspace_memberships_for_tenant_member tenant user tenant_role db =
    let ids = live_workspace_ids tenant db in
    let role = workspace_role_from_tenant_role tenant_role in
    let existing =
      filter
        (λ (m : WorkspaceMembership).
          m.tenant_id == tenant && (m.user_id == user && contains m.workspace_id ids))
        db.workspace_memberships in
    let grants = map (λ w. record { workspace_id = w; user_id = user; role = role }) ids in
    record db { workspace_memberships = put_grants tenant existing grants db.workspace_memberships }

unfoldable pub disable_workspace_memberships_for_tenant_member : ℕ → ℕ → AccessTables → AccessTables
disable_workspace_memberships_for_tenant_member tenant user db = record db {
  workspace_memberships =
      update_where (λ (m : WorkspaceMembership). m.tenant_id == tenant && m.user_id == user)
        (λ m. record m { status = MembershipStatus.disabled }) db.workspace_memberships;
}

-- Without active members of the tenant nothing is changed, as with the early return.
unfoldable pub sync_tenant_members_to_workspace : ℕ → ℕ → AccessTables → AccessTables
sync_tenant_members_to_workspace tenant workspace_id db =
    let members =
      filter (λ (m : TenantMembership). m.tenant_id == tenant && is_active m.status)
        db.tenant_memberships in
    let users = map (λ (m : TenantMembership). m.user_id) members in
    let existing =
      filter
        (λ (m : WorkspaceMembership).
          m.tenant_id == tenant && (m.workspace_id == workspace_id && contains m.user_id users))
        db.workspace_memberships in
    let grants =
      map
        (λ (m : TenantMembership). record {
          workspace_id = workspace_id;
          user_id = m.user_id;
          role = workspace_role_from_tenant_role m.role;
        })
        members in
    record db { workspace_memberships = put_grants tenant existing grants db.workspace_memberships }
