-- ===== src/Members/Tests.antt =====
-- A tenant with two workspaces, of which a member knows one.
use tkp_platform.Base.{ℕ, ◌≡◌, refl, not, ◌&&◌, [], ◌∷◌, ◌==◌, filter, arith}
use tkp_platform.Base.Result.{ok, err}
use tkp_platform.Base.Text.{codes, lower, strip}
use tkp_platform.Access.Rows.{
  MembershipStatus, TenantRole, TenantMembership, WorkspaceStatus, Workspace, WorkspaceRole,
  WorkspaceMembership, AccessTables,
}
use tkp_platform.Access.Checks.{AccessError, ensure_workspace_read_access}
use tkp_platform.Members.Sync.{
  normalize_email, put_grants, put_grant, sync_workspace_memberships_for_tenant_member,
  disable_workspace_memberships_for_tenant_member, sync_tenant_members_to_workspace,
}
use tkp_platform.Members.Grants.{disable_revokes}
use tkp_platform.Members.Synced.{sync_member_reads}

email_of : normalize_email (codes " Ann@Example.org ") ≡ codes "ann@example.org"
unfolding normalize_email lower strip
email_of = refl

abbrev workspace_row : ℕ → Workspace
workspace_row w = record { id = w; tenant_id = 1; status = WorkspaceStatus.active }

abbrev disabled_row : WorkspaceMembership
disabled_row = record {
  tenant_id = 1;
  workspace_id = 11;
  user_id = 5;
  role = WorkspaceRole.owner;
  status = MembershipStatus.disabled;
}

abbrev tenant_row : TenantMembership
tenant_row = record {
  tenant_id = 1;
  user_id = 5;
  role = TenantRole.member;
  status = MembershipStatus.active;
}

abbrev tenant_tables : AccessTables
tenant_tables = record {
  tenant_memberships = tenant_row ∷ [];
  workspaces = workspace_row 11 ∷ workspace_row 12 ∷ [];
  workspace_memberships = disabled_row ∷ [];
  knowledge_bases = [];
  kb_memberships = [];
  documents = [];
}

sync_member_reads_example :
    (m : WorkspaceMembership) × (ensure_workspace_read_access
        (sync_workspace_memberships_for_tenant_member 1 5 TenantRole.admin tenant_tables)
        (record { tenant_id = 1; user_id = 5 })
        12
      ≡ ok (workspace_row 12, m))
sync_member_reads_example =
    sync_member_reads 1 5 TenantRole.admin tenant_tables 12 (workspace_row 12) refl refl refl
      (omega arith) (omega arith)

-- The former owner of the workspace is a viewer of it after the synchronization.
role_is_overwritten :
    (sync_tenant_members_to_workspace 1 11 tenant_tables).workspace_memberships
    ≡ record disabled_row { role = WorkspaceRole.viewer; status = MembershipStatus.active } ∷ []
unfolding sync_tenant_members_to_workspace put_grants put_grant
role_is_overwritten = refl

disable_revokes_example :
    ((w : ℕ)
      → (e : AccessError) × (ensure_workspace_read_access
            (disable_workspace_memberships_for_tenant_member 1 5 tenant_tables)
            (record { tenant_id = 1; user_id = 5 })
            w
          ≡ err e))
    × (filter
          (λ (m : WorkspaceMembership). not (m.tenant_id == 1 && m.user_id == 5))
          (disable_workspace_memberships_for_tenant_member 1 5 tenant_tables).workspace_memberships
        ≡ filter
            (λ (m : WorkspaceMembership). not (m.tenant_id == 1 && m.user_id == 5))
            tenant_tables.workspace_memberships)
disable_revokes_example = disable_revokes 1 5 tenant_tables
