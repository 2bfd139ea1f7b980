-- ===== src/Tenants/Tests.antt =====
-- A tenant with two owners, one of whom becomes a member
-- (services/api/src/tkp_api/api/tenants.py).
use tkp_platform.Base.{ℕ, ◌≡◌, refl, false, some, [], ◌∷◌, any}
use tkp_platform.Base.Result.{ok, err}
use tkp_platform.Base.Text.{Text, codes, strip, lower}
use tkp_platform.Access.Rows.{MembershipStatus, TenantRole, TenantMembership}
use tkp_platform.Access.Checks.{scalar_one_or_none}
use tkp_platform.Permissions.Sets.{insert, sorted_set}
use tkp_platform.Permissions.Actions.{
  load_role_permissions, configured_actions, list_tenant_actions, require_tenant_action,
  normalize_permission_code, normalize_stripped,
}
use tkp_platform.Members.Sync.{
  normalize_email, put_grants, put_grant, sync_workspace_memberships_for_tenant_member,
}
use tkp_platform.Documents.State.{Context}
use tkp_platform.Tenants.Members.{
  TenantStatus, User, TenantDb, last_owner, is_active_owner, ensure_tenant_context,
  get_tenant_or_404, check_manager, find_user, find_membership, upsert_tenant_member,
  update_tenant_member_role, remove_tenant_member,
}
use tkp_platform.Tenants.Owners.{HasOwner}
use tkp_platform.Tenants.Kept.{members_of}
use tkp_platform.Tenants.Requests.{here, then, changes, requests-HasOwner}
use tkp_platform.Tenants.Upserted.{upsert_takes_last_owner}

abbrev account : ℕ → Text → User
account id email = record {
  id = id;
  email = email;
  display_name = email;
  auth_provider = codes "jwt";
  external_subject = email;
  status = codes "active";
}

abbrev row : ℕ → TenantRole → TenantMembership
row user role = record {
  tenant_id = 1;
  user_id = user;
  role = role;
  status = MembershipStatus.active;
}

abbrev with_second : TenantRole → TenantDb
with_second role = record {
  tenants = record { id = 1; status = TenantStatus.active } ∷ [];
  users = account 5 (codes "a@x") ∷ account 6 (codes "b@x") ∷ [];
  role_permissions =
      record {
        tenant_id = 1;
        role = TenantRole.owner;
        permission_code = codes "api.tenant.member.manage";
      }
      ∷ [];
  access = record {
    tenant_memberships = row 5 TenantRole.owner ∷ row 6 role ∷ [];
    workspaces = [];
    workspace_memberships = [];
    knowledge_bases = [];
    kb_memberships = [];
    documents = [];
  };
}

abbrev manager : Context
manager = record { tenant_id = 1; user_id = 5; tenant_role = TenantRole.owner }

demotes_second :
    update_tenant_member_role manager 1 6 TenantRole.member (with_second TenantRole.owner)
    ≡ ok (with_second TenantRole.member)
unfolding update_tenant_member_role check_manager ensure_tenant_context get_tenant_or_404
    find_membership require_tenant_action list_tenant_actions load_role_permissions
    configured_actions normalize_permission_code normalize_stripped strip sorted_set insert
    scalar_one_or_none sync_workspace_memberships_for_tenant_member put_grants put_grant
demotes_second = refl

keeps_last : remove_tenant_member manager 1 5 (with_second TenantRole.member) ≡ err last_owner
unfolding remove_tenant_member check_manager ensure_tenant_context get_tenant_or_404 find_membership
    require_tenant_action list_tenant_actions load_role_permissions configured_actions
    normalize_permission_code normalize_stripped strip sorted_set insert scalar_one_or_none
keeps_last = refl

requests-HasOwner_example : HasOwner 1 (members_of (with_second TenantRole.member))
requests-HasOwner_example =
    requests-HasOwner 1 (then (changes manager 1 6 TenantRole.member demotes_second) here) refl

abbrev ownerless_db : TenantDb
ownerless_db = record (with_second TenantRole.member) {
  access = record (with_second TenantRole.member).access {
    tenant_memberships = row 5 TenantRole.viewer ∷ row 6 TenantRole.member ∷ [];
  };
}

finds_owner :
    find_user (normalize_email (codes " A@x")) (with_second TenantRole.member)
    ≡ ok (some (account 5 (codes "a@x")))
unfolding find_user normalize_email strip lower scalar_one_or_none
finds_owner = refl

adds_owner_again :
    upsert_tenant_member manager 1 7
      (codes " A@x")
      TenantRole.viewer
      (with_second TenantRole.member)
    ≡ ok ownerless_db
unfolding upsert_tenant_member find_user normalize_email lower check_manager ensure_tenant_context
    get_tenant_or_404 find_membership require_tenant_action list_tenant_actions
    load_role_permissions configured_actions normalize_permission_code normalize_stripped strip
    sorted_set insert scalar_one_or_none sync_workspace_memberships_for_tenant_member put_grants
    put_grant
adds_owner_again = refl

upsert_takes_last_owner_example : any (is_active_owner 1) (members_of ownerless_db) ≡ false
upsert_takes_last_owner_example =
    upsert_takes_last_owner manager 1 7 (codes " A@x") TenantRole.viewer
      (with_second TenantRole.member) ownerless_db (account 5 (codes "a@x"))
      (row 5 TenantRole.owner) refl finds_owner refl refl adds_owner_again
