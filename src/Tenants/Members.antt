-- ===== src/Tenants/Members.antt =====
-- The endpoints by which members of a tenant are invited, added, changed and removed
-- (services/api/src/tkp_api/api/tenants.py). The id of a new user is an argument; the audit log is left out.
use tkp_platform.Base.{
  ℕ, Bool, true, false, not, ◌&&◌, Option, none, some, List, [], ◌∷◌, ◌++◌, ◌==◌, leb,
  if◌then◌else◌, filter, find, length, update_where,
}
use tkp_platform.Base.Result.{Result, ok, err, ◌>>=◌, ◌>>◌, map_err, or_raise, raise_if}
use tkp_platform.Base.Text.{Text, codes, text_eq}
use tkp_platform.Access.Rows.{MembershipStatus, TenantRole, TenantMembership, AccessTables}
use tkp_platform.Access.Checks.{AccessError, scalar_one_or_none, is_active}
use tkp_platform.Permissions.Actions.{
  PermissionError, RolePermission, role_eq, require_tenant_action,
}
use tkp_platform.Members.Sync.{
  normalize_email, sync_workspace_memberships_for_tenant_member,
  disable_workspace_memberships_for_tenant_member,
}
use tkp_platform.Documents.State.{Context}

pub data TenantStatus : Type 0 where
  active suspended deleted : TenantStatus

pub record Tenant : Type 0 where
  pub id : ℕ
  pub status : TenantStatus

pub record User : Type 0 where
  pub id : ℕ
  pub email : Text
  pub display_name : Text
  pub auth_provider : Text
  pub external_subject : Text
  pub status : Text

pub record TenantDb : Type 0 where
  pub tenants : List Tenant
  pub users : List User
  pub role_permissions : List RolePermission
  pub access : AccessTables

pub data TenantError : Type 0 where
  forbidden tenant_not_found already_active membership_not_found invitation_not_found not_invited
        last_owner user_not_found :
      TenantError
  permission : PermissionError → TenantError
  lookup : AccessError → TenantError

abbrev pub is_deleted_tenant : TenantStatus → Bool
is_deleted_tenant TenantStatus.deleted = true
is_deleted_tenant _ = false

unfoldable pub ensure_tenant_context : Context → ℕ → Result TenantError (Unit {0})
ensure_tenant_context ctx tenant = raise_if (not (ctx.tenant_id == tenant)) forbidden

unfoldable pub get_tenant_or_404 : ℕ → TenantDb → Result TenantError Tenant
get_tenant_or_404 id db = do
  t ← or_raise (find (λ (x : Tenant). x.id == id) db.tenants) tenant_not_found
  raise_if (is_deleted_tenant t.status) tenant_not_found
  ok t

-- The checks that the requests of a manager begin with.
unfoldable pub check_manager : Context → ℕ → TenantDb → Result TenantError Tenant
check_manager ctx tenant db = do
  ensure_tenant_context ctx tenant
  map_err permission (
      require_tenant_action ctx.tenant_id ctx.tenant_role (codes "api.tenant.member.manage")
        db.role_permissions)
  get_tenant_or_404 tenant db

-- `email.split("@")[0]`
abbrev pub before_at : Text → Text
before_at [] = []
before_at (c ∷ t) = let rest = before_at t in if c == b'@' then [] else c ∷ rest

unfoldable pub invited_user : ℕ → Text → User
invited_user id email = record {
  id = id;
  email = email;
  display_name = before_at email;
  auth_provider = codes "invite";
  external_subject = email;
  status = codes "active";
}

abbrev pub put_user : ℕ → Text → Option User → List User → User × List User
put_user id email none users = (invited_user id email, users ++ invited_user id email ∷ [])
put_user id email (some user) users = (user, users)

abbrev pub is_member : ℕ → ℕ → TenantMembership → Bool
is_member tenant user m = m.tenant_id == tenant && m.user_id == user

-- `select(TenantMembership)` by the tenant and the user.
unfoldable pub find_membership : ℕ → ℕ → TenantDb → Result TenantError (Option TenantMembership)
find_membership tenant user db =
    map_err lookup
      (scalar_one_or_none (filter (is_member tenant user) db.access.tenant_memberships))

abbrev pub set_member : TenantRole → MembershipStatus → TenantMembership → TenantMembership
set_member role status m = record m { role = role; status = status }

abbrev pub put_member :
    ℕ
    → ℕ
    → TenantRole
    → MembershipStatus
    → Option TenantMembership
    → List TenantMembership
    → List TenantMembership
put_member tenant user role status none rows =
    rows ++ record { tenant_id = tenant; user_id = user; role = role; status = status } ∷ []
put_member tenant user role status (some m) rows =
    update_where (is_member tenant user) (set_member role status) rows

abbrev pub with_members : AccessTables → List TenantMembership → AccessTables
with_members access rows = record access { tenant_memberships = rows }

abbrev pub is_active_member : Option TenantMembership → Bool
is_active_member none = false
is_active_member (some m) = is_active m.status

unfoldable pub find_user : Text → TenantDb → Result TenantError (Option User)
find_user email db =
    map_err lookup (scalar_one_or_none (filter (λ (u : User). text_eq u.email email) db.users))

unfoldable pub invite_tenant_member :
    Context → ℕ → ℕ → Text → TenantRole → TenantDb → Result TenantError TenantDb
invite_tenant_member ctx tenant new_id email role db = do
  t ← check_manager ctx tenant db
  found ← find_user (normalize_email email) db
  let user = put_user new_id (normalize_email email) found db.users
  old ← find_membership tenant user.0.id db
  raise_if (is_active_member old) already_active
  ok (record db {
    users = user.1;
    access = with_members db.access (
        put_member tenant user.0.id role MembershipStatus.invited old db.access.tenant_memberships);
  })

unfoldable pub upsert_tenant_member :
    Context → ℕ → ℕ → Text → TenantRole → TenantDb → Result TenantError TenantDb
upsert_tenant_member ctx tenant new_id email role db = do
  t ← check_manager ctx tenant db
  found ← find_user (normalize_email email) db
  let user = put_user new_id (normalize_email email) found db.users
  old ← find_membership tenant user.0.id db
  ok (record db {
    users = user.1;
    access = sync_workspace_memberships_for_tenant_member tenant user.0.id role (
        with_members db.access (
          put_member tenant user.0.id role MembershipStatus.active old
            db.access.tenant_memberships));
  })

-- `user.status = "active"`
abbrev pub activate_user : ℕ → List User → List User
activate_user id =
    update_where (λ (u : User). u.id == id) (λ u. record u { status = codes "active" })

-- What is done of a membership in each status.
abbrev pub joined : ℕ → ℕ → TenantDb → TenantMembership → Result TenantError TenantDb
joined tenant user db m = elim m.status [
  | MembershipStatus.active ↦ ok (record db {
    access = sync_workspace_memberships_for_tenant_member tenant user m.role db.access;
  })
  | MembershipStatus.invited ↦ ok (record db {
    users = activate_user user db.users;
    access = sync_workspace_memberships_for_tenant_member tenant user m.role (
        with_members db.access (
          update_where (is_member tenant user)
            (λ (x : TenantMembership). record x { status = MembershipStatus.active })
            db.access.tenant_memberships));
  })
  | MembershipStatus.disabled ↦ err not_invited
]

-- `user` is the user who is logged in.
unfoldable pub join_tenant : ℕ → ℕ → TenantDb → Result TenantError TenantDb
join_tenant tenant user db = do
  t ← get_tenant_or_404 tenant db
  found ← find_membership tenant user db
  m ← or_raise found invitation_not_found
  joined tenant user db m

abbrev pub is_owner : TenantRole → Bool
is_owner role = role_eq role TenantRole.owner

abbrev pub is_active_owner : ℕ → TenantMembership → Bool
is_active_owner tenant m = m.tenant_id == tenant && (is_owner m.role && is_active m.status)

-- `len(owners) <= 1`
abbrev pub has_one_owner : ℕ → TenantDb → Bool
has_one_owner tenant db =
    leb (length (filter (is_active_owner tenant) db.access.tenant_memberships)) 1

unfoldable pub update_tenant_member_role :
    Context → ℕ → ℕ → TenantRole → TenantDb → Result TenantError TenantDb
update_tenant_member_role ctx tenant user role db = do
  t ← check_manager ctx tenant db
  found ← find_membership tenant user db
  m ← or_raise found membership_not_found
  raise_if (is_owner m.role && (not (is_owner role) && has_one_owner tenant db)) last_owner
  u ← or_raise (find (λ (x : User). x.id == user) db.users) user_not_found
  ok (record db {
    access = sync_workspace_memberships_for_tenant_member tenant user role (
        with_members db.access (
          put_member tenant user role MembershipStatus.active (some m)
            db.access.tenant_memberships));
  })

-- A missing user is raised after the changes, which are then rolled back.
unfoldable pub remove_tenant_member : Context → ℕ → ℕ → TenantDb → Result TenantError TenantDb
remove_tenant_member ctx tenant user db = do
  t ← check_manager ctx tenant db
  found ← find_membership tenant user db
  m ← or_raise found membership_not_found
  raise_if (is_owner m.role && (is_active m.status && has_one_owner tenant db)) last_owner
  u ← or_raise (find (λ (x : User). x.id == user) db.users) user_not_found
  ok (record db {
    access = disable_workspace_memberships_for_tenant_member tenant user (
        with_members db.access (
          update_where (is_member tenant user)
            (λ (x : TenantMembership). record x { status = MembershipStatus.disabled })
            db.access.tenant_memberships));
  })
