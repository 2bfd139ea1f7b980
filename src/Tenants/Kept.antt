-- ===== src/Tenants/Kept.antt =====
-- The requests on the members of a tenant, in any number and order
-- (services/api/src/tkp_api/api/tenants.py).
use tkp_platform.Base.{
  ℕ, ◌≤◌, ◌≡◌, refl, sym, ap, ◌∙◌, subst, ◌⊎◌, inl, inr, true, false, not, ◌&&◌, Option, none, some,
  List, [], ◌∷◌, ◌==◌, ==→eq, arith, filter, length, update_where, Bool-cases,
}
use tkp_platform.Base.Result.{Result, ok, err, Result-cases, ok_inj}
use tkp_platform.Access.Rows.{MembershipStatus, TenantRole, TenantMembership, AccessTables}
use tkp_platform.Access.Checks.{scalar_one_or_none, is_active}
use tkp_platform.Members.Sync.{
  sync_workspace_memberships_for_tenant_member, disable_workspace_memberships_for_tenant_member,
}
use tkp_platform.Access.Granted.{scalar-one}
use tkp_platform.Tenants.Owners.{HasOwner, update-HasOwner, foreign, raised-HasOwner}
use tkp_platform.Tenants.Members.{
  TenantDb, TenantError, is_member, set_member, is_owner, is_active_owner, has_one_owner,
  find_membership,
}

abbrev pub members_of : TenantDb → List TenantMembership
members_of db = db.access.tenant_memberships

pub synced-members :
    (tenant user : ℕ) (role : TenantRole) (t : AccessTables)
    → (sync_workspace_memberships_for_tenant_member tenant user role t).tenant_memberships
      ≡ t.tenant_memberships
unfolding sync_workspace_memberships_for_tenant_member
synced-members tenant user role t = refl

pub disabled-members :
    (tenant user : ℕ) (t : AccessTables)
    → (disable_workspace_memberships_for_tenant_member tenant user t).tenant_memberships
      ≡ t.tenant_memberships
unfolding disable_workspace_memberships_for_tenant_member
disabled-members tenant user t = refl

pub find_membership-only :
    (tenant user : ℕ) (db : TenantDb) (m : TenantMembership)
    → find_membership tenant user db ≡ ok (some m)
    → filter (is_member tenant user) (members_of db) ≡ m ∷ []
unfolding find_membership
find_membership-only tenant user db m h =
    elim (Result-cases (scalar_one_or_none (filter (is_member tenant user) (members_of db)))) [
      | inr (e, f) ↦ cc (rw f at h)
      | inl (x, f) ↦ scalar-one _ m (f ∙ ap ok (ok_inj (rw f at h)))
    ]

pub found-cases :
    (r : Result TenantError (Option TenantMembership))
    → ((m : TenantMembership) × (r ≡ ok (some m)))
      ⊎ ((r ≡ ok none) ⊎ ((e : TenantError) × (r ≡ err e)))
found-cases (ok (some m)) = inl (m, refl)
found-cases (ok none) = inr (inl refl)
found-cases (err e) = inr (inr (e, refl))

-- What the guards against taking the last owner leave: no active owner of `t`, or one of several.
abbrev pub Spared : ℕ → TenantDb → TenantMembership → Type 0
Spared t db m =
    (is_active_owner t m ≡ false) ⊎ (2 ≤ length (filter (is_active_owner t) (members_of db)))

pub removal_spares :
    (tenant : ℕ) (db : TenantDb) (m : TenantMembership)
    → (is_owner m.role && (is_active m.status && has_one_owner tenant db)) ≡ false
    → Spared tenant db m
removal_spares tenant db m h = elim (Bool-cases (is_owner m.role)) [
  | inr f ↦ inl (rw f (ground arith))
  | inl o ↦ elim (Bool-cases (is_active m.status)) [
    | inr f ↦ inl (rw (o, f) (ground arith))
    | inl a ↦ let many = rw (o, a) at h in inr (ground (arith, many))
  ]
]

change_spares :
    (tenant : ℕ) (db : TenantDb) (m : TenantMembership) (role : TenantRole)
    → (is_owner m.role && (not (is_owner role) && has_one_owner tenant db)) ≡ false
    → is_owner role ≡ false
    → Spared tenant db m
change_spares tenant db m role h lower = elim (Bool-cases (is_owner m.role)) [
  | inr f ↦ inl (rw f (ground arith))
  | inl o ↦ let many = rw (o, lower) at h in inr (ground (arith, many))
]

is_owner-eq : (role : TenantRole) → is_owner role ≡ true → role ≡ TenantRole.owner
is_owner-eq TenantRole.owner h = refl
is_owner-eq TenantRole.admin h = cc
is_owner-eq TenantRole.member h = cc
is_owner-eq TenantRole.viewer h = cc

module _ (t tenant user : ℕ) (db : TenantDb) (owned : HasOwner t (members_of db)) where
  -- Of another tenant the row is no owner at all.
  pub unguarded-HasOwner :
      (m : TenantMembership) (f : TenantMembership → TenantMembership)
      → filter (is_member tenant user) (members_of db) ≡ m ∷ []
      → Spared tenant db m
      → HasOwner t (update_where (is_member tenant user) f (members_of db))
  unguarded-HasOwner m f only spared = elim (Bool-cases (tenant == t)) [
    | inr other ↦
        update-HasOwner t tenant user (members_of db) owned m f only
          (inl (foreign t tenant user (members_of db) owned m only other))
    | inl same ↦
        update-HasOwner t tenant user (members_of db) owned m f only
          (subst (λ x. Spared x db m) (==→eq tenant t same) spared)
  ]

  pub changed-HasOwner :
      (m : TenantMembership) (role : TenantRole)
      → filter (is_member tenant user) (members_of db) ≡ m ∷ []
      → (is_owner m.role && (not (is_owner role) && has_one_owner tenant db)) ≡ false
      → HasOwner t (
          update_where
            (is_member tenant user)
            (set_member role MembershipStatus.active)
            (members_of db))
  changed-HasOwner m role only guard = elim (Bool-cases (is_owner role)) [
    | inr lower ↦
        unguarded-HasOwner m (set_member role MembershipStatus.active) only
          (change_spares tenant db m role guard lower)
    | inl o ↦ elim (Bool-cases (tenant == t)) [
      | inr other ↦
          update-HasOwner t tenant user (members_of db) owned m
            (set_member role MembershipStatus.active) only
            (inl (foreign t tenant user (members_of db) owned m only other))
      | inl same ↦
          subst
            (λ r. HasOwner t (
              update_where (is_member tenant user) (set_member r MembershipStatus.active)
                (members_of db)))
            (sym (is_owner-eq role o))
            (raised-HasOwner t tenant user (members_of db) owned m only same)
    ]
  ]
