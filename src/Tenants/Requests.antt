-- ===== src/Tenants/Requests.antt =====
-- Each request on the members of a tenant, and any number of them in any order
-- (services/api/src/tkp_api/api/tenants.py).
use tkp_platform.Base.{
  ℕ, ◌≡◌, refl, sym, ◌∙◌, subst, inl, inr, false, not, ◌&&◌, Option, none, some, ◌==◌, arith, find,
  Bool-cases, Option-cases,
}
use tkp_platform.Base.AnyLaws.{any-append, any-update_keep}
use tkp_platform.Base.Result.{ok, Result-cases, ok_inj}
use tkp_platform.Base.Text.{Text}
use tkp_platform.Access.Rows.{MembershipStatus, TenantRole, TenantMembership}
use tkp_platform.Access.Checks.{is_active}
use tkp_platform.Members.Sync.{normalize_email}
use tkp_platform.Documents.State.{Context}
use tkp_platform.Tenants.Kept.{
  members_of, synced-members, disabled-members, find_membership-only, found-cases, removal_spares,
  unguarded-HasOwner, changed-HasOwner,
}
use tkp_platform.Tenants.Owners.{HasOwner}
use tkp_platform.Tenants.Members.{
  User, TenantDb, is_member, set_member, put_user, put_member, is_active_member, is_owner,
  is_active_owner, has_one_owner, check_manager, get_tenant_or_404, find_user, find_membership,
  joined, invite_tenant_member, join_tenant, update_tenant_member_role, remove_tenant_member,
}

module _ (t tenant : ℕ) (ctx : Context) (db : TenantDb) (owned : HasOwner t (members_of db)) where
  update-kept :
      (user : ℕ) (role : TenantRole) (db' : TenantDb)
      → update_tenant_member_role ctx tenant user role db ≡ ok db'
      → HasOwner t (members_of db')
  unfolding update_tenant_member_role
  update-kept user role db' h = elim (Result-cases (check_manager ctx tenant db)) [
    | inr (e, refused) ↦ cc (rw refused at h)
    | inl (x, manages) ↦ elim (found-cases (find_membership tenant user db)) [
      | inr (inr (e, refused)) ↦ cc (rw (manages, refused) at h)
      | inr (inl missing) ↦ cc (rw (manages, missing) at h)
      | inl (m, found) ↦
          elim (Bool-cases (is_owner m.role && (not (is_owner role) && has_one_owner tenant db))) [
            | inl last ↦ cc (rw (manages, found, last) at h)
            | inr guard ↦ elim (Option-cases (find (λ (u : User). u.id == user) db.users)) [
              | inl missing ↦ cc (rw (manages, found, guard, missing) at h)
              | inr (u, known) ↦
                  subst (λ (y : TenantDb). HasOwner t (members_of y))
                    (ok_inj (rw (manages, found, guard, known) at h))
                    (subst (HasOwner t) (sym (synced-members tenant user role _)) (
                      changed-HasOwner t tenant user db owned m role
                        (find_membership-only tenant user db m found) guard))
            ]
          ]
    ]
  ]

  remove-kept :
      (user : ℕ) (db' : TenantDb)
      → remove_tenant_member ctx tenant user db ≡ ok db'
      → HasOwner t (members_of db')
  unfolding remove_tenant_member
  remove-kept user db' h = elim (Result-cases (check_manager ctx tenant db)) [
    | inr (e, refused) ↦ cc (rw refused at h)
    | inl (x, manages) ↦ elim (found-cases (find_membership tenant user db)) [
      | inr (inr (e, refused)) ↦ cc (rw (manages, refused) at h)
      | inr (inl missing) ↦ cc (rw (manages, missing) at h)
      | inl (m, found) ↦
          elim (Bool-cases (is_owner m.role && (is_active m.status && has_one_owner tenant db))) [
            | inl last ↦ cc (rw (manages, found, last) at h)
            | inr guard ↦ elim (Option-cases (find (λ (u : User). u.id == user) db.users)) [
              | inl missing ↦ cc (rw (manages, found, guard, missing) at h)
              | inr (u, known) ↦
                  subst (λ (y : TenantDb). HasOwner t (members_of y))
                    (ok_inj (rw (manages, found, guard, known) at h))
                    (subst (HasOwner t) (sym (disabled-members tenant user _)) (
                      unguarded-HasOwner t tenant user db owned m _
                        (find_membership-only tenant user db m found)
                        (removal_spares tenant db m guard)))
            ]
          ]
    ]
  ]

  -- An invitation adds a row, or changes one that is not active.
  invited-kept :
      (user : ℕ) (role : TenantRole) (old : Option TenantMembership)
      → find_membership tenant user db ≡ ok old
      → is_active_member old ≡ false
      → HasOwner t (put_member tenant user role MembershipStatus.invited old (members_of db))
  invited-kept user role none found idle =
      any-append (is_active_owner t) (members_of db) _ ∙ rw owned refl
  invited-kept user role (some m) found idle =
      unguarded-HasOwner t tenant user db owned m (set_member role MembershipStatus.invited)
        (find_membership-only tenant user db m found) (inl (rw idle (ground arith)))

  invite-kept :
      (new_id : ℕ) (email : Text) (role : TenantRole) (db' : TenantDb)
      → invite_tenant_member ctx tenant new_id email role db ≡ ok db'
      → HasOwner t (members_of db')
  unfolding invite_tenant_member
  invite-kept new_id email role db' h = elim (Result-cases (check_manager ctx tenant db)) [
    | inr (e, refused) ↦ cc (rw refused at h)
    | inl (x, manages) ↦ elim (Result-cases (find_user (normalize_email email) db)) [
      | inr (e, refused) ↦ cc (rw (manages, refused) at h)
      | inl (known, looked) ↦
          let user = put_user new_id (normalize_email email) known db.users in
          elim (Result-cases (find_membership tenant user.0.id db)) [
            | inr (e, refused) ↦ cc (rw (manages, looked, refused) at h)
            | inl (old, found) ↦ elim (Bool-cases (is_active_member old)) [
              | inl busy ↦ cc (rw (manages, looked, found, busy) at h)
              | inr idle ↦
                  subst (λ (y : TenantDb). HasOwner t (members_of y))
                    (ok_inj (rw (manages, looked, found, idle) at h))
                    (invited-kept user.0.id role old found idle)
            ]
          ]
    ]
  ]

module _ (t tenant : ℕ) (db : TenantDb) (owned : HasOwner t (members_of db)) where
  joined-kept :
      (user : ℕ) (m : TenantMembership) (db' : TenantDb)
      → joined tenant user db m ≡ ok db'
      → HasOwner t (members_of db')
  joined-kept user m db' h = status_kept m.status refl
    where
      status_kept : (st : MembershipStatus) → m.status ≡ st → HasOwner t (members_of db')
      status_kept MembershipStatus.active e =
          subst (λ (y : TenantDb). HasOwner t (members_of y)) (ok_inj (rw e at h))
            (subst (HasOwner t) (sym (synced-members tenant user m.role db.access)) owned)
      status_kept MembershipStatus.invited e =
          subst (λ (y : TenantDb). HasOwner t (members_of y)) (ok_inj (rw e at h))
            (subst (HasOwner t) (sym (synced-members tenant user m.role _)) (
              any-update_keep (is_active_owner t) (is_member tenant user)
                (λ (x : TenantMembership). record x { status = MembershipStatus.active })
                (members_of db) (λ x own. ground (arith, own)) owned))
      status_kept MembershipStatus.disabled e = cc (rw e at h)

  join-kept :
      (user : ℕ) (db' : TenantDb)
      → join_tenant tenant user db ≡ ok db'
      → HasOwner t (members_of db')
  unfolding join_tenant
  join-kept user db' h = elim (Result-cases (get_tenant_or_404 tenant db)) [
    | inr (e, refused) ↦ cc (rw refused at h)
    | inl (x, there) ↦ elim (found-cases (find_membership tenant user db)) [
      | inr (inr (e, refused)) ↦ cc (rw (there, refused) at h)
      | inr (inl missing) ↦ cc (rw (there, missing) at h)
      | inl (m, found) ↦ joined-kept user m db' (rw (there, found) at h)
    ]
  ]

-- One request, by a manager or by the user who joins.
infix 40 ◌⟶◌
pub data ◌⟶◌ : TenantDb → TenantDb → Type 0 where
  invites :
      {db db' : TenantDb} (ctx : Context) (tenant new_id : ℕ) (email : Text) (role : TenantRole)
      → invite_tenant_member ctx tenant new_id email role db ≡ ok db'
      → db ⟶ db'
  joins : {db db' : TenantDb} (tenant user : ℕ) → join_tenant tenant user db ≡ ok db' → db ⟶ db'
  changes :
      {db db' : TenantDb} (ctx : Context) (tenant user : ℕ) (role : TenantRole)
      → update_tenant_member_role ctx tenant user role db ≡ ok db'
      → db ⟶ db'
  removes :
      {db db' : TenantDb} (ctx : Context) (tenant user : ℕ)
      → remove_tenant_member ctx tenant user db ≡ ok db'
      → db ⟶ db'

infix 40 ◌⟶*◌
pub data ◌⟶*◌ : TenantDb → TenantDb → Type 0 where
  here : {db : TenantDb} → db ⟶* db
  then : {db mid db' : TenantDb} → db ⟶ mid → mid ⟶* db' → db ⟶* db'

step-HasOwner :
    (t : ℕ) {db db' : TenantDb}
    → db ⟶ db'
    → HasOwner t (members_of db)
    → HasOwner t (members_of db')
step-HasOwner t (invites ctx tenant new_id email role h) owned =
    invite-kept t tenant ctx _ owned new_id email role _ h
step-HasOwner t (joins tenant user h) owned = join-kept t tenant _ owned user _ h
step-HasOwner t (changes ctx tenant user role h) owned =
    update-kept t tenant ctx _ owned user role _ h
step-HasOwner t (removes ctx tenant user h) owned = remove-kept t tenant ctx _ owned user _ h

-- A tenant that has an active owner keeps one through any invitations, joins, changes of role and removals, in
-- any order, in its own or in other tenants. Adding a member directly is not among them.
pub requests-HasOwner :
    (t : ℕ) {db db' : TenantDb}
    → db ⟶* db'
    → HasOwner t (members_of db)
    → HasOwner t (members_of db')
requests-HasOwner t here owned = owned
requests-HasOwner t (then step steps) owned = requests-HasOwner t steps (step-HasOwner t step owned)
