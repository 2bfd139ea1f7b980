-- ===== src/Tenants/Upserted.antt =====
-- The endpoint that adds a member directly has no guard for the last owner
-- (services/api/src/tkp_api/api/tenants.py).
use tkp_platform.Base.{
  ℕ, ◌≡◌, refl, sym, ap, ◌∙◌, subst, inl, inr, Bool, true, false, not, ◌&&◌, none, some, List, [],
  ◌∷◌, arith, any, filter, update_where, Bool-cases,
}
use tkp_platform.Base.AnyLaws.{any-and_filter}
use tkp_platform.Base.Result.{ok, Result-cases, ok_inj}
use tkp_platform.Base.Text.{Text}
use tkp_platform.Access.Rows.{MembershipStatus, TenantRole, TenantMembership}
use tkp_platform.Access.Checks.{scalar_one_or_none}
use tkp_platform.Members.Sync.{normalize_email}
use tkp_platform.Documents.State.{Context}
use tkp_platform.Tenants.Owners.{filter-head}
use tkp_platform.Tenants.Kept.{members_of, synced-members, found-cases}
use tkp_platform.Tenants.Members.{
  User, TenantDb, is_member, set_member, is_owner, is_active_owner, check_manager, find_user,
  find_membership, upsert_tenant_member,
}

module _ {ℓ} {A : Type ℓ} (p key : A → Bool) where
  filter-nil : (xs : List A) → filter key xs ≡ [] → any (λ x. p x && key x) xs ≡ false
  filter-nil [] h = refl
  filter-nil (x ∷ xs) h = elim (Bool-cases (key x)) [
    | inl t ↦ cc (rw t at h)
    | inr f ↦ rw (f, filter-nil xs (rw f at h)) (ground arith)
  ]

  none-updated :
      (f : A → A) (xs : List A)
      → ((x : A) → key x ≡ true → p (f x) ≡ false)
      → any (λ x. p x && not (key x)) xs ≡ false
      → any p (update_where key f xs) ≡ false
  none-updated f [] hit h = refl
  none-updated f (x ∷ xs) hit h = elim (Bool-cases (key x)) [
    | inl t ↦
        let rest = none-updated f xs hit (let r = rw t at h in ground (arith, r)) in
        rw (t, hit x t, rest) refl
    | inr n ↦ elim (Bool-cases (p x)) [
      | inl u ↦ cc (rw (n, u) at h)
      | inr u ↦ rw (n, u, none-updated f xs hit (rw (n, u) at h)) refl
    ]
  ]

scalar-none {ℓ} : {A : Type ℓ} (xs : List A) → scalar_one_or_none xs ≡ ok none → xs ≡ []
unfolding scalar_one_or_none
scalar-none [] h = refl
scalar-none (x ∷ []) h = cc
scalar-none (x ∷ y ∷ xs) h = cc

find_membership-none :
    (tenant user : ℕ) (db : TenantDb)
    → find_membership tenant user db ≡ ok none
    → filter (is_member tenant user) (members_of db) ≡ []
unfolding find_membership
find_membership-none tenant user db h =
    elim (Result-cases (scalar_one_or_none (filter (is_member tenant user) (members_of db)))) [
      | inr (e, f) ↦ cc (rw f at h)
      | inl (x, f) ↦ scalar-none _ (f ∙ ap ok (ok_inj (rw f at h)))
    ]

-- A manager who adds the only active owner of a tenant again, by email and with a lower role, leaves the tenant
-- without an owner.
pub upsert_takes_last_owner :
    (ctx : Context) (tenant new_id : ℕ) (email : Text) (role : TenantRole) (db db' : TenantDb)
    (u : User) (m : TenantMembership)
    → filter (is_active_owner tenant) (members_of db) ≡ m ∷ []
    → find_user (normalize_email email) db ≡ ok (some u)
    → u.id ≡ m.user_id
    → is_owner role ≡ false
    → upsert_tenant_member ctx tenant new_id email role db ≡ ok db'
    → any (is_active_owner tenant) (members_of db') ≡ false
unfolding upsert_tenant_member
upsert_takes_last_owner ctx tenant new_id email role db db' u m only looked same lower h =
    let owner = is_active_owner tenant in
    let key = is_member tenant u.id in
    let owns : owner m ≡ true = filter-head owner (members_of db) m only in
    let keyed : key m ≡ true = ground (arith, owns, same) in
    elim (Result-cases (check_manager ctx tenant db)) [
      | inr (e, refused) ↦ cc (rw refused at h)
      | inl (x, manages) ↦ elim (found-cases (find_membership tenant u.id db)) [
        | inr (inr (e, refused)) ↦ cc (rw (manages, looked, refused) at h)
        | inr (inl missing) ↦
            let no =
              filter-nil owner key (members_of db) (find_membership-none tenant u.id db missing) in
            let yes : any (λ x. owner x && key x) (members_of db) ≡ true =
              any-and_filter key owner (members_of db) ∙ rw (only, keyed) refl in
            cc (no, yes)
        | inl (old, found) ↦
            let others : any (λ x. owner x && not (key x)) (members_of db) ≡ false =
              any-and_filter (λ x. not (key x)) owner (members_of db) ∙ rw (only, keyed) refl in
            subst (λ (y : TenantDb). any owner (members_of y) ≡ false)
              (ok_inj (rw (manages, looked, found) at h))
              (subst (λ (rows : List TenantMembership). any owner rows ≡ false)
                (sym (synced-members tenant u.id role _))
                (none-updated owner key (set_member role MembershipStatus.active) (members_of db)
                  (λ x k. rw lower (ground arith)) others))
      ]
    ]
