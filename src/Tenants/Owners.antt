-- ===== src/Tenants/Owners.antt =====
-- A tenant keeps an owner (services/api/src/tkp_api/api/tenants.py).
use tkp_platform.Base.{
  ℕ, ◌≤◌, ◌≡◌, refl, subst, ◌⊎◌, inl, inr, Bool, true, false, List, [], ◌∷◌, ◌==◌, arith, any,
  filter, length, update_where, Bool-cases,
}
use tkp_platform.Base.AnyLaws.{any-update_hit}
use tkp_platform.Access.Rows.{MembershipStatus, TenantRole, TenantMembership}
use tkp_platform.Access.Granted.{any-filter_head}
use tkp_platform.Tenants.Survivors.{any-outside, outside-stays, any-not_key}
use tkp_platform.Tenants.Members.{is_member, set_member, is_active_owner}

-- The tenant has an active owner.
abbrev pub HasOwner : ℕ → List TenantMembership → Type 0
HasOwner t rows = any (is_active_owner t) rows ≡ true

pub filter-head {ℓ} :
    {A : Type ℓ} (p : A → Bool) (xs : List A) (a : A) → filter p xs ≡ a ∷ [] → p a ≡ true
filter-head p [] a h = cc
filter-head p (x ∷ xs) a h = elim (Bool-cases (p x)) [
  | inr f ↦ filter-head p xs a (rw f at h)
  | inl t ↦
      let e : Path (List _) (x ∷ filter p xs) (a ∷ []) = rw t at h in
      let same : x ≡ a = cc in subst (λ y. p y ≡ true) same t
]

module _ (t tenant user : ℕ) (rows : List TenantMembership) (owned : HasOwner t rows) where
  -- The member's row is the only one of the user, and it is no active owner of `t`, or not the only one.
  pub update-HasOwner :
      (m : TenantMembership) (f : TenantMembership → TenantMembership)
      → filter (is_member tenant user) rows ≡ m ∷ []
      → (is_active_owner t m ≡ false) ⊎ (2 ≤ length (filter (is_active_owner t) rows))
      → HasOwner t (update_where (is_member tenant user) f rows)
  update-HasOwner m f only (inl fails) =
      outside-stays (is_active_owner t) (is_member tenant user) f rows
        (any-not_key (is_active_owner t) (is_member tenant user) m rows only fails owned)
  update-HasOwner m f only (inr many) =
      let one : length (filter (is_member tenant user) rows) ≡ 1 = rw only refl in
      outside-stays (is_active_owner t) (is_member tenant user) f rows
        (any-outside (is_active_owner t) (is_member tenant user) rows (omega (arith, one, many)))

  pub foreign :
      (m : TenantMembership)
      → filter (is_member tenant user) rows ≡ m ∷ []
      → (tenant == t) ≡ false
      → is_active_owner t m ≡ false
  foreign m only other =
      let own : is_member tenant user m ≡ true = filter-head (is_member tenant user) rows m only in
      ground (arith, own, other)

  -- A row that becomes an active owner.
  pub raised-HasOwner :
      (m : TenantMembership)
      → filter (is_member tenant user) rows ≡ m ∷ []
      → (tenant == t) ≡ true
      → HasOwner t (
          update_where
            (is_member tenant user)
            (set_member TenantRole.owner MembershipStatus.active)
            rows)
  raised-HasOwner m only same =
      any-update_hit (is_active_owner t) (is_member tenant user)
        (set_member TenantRole.owner MembershipStatus.active) rows
        (λ x own. ground (arith, own, same)) (any-filter_head (is_member tenant user) rows m only)
