-- ===== src/Members/Grants.antt =====
-- What a member of a tenant may read after the synchronization of the memberships, and after they are
-- disabled (services/api/src/tkp_api/services/membership_sync.py and authorization.py).
use tkp_platform.Base.{
  ℕ, ◌≡◌, refl, ap, ◌∙◌, inl, inr, Bool, true, false, not, ◌&&◌, none, some, List, [], ◌∷◌, ◌==◌,
  arith, All, any, filter, find, map, update_where, append-nil, Bool-cases, Option-cases, some_inj,
  subst, ==→eq,
}
use tkp_platform.Base.Result.{ok, err}
use tkp_platform.Base.AnyLaws.{any-append, any-update_keep, any-update_hit, any-filter}
use tkp_platform.Base.TableLaws.{filter-update_where, filter-append, filter-none}
use tkp_platform.Access.Rows.{
  MembershipStatus, TenantRole, TenantMembership, Workspace, WorkspaceMembership, AccessTables,
}
use tkp_platform.Access.Checks.{
  Principal, AccessError, not_found, read_denied, workspace, scalar_one_or_none, ws_member,
  is_active, ws_is_archived, get_workspace, get_workspace_membership, ensure_workspace_read_access,
}
use tkp_platform.Members.Sync.{
  Grant, is_row_of, renewed, new_row, put_grant, put_grants, live_workspace_ids,
  workspace_role_from_tenant_role, sync_workspace_memberships_for_tenant_member,
  disable_workspace_memberships_for_tenant_member, sync_tenant_members_to_workspace,
}

-- The statement of all ids of the selected rows holds of the id of a selected row that is found.
find-All {ℓ} :
    {A : Type ℓ} (P : ℕ → Type 0) (id : A → ℕ) (q : A → Bool) (w : ℕ) (a : A) (xs : List A)
    → All P (map id (filter q xs))
    → find (λ x. id x == w) xs ≡ some a
    → q a ≡ true
    → P w
find-All P id q w a [] all h qa = cc
find-All P id q w a (x ∷ xs) all h qa = elim (Bool-cases (id x == w)) [
  | inl t ↦
      let same : x ≡ a = some_inj (rw t at h) in
      let qx = ap q same ∙ qa in subst P (==→eq (id x) w t) (rw qx at all).0
  | inr n ↦ elim (Bool-cases (q x)) [
    | inl t ↦ find-All P id q w a xs (rw t at all).1 (rw n at h) qa
    | inr t ↦ find-All P id q w a xs (rw t at all) (rw n at h) qa
  ]
]

All-map {ℓ κ} :
    {A : Type ℓ} {B : Type κ} (P : B → Type 0) (f : A → B) (xs : List A)
    → All P (map f xs)
    → All (λ x. P (f x)) xs
All-map P f [] h = tt
All-map P f (x ∷ xs) h = (h.0, All-map P f xs h.1)

module _ (tenant : ℕ) (existing : List WorkspaceMembership) where
  abbrev member_of : Grant → WorkspaceMembership → Bool
  member_of g = ws_member (record { tenant_id = tenant; user_id = g.user_id }) g.workspace_id

  put_grant-grants :
      (g : Grant) (rows : List WorkspaceMembership)
      → (any (is_row_of tenant g) existing ≡ true → any (is_row_of tenant g) rows ≡ true)
      → any (member_of g) (put_grant tenant existing g rows) ≡ true
  unfolding put_grant
  put_grant-grants g rows there = elim (Bool-cases (any (is_row_of tenant g) existing)) [
    | inl t ↦ rw t (
        any-update_hit (member_of g) (is_row_of tenant g) (renewed g) rows (λ x h. ground arith)
          (there t))
    | inr n ↦ rw n (any-append (member_of g) rows (new_row tenant g ∷ []) ∙ ground arith)
  ]

  put_grant-keeps :
      (p : WorkspaceMembership → Bool) (g : Grant) (rows : List WorkspaceMembership)
      → ((x : WorkspaceMembership) → p x ≡ true → p (renewed g x) ≡ true)
      → any p rows ≡ true
      → any p (put_grant tenant existing g rows) ≡ true
  unfolding put_grant
  put_grant-keeps p g rows keep h = elim (Bool-cases (any (is_row_of tenant g) existing)) [
    | inl t ↦ rw t (any-update_keep p (is_row_of tenant g) (renewed g) rows keep h)
    | inr n ↦ rw n (any-append p rows (new_row tenant g ∷ []) ∙ rw h refl)
  ]

  put_grants-keeps :
      (p : WorkspaceMembership → Bool) (gs : List Grant) (rows : List WorkspaceMembership)
      → ((g : Grant) (x : WorkspaceMembership) → p x ≡ true → p (renewed g x) ≡ true)
      → any p rows ≡ true
      → any p (put_grants tenant existing gs rows) ≡ true
  unfolding put_grants
  put_grants-keeps p [] rows keep h = h
  put_grants-keeps p (g ∷ gs) rows keep h =
      put_grants-keeps p gs (put_grant tenant existing g rows) keep
        (put_grant-keeps p g rows (keep g) h)

  -- After the loop every grant has its active row.
  put_grants-grants :
      (gs : List Grant) (rows : List WorkspaceMembership)
      → ((g : Grant)
          → any (is_row_of tenant g) existing ≡ true
          → any (is_row_of tenant g) rows ≡ true)
      → All (λ g. any (member_of g) (put_grants tenant existing gs rows) ≡ true) gs
  unfolding put_grants
  put_grants-grants [] rows there = tt
  put_grants-grants (g ∷ gs) rows there =
      let now = put_grant-grants g rows (there g) in
      let next = put_grant tenant existing g rows in
      (
        put_grants-keeps (member_of g) gs next (λ h x e. ground arith) now,
        put_grants-grants gs next
            (λ h e. put_grant-keeps (is_row_of tenant h) g rows (λ x k. ground arith) (there h e)),
      )

  -- Rows that no grant is about are neither changed nor added.
  pub put_grants-others :
      (p : WorkspaceMembership → Bool) (gs : List Grant) (rows : List WorkspaceMembership)
      → All
          (λ g.
            (p (new_row tenant g) ≡ false)
            × ((x : WorkspaceMembership)
                → is_row_of tenant g x ≡ true
                → (p x ≡ false) × (p (renewed g x) ≡ false)))
          gs
      → filter p (put_grants tenant existing gs rows) ≡ filter p rows
  unfolding put_grants put_grant
  put_grants-others p [] rows other = refl
  put_grants-others p (g ∷ gs) rows other =
      put_grants-others p gs (put_grant tenant existing g rows) other.1
      ∙ elim (Bool-cases (any (is_row_of tenant g) existing)) [
        | inl t ↦ rw t (filter-update_where p (is_row_of tenant g) (renewed g) rows other.0.1)
        | inr n ↦ rw n (
            filter-append p rows (new_row tenant g ∷ [])
            ∙ rw (other.0.0) (append-nil (filter p rows)))
      ]

pub member_after :
    (tenant user : ℕ) (role : TenantRole) (db : AccessTables) (w : ℕ) (ws : Workspace)
    → find (λ (x : Workspace). x.id == w) db.workspaces ≡ some ws
    → ws.tenant_id ≡ tenant
    → ws_is_archived ws.status ≡ false
    → any
        (ws_member (record { tenant_id = tenant; user_id = user }) w)
        (sync_workspace_memberships_for_tenant_member tenant user role db).workspace_memberships
      ≡ true
unfolding sync_workspace_memberships_for_tenant_member
member_after tenant user role db w ws found own live =
    let rows = db.workspace_memberships in
    let all = put_grants-grants tenant _ _ rows (λ g e. any-filter (is_row_of tenant g) _ rows e) in
    find-All _ (λ (x : Workspace). x.id)
      (λ (x : Workspace). x.tenant_id == tenant && not (ws_is_archived x.status)) w ws db.workspaces
      (All-map _ _ (live_workspace_ids tenant db) all) found (ground (arith, own, live))

no_member-denied :
    (db : AccessTables) (p : Principal) (w : ℕ)
    → get_workspace_membership db p w ≡ ok none
    → (e : AccessError) × (ensure_workspace_read_access db p w ≡ err e)
unfolding ensure_workspace_read_access
no_member-denied db p w h = elim (Option-cases (get_workspace db p w)) [
  | inl e ↦ (not_found workspace w, rw e refl)
  | inr (ws, e) ↦ elim (Bool-cases (ws.tenant_id == p.tenant_id)) [
    | inr f ↦ (not_found workspace w, rw (e, f) refl)
    | inl t ↦ elim (Bool-cases (ws_is_archived ws.status)) [
      | inl a ↦ (not_found workspace w, rw (e, t, a) refl)
      | inr a ↦ (read_denied workspace, rw (e, t, a, h) refl)
    ]
  ]
]

disabled-not-member :
    (tenant user w : ℕ) (ms : List WorkspaceMembership)
    → any (ws_member (record { tenant_id = tenant; user_id = user }) w) (
        update_where
          (λ (m : WorkspaceMembership). m.tenant_id == tenant && m.user_id == user)
          (λ m. record m { status = MembershipStatus.disabled })
          ms)
      ≡ false
disabled-not-member tenant user w [] = refl
disabled-not-member tenant user w (m ∷ ms) =
    let rest = disabled-not-member tenant user w ms in
    elim (Bool-cases (m.tenant_id == tenant && m.user_id == user)) [
      | inl t ↦ rw (t, rest) (ground arith)
      | inr n ↦ rw (n, rest) (ground arith)
    ]

-- After the memberships of a user are disabled, no check of a workspace of the tenant passes for the
-- user, and the rows of other users and tenants are as they were.
pub disable_revokes :
    (tenant user : ℕ) (db : AccessTables)
    → ((w : ℕ)
        → (e : AccessError) × (ensure_workspace_read_access
              (disable_workspace_memberships_for_tenant_member tenant user db)
              (record { tenant_id = tenant; user_id = user })
              w
            ≡ err e))
      × (filter
            (λ (m : WorkspaceMembership). not (m.tenant_id == tenant && m.user_id == user))
            (disable_workspace_memberships_for_tenant_member tenant user db).workspace_memberships
          ≡ filter
              (λ (m : WorkspaceMembership). not (m.tenant_id == tenant && m.user_id == user))
              db.workspace_memberships)
unfolding disable_workspace_memberships_for_tenant_member get_workspace_membership
    scalar_one_or_none
disable_revokes tenant user db = (
  λ w. no_member-denied _ _ w (
      ap (λ ms. scalar_one_or_none ms)
        (filter-none (ws_member (record { tenant_id = tenant; user_id = user }) w) _
          (disabled-not-member tenant user w db.workspace_memberships))),
  filter-update_where
      (λ (m : WorkspaceMembership). not (m.tenant_id == tenant && m.user_id == user))
      (λ (m : WorkspaceMembership). m.tenant_id == tenant && m.user_id == user) _
      db.workspace_memberships (λ x h. (ground arith, ground arith)),
)

abbrev active_members : ℕ → AccessTables → List TenantMembership
active_members tenant db =
    filter (λ (m : TenantMembership). m.tenant_id == tenant && is_active m.status)
      db.tenant_memberships

abbrev elsewhere : ℕ → WorkspaceMembership → Bool
elsewhere w m = not (m.workspace_id == w)

same_workspace_grants :
    (tenant w : ℕ) (ms : List TenantMembership)
    → All
        (λ g.
          (elsewhere w (new_row tenant g) ≡ false)
          × ((x : WorkspaceMembership)
              → is_row_of tenant g x ≡ true
              → (elsewhere w x ≡ false) × (elsewhere w (renewed g x) ≡ false)))
        (map
          (λ (m : TenantMembership). record {
            workspace_id = w;
            user_id = m.user_id;
            role = workspace_role_from_tenant_role m.role;
          })
          ms)
same_workspace_grants tenant w [] = tt
same_workspace_grants tenant w (m ∷ ms) =
    ((ground arith, λ x h. (ground arith, ground arith)), same_workspace_grants tenant w ms)

-- After the members of a tenant are synchronized to a workspace, every active member of the tenant is
-- an active member of the workspace, and the rows of other workspaces are as they were.
sync_workspace_members :
    (tenant w : ℕ) (db : AccessTables)
    → All
        (λ (m : TenantMembership).
          any
            (ws_member (record { tenant_id = tenant; user_id = m.user_id }) w)
            (sync_tenant_members_to_workspace tenant w db).workspace_memberships
          ≡ true)
        (active_members tenant db)
      × (filter
            (λ (m : WorkspaceMembership). not (m.workspace_id == w))
            (sync_tenant_members_to_workspace tenant w db).workspace_memberships
          ≡ filter
              (λ (m : WorkspaceMembership). not (m.workspace_id == w))
              db.workspace_memberships)
unfolding sync_tenant_members_to_workspace
sync_workspace_members tenant w db =
    let rows = db.workspace_memberships in
    let all = put_grants-grants tenant _ _ rows (λ g e. any-filter (is_row_of tenant g) _ rows e) in
    (
      All-map _ _ (active_members tenant db) all,
      put_grants-others tenant _ (λ (m : WorkspaceMembership). not (m.workspace_id == w)) _ rows
          (same_workspace_grants tenant w (active_members tenant db)),
    )
