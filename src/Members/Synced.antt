-- ===== src/Members/Synced.antt =====
-- What the synchronization of a member of a tenant leaves
-- (services/api/src/tkp_api/services/membership_sync.py).
use tkp_platform.Base.{
  ℕ, ◌≤◌, ◌≡◌, refl, sym, ap, ◌∙◌, inl, inr, Bool, true, false, not, ◌&&◌, some, List, [], ◌∷◌,
  ◌++◌, ◌==◌, arith, any, filter, find, map, length, contains, Bool-cases, ==→eq, All, subst,
}
use tkp_platform.Base.Result.{ok}
use tkp_platform.Base.TableLaws.{filter-append}
use tkp_platform.Access.Rows.{
  TenantRole, Workspace, WorkspaceRole, WorkspaceMembership, AccessTables,
}
use tkp_platform.Access.Checks.{
  Principal, ws_member, ws_is_archived, get_workspace_membership, scalar_one_or_none,
  ensure_workspace_read_access,
}
use tkp_platform.Members.Sync.{
  Grant, is_row_of, renewed, new_row, put_grant, put_grants, live_workspace_ids,
  workspace_role_from_tenant_role, sync_workspace_memberships_for_tenant_member,
}
use tkp_platform.Members.Counted.{
  length-filter_le, length-filter_update, filter-beyond, filter-single,
}
use tkp_platform.Members.Grants.{member_after, put_grants-others}

module _ (tenant user w : ℕ) (existing : List WorkspaceMembership) where
  -- The row of the user for the workspace, whatever its status.
  abbrev own_row : WorkspaceMembership → Bool
  own_row m = m.tenant_id == tenant && (m.workspace_id == w && m.user_id == user)

  abbrev for_workspace : Grant → Bool
  for_workspace g = g.workspace_id == w

  -- What the loop keeps: there is one row at most, and none yet if one is still to be added.
  abbrev One : List Grant → List WorkspaceMembership → Type 0
  One gs rows =
      (length (filter own_row rows) ≤ 1)
      × (1 ≤ length (filter for_workspace gs)
          → any own_row existing ≡ false
          → filter own_row rows ≡ [])

  row_of_grant :
      (g : Grant) → g.user_id ≡ user → for_workspace g ≡ true → is_row_of tenant g ≡ own_row
  row_of_grant g own here = λ i m.
      m.tenant_id == tenant
      && (m.workspace_id == ==→eq g.workspace_id w here i && m.user_id == own i)

  put_own-One :
      (g : Grant) (gs : List Grant) (rows : List WorkspaceMembership)
      → g.user_id ≡ user
      → for_workspace g ≡ true
      → length (filter for_workspace (g ∷ gs)) ≤ 1
      → One (g ∷ gs) rows
      → One gs (put_grant tenant existing g rows)
  unfolding put_grant
  put_own-One g gs rows own here few (one, absent) =
      let same = row_of_grant g own here in
      let last : length (filter for_workspace gs) ≤ 0 =
        let n = rw here at few in omega (arith, n) in
      elim (Bool-cases (any own_row existing)) [
        | inl t ↦
            let n =
              length-filter_update own_row (is_row_of tenant g) (renewed g) rows (λ x. refl) in
            rw (ap (λ p. any p existing) same ∙ t)
              (omega (arith, n, one), λ more none_there. absurd (omega (arith, more, last)))
        | inr f ↦
            let gone = absent (rw here (omega arith)) f in
            let added = filter-append own_row rows (new_row tenant g ∷ []) in
            let count : length (filter own_row (new_row tenant g ∷ [])) ≤ 1 =
              at_most_one (new_row tenant g) in
            rw (ap (λ p. any p existing) same ∙ f) (
              subst (λ l. length l ≤ 1)
                  (sym (added ∙ ap (λ l. l ++ filter own_row (new_row tenant g ∷ [])) gone)) count,
              λ more none_there. absurd (omega (arith, more, last)),
            )
      ]
    where
      at_most_one : (m : WorkspaceMembership) → length (filter own_row (m ∷ [])) ≤ 1
      at_most_one m = elim (Bool-cases (own_row m)) [
        | inl t ↦ rw t (omega arith)
        | inr f ↦ rw f (omega arith)
      ]

  put_other-One :
      (g : Grant) (gs : List Grant) (rows : List WorkspaceMembership)
      → for_workspace g ≡ false
      → One (g ∷ gs) rows
      → One gs (put_grant tenant existing g rows)
  unfolding put_grants
  put_other-One g gs rows other (one, absent) =
      let left : filter own_row (put_grant tenant existing g rows) ≡ filter own_row rows =
        put_grants-others tenant existing own_row (g ∷ []) rows
          ((ground arith, λ x h. (ground arith, ground arith)), tt) in
      (
        subst (λ l. length l ≤ 1) (sym left) one,
        λ more none_there. left ∙ absent (rw other more) none_there,
      )

  put_grants-One :
      (gs : List Grant) (rows : List WorkspaceMembership)
      → All (λ (g : Grant). g.user_id ≡ user) gs
      → length (filter for_workspace gs) ≤ 1
      → One gs rows
      → length (filter own_row (put_grants tenant existing gs rows)) ≤ 1
  unfolding put_grants
  put_grants-One [] rows own few one = one.0
  put_grants-One (g ∷ gs) rows own few one =
      let next = put_grant tenant existing g rows in
      elim (Bool-cases (for_workspace g)) [
        | inl t ↦
            let n = rw t at few in
            put_grants-One gs next own.1 (omega (arith, n)) (put_own-One g gs rows own.0 t few one)
        | inr f ↦ put_grants-One gs next own.1 (rw f at few) (put_other-One g gs rows f one)
      ]

module _ (user w : ℕ) (role : WorkspaceRole) where
  abbrev grant : ℕ → Grant
  grant id = record { workspace_id = id; user_id = user; role = role }

  grants-own : (ids : List ℕ) → All (λ (g : Grant). g.user_id ≡ user) (map grant ids)
  grants-own [] = tt
  grants-own (i ∷ ids) = (refl, grants-own ids)

  -- The workspace is granted no more often than it has rows.
  grants-few :
      (q : Workspace → Bool) (rows : List Workspace)
      → length (
          filter
            (λ (g : Grant). g.workspace_id == w)
            (map grant (map (λ (x : Workspace). x.id) (filter q rows))))
        ≤ length (filter (λ (x : Workspace). x.id == w) rows)
  grants-few q [] = omega arith
  grants-few q (x ∷ rows) =
      let rest = grants-few q rows in
      elim (Bool-cases (q x)) [
        | inl t ↦ elim (Bool-cases (x.id == w)) [
          | inl e ↦ rw (t, e) (omega (arith, rest))
          | inr n ↦ rw (t, n) rest
        ]
        | inr f ↦ elim (Bool-cases (x.id == w)) [
          | inl e ↦ rw (f, e) (omega (arith, rest))
          | inr n ↦ rw (f, n) rest
        ]
      ]

  granted-contains :
      (ids : List ℕ)
      → 1 ≤ length (filter (λ (g : Grant). g.workspace_id == w) (map grant ids))
      → contains w ids ≡ true
  granted-contains [] h = absurd (omega (arith, h))
  granted-contains (i ∷ ids) h = elim (Bool-cases (i == w)) [
    | inl e ↦ ground arith
    | inr n ↦ let rest = granted-contains ids (rw n at h) in ground (arith, rest)
  ]

-- After a member of a tenant is synchronized, the check of a workspace passes for the member, for every
-- workspace of the tenant that is not archived and whatever the memberships were before, so long as the id of
-- the workspace is a key and the member had one row for it at most.
pub sync_member_reads :
    (tenant user : ℕ) (role : TenantRole) (db : AccessTables) (w : ℕ) (ws : Workspace)
    → find (λ (x : Workspace). x.id == w) db.workspaces ≡ some ws
    → ws.tenant_id ≡ tenant
    → ws_is_archived ws.status ≡ false
    → length (filter (λ (x : Workspace). x.id == w) db.workspaces) ≤ 1
    → length (
        filter
          (λ (m : WorkspaceMembership).
            m.tenant_id == tenant && (m.workspace_id == w && m.user_id == user))
          db.workspace_memberships)
      ≤ 1
    → (m : WorkspaceMembership) × (ensure_workspace_read_access
          (sync_workspace_memberships_for_tenant_member tenant user role db)
          (record { tenant_id = tenant; user_id = user })
          w
        ≡ ok (ws, m))
unfolding sync_workspace_memberships_for_tenant_member ensure_workspace_read_access
    get_workspace_membership scalar_one_or_none
sync_member_reads tenant user role db w ws found own live key one =
    let rows = db.workspace_memberships in
    let ids = live_workspace_ids tenant db in
    let gives = workspace_role_from_tenant_role role in
    let asked = λ (m : WorkspaceMembership).
      m.tenant_id == tenant && (m.user_id == user && contains m.workspace_id ids) in
    let few =
      grants-few user w gives
        (λ (x : Workspace). x.tenant_id == tenant && not (ws_is_archived x.status)) db.workspaces in
    let after =
      put_grants-One tenant user w (filter asked rows) (map (grant user w gives) ids) rows
        (grants-own user w gives ids) (omega (arith, few, key))
        (
          one,
          λ granted none_there.
              let listed = granted-contains user w gives ids granted in
              filter-beyond (own_row tenant user w (filter asked rows)) asked rows
                (λ m h.
                  let here : m.workspace_id ≡ w = ground (arith, h) in
                  let in_ids = subst (λ n. contains n ids ≡ true) (sym here) listed in
                  ground (arith, h, in_ids))
                none_there,
        ) in
    let p : Principal = record { tenant_id = tenant; user_id = user } in
    let final =
      (sync_workspace_memberships_for_tenant_member tenant user role db).workspace_memberships in
    let active =
      length-filter_le (ws_member p w) (own_row tenant user w (filter asked rows)) final
        (λ m h. ground (arith, h)) in
    let (m, only) =
      filter-single (ws_member p w) final (member_after tenant user role db w ws found own live)
        (omega (arith, active, after)) in
    (m, rw (found, only) (ground (arith, own, live)))
