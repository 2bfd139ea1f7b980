-- ===== src/Access/Reading.antt =====
-- When the read checks pass (services/api/src/tkp_api/services/authorization.py).
use tkp_platform.Base.{
  ℕ, ◌≡◌, refl, sym, ap, ◌∙◌, ◌↔◌, ◌⊎◌, inl, inr, Bool, true, false, ◌&&◌, none, some, ◌==◌, arith,
  any, Bool-cases, Option-cases, ==→eq, ==_refl,
}
use tkp_platform.Base.Result.{ok, Result-cases, ok_inj}
use tkp_platform.Base.Unique.{UniqueBy, unique-filter}
use tkp_platform.Base.TableLaws.{filter-none}
use tkp_platform.Access.Rows.{
  WorkspaceMembership, Workspace, KnowledgeBase, KbMembership, AccessTables,
}
use tkp_platform.Access.Checks.{
  Principal, ws_member, kb_member, get_workspace, get_kb, ws_is_archived, kb_is_archived,
  get_workspace_membership, get_kb_membership, ensure_workspace_read_access, find_kb,
  ensure_kb_read_access,
}

-- uk_workspace_membership and uk_kb_membership of sql/init_all.sql.
abbrev pub same_ws_key : WorkspaceMembership → WorkspaceMembership → Bool
same_ws_key a b = a.workspace_id == b.workspace_id && a.user_id == b.user_id

abbrev pub same_kb_key : KbMembership → KbMembership → Bool
same_kb_key a b = a.kb_id == b.kb_id && a.user_id == b.user_id

pub record UniqueMembers (db : AccessTables) : Type 0 where
  pub ws : UniqueBy same_ws_key db.workspace_memberships
  pub kb : UniqueBy same_kb_key db.kb_memberships

module _ (db : AccessTables) (p : Principal) where
  -- The workspace exists, is the tenant's, is not archived, and the user is an active member.
  pub record MayReadWorkspace (w : ℕ) : Type 0 where
    pub ws : Workspace
    pub found : get_workspace db p w ≡ some ws
    pub own : ws.tenant_id ≡ p.tenant_id
    pub live : ws_is_archived ws.status ≡ false
    pub is_member : any (ws_member p w) db.workspace_memberships ≡ true

  -- The same of the knowledge base, and of the workspace that it stands in.
  pub record MayReadKb (k : ℕ) : Type 0 where
    pub kb : KnowledgeBase
    pub found : get_kb db p k ≡ some kb
    pub own : kb.tenant_id ≡ p.tenant_id
    pub live : kb_is_archived kb.status ≡ false
    pub in_workspace : MayReadWorkspace kb.workspace_id
    pub is_member : any (kb_member p kb.id) db.kb_memberships ≡ true

module _ (db : AccessTables) (p : Principal) where
  pub find_kb-ok :
      (k : ℕ) (kb : KnowledgeBase)
      → find_kb db p k ≡ ok kb
      → (get_kb db p k ≡ some kb)
        × (kb.tenant_id ≡ p.tenant_id)
        × (kb_is_archived kb.status ≡ false)
  unfolding find_kb
  find_kb-ok k kb h = elim (Option-cases (get_kb db p k)) [
    | inl e ↦ cc (rw e at h)
    | inr (x, e) ↦ elim (Bool-cases (x.tenant_id == p.tenant_id)) [
      | inr f ↦ cc (rw (e, f) at h)
      | inl t ↦ elim (Bool-cases (kb_is_archived x.status)) [
        | inl a ↦ cc (rw (e, t, a) at h)
        | inr a ↦
            let same = ok_inj (rw (e, t, a) at h) in
            (
              e ∙ ap some same,
              ap (λ (y : KnowledgeBase). y.tenant_id) (sym same) ∙ ==→eq x.tenant_id p.tenant_id t,
              ap (λ (y : KnowledgeBase). kb_is_archived y.status) (sym same) ∙ a,
            )
      ]
    ]
  ]

  pub find_kb-found :
      (k : ℕ) (kb : KnowledgeBase)
      → get_kb db p k ≡ some kb
      → kb.tenant_id ≡ p.tenant_id
      → kb_is_archived kb.status ≡ false
      → find_kb db p k ≡ ok kb
  unfolding find_kb
  find_kb-found k kb found own live = rw (found, own, live) (rw (==_refl p.tenant_id) refl)

  pub no_kb_membership :
      (k : ℕ) → any (kb_member p k) db.kb_memberships ≡ false → get_kb_membership db p k ≡ ok none
  unfolding get_kb_membership
  no_kb_membership k n = rw (filter-none (kb_member p k) db.kb_memberships n) refl

module _ (db : AccessTables) (u : UniqueMembers db) (p : Principal) where
  ws_membership_cases :
      (w : ℕ)
      → ((get_workspace_membership db p w ≡ ok none)
          × (any (ws_member p w) db.workspace_memberships ≡ false))
        ⊎ ((m : WorkspaceMembership) × (get_workspace_membership db p w ≡ ok (some m))
            × (ws_member p w m ≡ true)
            × (any (ws_member p w) db.workspace_memberships ≡ true))
  unfolding get_workspace_membership
  ws_membership_cases w =
      elim (unique-filter same_ws_key (ws_member p w) (λ x y h k. ground arith)
        db.workspace_memberships u.ws) [
          | inl (e, n) ↦ inl (rw e refl, n)
          | inr (m, e, pm, n) ↦ inr (m, rw e refl, pm, n)
        ]

  kb_membership_cases :
      (k : ℕ)
      → ((get_kb_membership db p k ≡ ok none) × (any (kb_member p k) db.kb_memberships ≡ false))
        ⊎ ((m : KbMembership) × (get_kb_membership db p k ≡ ok (some m))
            × (kb_member p k m ≡ true)
            × (any (kb_member p k) db.kb_memberships ≡ true))
  unfolding get_kb_membership
  kb_membership_cases k =
      elim (unique-filter same_kb_key (kb_member p k) (λ x y h e. ground arith) db.kb_memberships
        u.kb) [ inl (e, n) ↦ inl (rw e refl, n) | inr (m, e, pm, n) ↦ inr (m, rw e refl, pm, n) ]

  -- A workspace check that passes has found what is asked for.
  pub read_workspace_sound :
      (w : ℕ) (r : Workspace × WorkspaceMembership)
      → ensure_workspace_read_access db p w ≡ ok r
      → MayReadWorkspace db p w
  unfolding ensure_workspace_read_access
  read_workspace_sound w r h = elim (Option-cases (get_workspace db p w)) [
    | inl e ↦ cc (rw e at h)
    | inr (ws, e) ↦ elim (ws_membership_cases w) [
      | inl (e', n) ↦ ground (arith, rw (e, e') at h)
      | inr (m, e', pm, n) ↦
          let h' = rw (e, e') at h in
          record { ws = ws; found = e; own = ground arith; live = ground arith; is_member = n }
    ]
  ]

  pub read_workspace_complete :
      (w : ℕ)
      → MayReadWorkspace db p w
      → (r : Workspace × WorkspaceMembership) × (ensure_workspace_read_access db p w ≡ ok r)
  unfolding ensure_workspace_read_access
  read_workspace_complete w may = elim (ws_membership_cases w) [
    | inl (e', n) ↦ cc (may.is_member, n)
    | inr (m, e', pm, n) ↦ ((may.ws, m), rw (may.found, e') (ground (arith, may.own, may.live)))
  ]

  read_kb_sound :
      (k : ℕ) (r : KnowledgeBase × WorkspaceMembership × KbMembership)
      → ensure_kb_read_access db p k ≡ ok r
      → MayReadKb db p k
  unfolding ensure_kb_read_access
  read_kb_sound k r h = elim (Result-cases (find_kb db p k)) [
    | inr (x, e) ↦ cc (rw e at h)
    | inl (kb, e) ↦ elim (Result-cases (ensure_workspace_read_access db p kb.workspace_id)) [
      | inr (x, e') ↦ cc (rw (e, e') at h)
      | inl (w, e') ↦ elim (kb_membership_cases kb.id) [
        | inl (e'', n) ↦ cc (rw (e, e', e'') at h)
        | inr (m, e'', pm, n) ↦
            let (found, own, live) = find_kb-ok db p k kb e in
            record {
              kb = kb;
              found = found;
              own = own;
              live = live;
              in_workspace = read_workspace_sound kb.workspace_id w e';
              is_member = n;
            }
      ]
    ]
  ]

  read_kb_complete :
      (k : ℕ)
      → MayReadKb db p k
      → (r : KnowledgeBase × WorkspaceMembership × KbMembership) × (ensure_kb_read_access db p k
          ≡ ok r)
  unfolding ensure_kb_read_access
  read_kb_complete k may = elim (kb_membership_cases may.kb.id) [
    | inl (e, n) ↦ cc (may.is_member, n)
    | inr (m, e, pm, n) ↦
        let (w, e') = read_workspace_complete may.kb.workspace_id may.in_workspace in
        let f = find_kb-found db p k may.kb may.found may.own may.live in
        ((may.kb, w.1, m), rw (f, e', e) refl)
  ]

-- With unique memberships, the read check of a knowledge base passes exactly when the knowledge base and its
-- workspace exist, are the tenant's and are not archived, and the user is an active member of both.
pub read_kb_iff :
    (db : AccessTables) (u : UniqueMembers db) (p : Principal) (k : ℕ)
    → ((r : KnowledgeBase × WorkspaceMembership × KbMembership) × (ensure_kb_read_access db p k
          ≡ ok r))
      ↔ MayReadKb db p k
read_kb_iff db u p k = (λ x. read_kb_sound db u p k x.0 x.1, read_kb_complete db u p k)
