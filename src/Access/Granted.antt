-- ===== src/Access/Granted.antt =====
-- Who may write to a knowledge base
-- (services/api/src/tkp_api/services/authorization.py).
use tkp_platform.Base.{
  ℕ, ◌≡◌, refl, ap, ◌∙◌, inl, inr, Bool, true, false, ◌&&◌, ◌||◌, Option, none, some, some_inj,
  List, [], ◌∷◌, any, filter, Bool-cases, Option-cases, sym, ◌==◌, ==→eq, ◌⊎◌, arith, subst,
}
use tkp_platform.Base.AnyLaws.{any-and_filter}
use tkp_platform.Base.Result.{ok, ok_inj, Result-cases}
use tkp_platform.Base.TableLaws.{find-passes}
use tkp_platform.Worker.Rows.{Document}
use tkp_platform.Access.Rows.{
  WorkspaceRole, KbRole, WorkspaceMembership, Workspace, KnowledgeBase, KbMembership, AccessTables,
}
use tkp_platform.Access.Checks.{
  Principal, scalar_one_or_none, get_kb, ws_member, kb_member, kb_is_archived, ws_is_archived,
  doc_is_deleted, ws_may_write, get_document, find_document, ensure_document_write_access,
  ensure_document_delete_access, kb_may_write, kb_role_writes, get_workspace,
  get_workspace_membership, get_kb_membership, ensure_workspace_read_access, ensure_kb_write_access,
}
use tkp_platform.Access.Reading.{MayReadWorkspace, find_kb-ok}
use tkp_platform.Access.Writing.{write_kb_sound, find_document-ok}

pub scalar-one {ℓ} :
    {A : Type ℓ} (xs : List A) (a : A) → scalar_one_or_none xs ≡ ok (some a) → xs ≡ a ∷ []
unfolding scalar_one_or_none
scalar-one [] a h = cc
scalar-one (x ∷ []) a h = ap (λ y. y ∷ []) (some_inj (ok_inj h))
scalar-one (x ∷ y ∷ xs) a h = cc

pub any-filter_head {ℓ} :
    {A : Type ℓ} (p : A → Bool) (xs : List A) (a : A) → filter p xs ≡ a ∷ [] → any p xs ≡ true
any-filter_head p [] a h = cc
any-filter_head p (x ∷ xs) a h = elim (Bool-cases (p x)) [
  | inl t ↦ rw t refl
  | inr f ↦ rw f (any-filter_head p xs a (rw f at h))
]

-- The roles that may write.
abbrev pub ws_writer : WorkspaceRole → Bool
ws_writer WorkspaceRole.owner = true
ws_writer WorkspaceRole.editor = true
ws_writer WorkspaceRole.viewer = false

abbrev pub kb_writer : KbRole → Bool
kb_writer KbRole.owner = true
kb_writer KbRole.editor = true
kb_writer KbRole.viewer = false

ws_may_write-ws_writer : (r : WorkspaceRole) → ws_may_write r ≡ ws_writer r
ws_may_write-ws_writer WorkspaceRole.owner = refl
ws_may_write-ws_writer WorkspaceRole.editor = refl
ws_may_write-ws_writer WorkspaceRole.viewer = refl

kb_may_write-kb_writer : (r : KbRole) → kb_may_write r ≡ kb_writer r
kb_may_write-kb_writer KbRole.owner = refl
kb_may_write-kb_writer KbRole.editor = refl
kb_may_write-kb_writer KbRole.viewer = refl

module _ (db : AccessTables) (p : Principal) where
  -- The knowledge base with the id is the tenant's and not archived, the user is an active member of its
  -- workspace, which is the tenant's and not archived either, and is there, or in the knowledge base, a member
  -- with a role that writes.
  pub record MayWriteKb (k : ℕ) (kb : KnowledgeBase) : Type 0 where
    pub found : get_kb db p k ≡ some kb
    pub own : kb.tenant_id ≡ p.tenant_id
    pub live : kb_is_archived kb.status ≡ false
    pub in_workspace : MayReadWorkspace db p kb.workspace_id
    pub writes :
        (any
            (λ (m : WorkspaceMembership). ws_member p kb.workspace_id m && ws_writer m.role)
            db.workspace_memberships
          || any (λ (m : KbMembership). kb_member p kb.id m && kb_writer m.role) db.kb_memberships)
        ≡ true

  -- What a workspace check that passes has found.
  read_workspace-rows :
      (w : ℕ) (ws : Workspace) (m : WorkspaceMembership)
      → ensure_workspace_read_access db p w ≡ ok (ws, m)
      → (get_workspace db p w ≡ some ws)
        × (ws.tenant_id ≡ p.tenant_id)
        × (ws_is_archived ws.status ≡ false)
        × (filter (ws_member p w) db.workspace_memberships ≡ m ∷ [])
  unfolding ensure_workspace_read_access get_workspace_membership
  read_workspace-rows w ws m h = elim (Option-cases (get_workspace db p w)) [
    | inl e ↦ cc (rw e at h)
    | inr (x, e) ↦ elim (Bool-cases (x.tenant_id == p.tenant_id)) [
      | inr f ↦ cc (rw (e, f) at h)
      | inl t ↦ elim (Bool-cases (ws_is_archived x.status)) [
        | inl a ↦ cc (rw (e, t, a) at h)
        | inr a ↦
            elim (Result-cases
              (scalar_one_or_none (filter (ws_member p w) db.workspace_memberships))) [
                | inr (x', r) ↦ cc (rw (e, t, a, r) at h)
                | inl (none, r) ↦ cc (rw (e, t, a, r) at h)
                | inl (some m', r) ↦
                    let same = ok_inj (rw (e, t, a, r) at h) in
                    let row = ap (λ (y : Workspace × WorkspaceMembership). y.0) same in
                    (
                      e ∙ ap some row,
                      ap (λ (y : Workspace). y.tenant_id) (sym row)
                          ∙ ==→eq x.tenant_id p.tenant_id t,
                      ap (λ (y : Workspace). ws_is_archived y.status) (sym row) ∙ a,
                      scalar-one (filter (ws_member p w) db.workspace_memberships) m
                          (r ∙ ap (λ (y : Workspace × WorkspaceMembership). ok (some y.1)) same),
                    )
              ]
      ]
    ]
  ]

  -- The one row of a query says whether there is a row with a role that writes.
  ws_row_writes :
      (w : ℕ) (m : WorkspaceMembership)
      → filter (ws_member p w) db.workspace_memberships ≡ m ∷ []
      → ws_may_write m.role ≡ true
      → any
          (λ (m : WorkspaceMembership). ws_member p w m && ws_writer m.role)
          db.workspace_memberships
        ≡ true
  ws_row_writes w m only may =
      any-and_filter (λ (m : WorkspaceMembership). ws_writer m.role) (ws_member p w)
        db.workspace_memberships
      ∙ rw (only, sym (ws_may_write-ws_writer m.role) ∙ may) refl

  kb_row_writes :
      (k : ℕ) (found : Option KbMembership)
      → get_kb_membership db p k ≡ ok found
      → kb_role_writes db p found ≡ true
      → any (λ (m : KbMembership). kb_member p k m && kb_writer m.role) db.kb_memberships ≡ true
  unfolding get_kb_membership
  kb_row_writes k none h may = cc may
  kb_row_writes k (some m) h may =
      any-and_filter (λ (m : KbMembership). kb_writer m.role) (kb_member p k) db.kb_memberships
      ∙ rw
          (
            scalar-one (filter (kb_member p k) db.kb_memberships) m h,
            sym (kb_may_write-kb_writer m.role) ∙ may,
          )
          refl

  or_split : (a b : Bool) → (a || b) ≡ true → (a ≡ true) ⊎ (b ≡ true)
  or_split true b h = inl refl
  or_split false b h = inr h

  -- A write check that passes has found what is asked for.
  pub write_kb-MayWriteKb :
      (k : ℕ) (r : KnowledgeBase × WorkspaceMembership × Option KbMembership)
      → ensure_kb_write_access db p k ≡ ok r
      → MayWriteKb k r.0
  write_kb-MayWriteKb k (kb, wm, km) h =
      let (found, (ws, reads), member, may) = write_kb_sound db p k (kb, wm, km) h in
      let (there, own, live) = find_kb-ok db p k kb found in
      let (ws_there, ws_own, ws_live, only) = read_workspace-rows kb.workspace_id ws wm reads in
      record {
        found = there;
        own = own;
        live = live;
        in_workspace = record {
          ws = ws;
          found = ws_there;
          own = ws_own;
          live = ws_live;
          is_member =
              any-filter_head (ws_member p kb.workspace_id) db.workspace_memberships wm only;
        };
        writes = elim (or_split (ws_may_write wm.role) (kb_role_writes db p km) may) [
          | inl t ↦ rw (ws_row_writes kb.workspace_id wm only t) refl
          | inr t ↦ let row = kb_row_writes kb.id km member t in ground (arith, row)
        ];
      }

find_document-row :
    (db : AccessTables) (p : Principal) (d : ℕ) (doc : Document)
    → find_document db p d ≡ ok doc
    → get_document db p d ≡ some doc
unfolding find_document
find_document-row db p d doc h = elim (Option-cases (get_document db p d)) [
  | inl e ↦ cc (rw e at h)
  | inr (x, e) ↦ elim (Bool-cases (x.tenant_id == p.tenant_id)) [
    | inr f ↦ cc (rw (e, f) at h)
    | inl t ↦ elim (Bool-cases (doc_is_deleted x.status)) [
      | inl a ↦ cc (rw (e, t, a) at h)
      | inr a ↦ e ∙ ap some (ok_inj (rw (e, t, a) at h))
    ]
  ]
]

write_document-checks :
    (db : AccessTables) (p : Principal) (d : ℕ) (r : Document × KnowledgeBase)
    → ensure_document_write_access db p d ≡ ok r
    → (find_document db p d ≡ ok r.0) × MayWriteKb db p r.0.kb_id r.1
unfolding ensure_document_write_access
write_document-checks db p d r h = elim (Result-cases (find_document db p d)) [
  | inr (x, e) ↦ cc (rw e at h)
  | inl (doc, e) ↦ elim (Result-cases (ensure_kb_write_access db p doc.kb_id)) [
    | inr (x, e') ↦ cc (rw (e, e') at h)
    | inl (w, e') ↦
        let same = ok_inj (rw (e, e') at h) in
        subst
          (λ (x : Document × KnowledgeBase).
            (find_document db p d ≡ ok x.0) × MayWriteKb db p x.0.kb_id x.1)
          same (e, write_kb-MayWriteKb db p doc.kb_id w e')
  ]
]

-- A check whether a document may be changed, or deleted, passes only for the document with the id that is asked
-- for, which is the tenant's and not deleted, and with the knowledge base that it stands in, which is the
-- tenant's and not archived, and which the user may write to.
pub write_document_isolated :
    (db : AccessTables) (p : Principal) (d : ℕ) (r : Document × KnowledgeBase)
    → (ensure_document_write_access db p d ≡ ok r) ⊎ (ensure_document_delete_access db p d ≡ ok r)
    → (get_document db p d ≡ some r.0)
      × (r.0.id ≡ d)
      × (r.0.tenant_id ≡ p.tenant_id)
      × (doc_is_deleted r.0.status ≡ false)
      × (r.1.tenant_id ≡ p.tenant_id)
      × (kb_is_archived r.1.status ≡ false)
      × MayWriteKb db p r.0.kb_id r.1
unfolding ensure_document_delete_access
write_document_isolated db p d r h =
    let (found, may) = write_document-checks db p d r (elim h [ inl e ↦ e | inr e ↦ e ]) in
    let row = find_document-row db p d r.0 found in
    let (own, live) = find_document-ok db p d r.0 found in
    (
      row,
      ==→eq r.0.id d (find-passes (λ (x : Document). x.id == d) db.documents r.0 row),
      own,
      live,
      may.own,
      may.live,
      may,
    )
