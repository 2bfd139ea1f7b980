-- ===== src/Access/Writing.antt =====
-- How the write checks compare with the read checks
-- (services/api/src/tkp_api/services/authorization.py).
use tkp_platform.Base.{
  ℕ, ◌≡◌, refl, sym, ap, ◌∙◌, inl, inr, true, false, ◌||◌, Option, none, ◌==◌, any, subst,
  Bool-cases, Option-cases, ==→eq,
}
use tkp_platform.Base.Result.{ok, err, Result-cases, ok_inj}
use tkp_platform.Worker.Rows.{Document}
use tkp_platform.Access.Rows.{
  WorkspaceMembership, Workspace, KnowledgeBase, KbMembership, AccessTables,
}
use tkp_platform.Access.Reading.{no_kb_membership}
use tkp_platform.Access.Checks.{
  Principal, read_denied, knowledge_base, kb_member, get_document, get_kb_membership,
  doc_is_deleted, ws_may_write, kb_role_writes, ensure_workspace_read_access, find_kb,
  ensure_kb_read_access, ensure_kb_write_access, find_document,
}

module _ (db : AccessTables) (p : Principal) where
  pub find_document-ok :
      (d : ℕ) (doc : Document)
      → find_document db p d ≡ ok doc
      → (doc.tenant_id ≡ p.tenant_id) × (doc_is_deleted doc.status ≡ false)
  unfolding find_document
  find_document-ok d doc h = elim (Option-cases (get_document db p d)) [
    | inl e ↦ cc (rw e at h)
    | inr (x, e) ↦ elim (Bool-cases (x.tenant_id == p.tenant_id)) [
      | inr f ↦ cc (rw (e, f) at h)
      | inl t ↦ elim (Bool-cases (doc_is_deleted x.status)) [
        | inl a ↦ cc (rw (e, t, a) at h)
        | inr a ↦
            let same = ok_inj (rw (e, t, a) at h) in
            (
              ap (λ (y : Document). y.tenant_id) (sym same) ∙ ==→eq x.tenant_id p.tenant_id t,
              ap (λ (y : Document). doc_is_deleted y.status) (sym same) ∙ a,
            )
      ]
    ]
  ]

  -- What a write check that passes has established.
  abbrev pub WriteGrant : ℕ → KnowledgeBase × WorkspaceMembership × Option KbMembership → Type 0
  WriteGrant k r =
      (find_kb db p k ≡ ok r.0)
      × ((ws : Workspace) × (ensure_workspace_read_access db p r.0.workspace_id ≡ ok (ws, r.1)))
      × (get_kb_membership db p r.0.id ≡ ok r.2)
      × ((ws_may_write r.1.role || kb_role_writes db p r.2) ≡ true)

  pub write_kb_sound :
      (k : ℕ) (r : KnowledgeBase × WorkspaceMembership × Option KbMembership)
      → ensure_kb_write_access db p k ≡ ok r
      → WriteGrant k r
  unfolding ensure_kb_write_access
  write_kb_sound k r h = elim (Result-cases (find_kb db p k)) [
    | inr (x, e) ↦ cc (rw e at h)
    | inl (kb, e) ↦ elim (Result-cases (ensure_workspace_read_access db p kb.workspace_id)) [
      | inr (x, e') ↦ cc (rw (e, e') at h)
      | inl ((ws, wm), e') ↦ elim (Result-cases (get_kb_membership db p kb.id)) [
        | inr (x, e'') ↦ cc (rw (e, e', e'') at h)
        | inl (km, e'') ↦ elim (Bool-cases (ws_may_write wm.role || kb_role_writes db p km)) [
          | inr f ↦ cc (rw (e, e', e'', f) at h)
          | inl t ↦ subst (WriteGrant k) (ok_inj (rw (e, e', e'', t) at h)) (e, (ws, e'), e'', t)
        ]
      ]
    ]
  ]

-- The write check lets a workspace owner or editor through who has no membership of the knowledge
-- base, and the read check of the same knowledge base then refuses that user.
write_without_read :
    (db : AccessTables) (p : Principal) (k : ℕ) (kb : KnowledgeBase) (ws : Workspace)
    (wm : WorkspaceMembership)
    → find_kb db p k ≡ ok kb
    → ensure_workspace_read_access db p kb.workspace_id ≡ ok (ws, wm)
    → ws_may_write wm.role ≡ true
    → any (kb_member p kb.id) db.kb_memberships ≡ false
    → (ensure_kb_write_access db p k ≡ ok (kb, wm, none))
      × (ensure_kb_read_access db p k ≡ err (read_denied knowledge_base))
unfolding ensure_kb_write_access ensure_kb_read_access
write_without_read db p k kb ws wm e e' w n =
    let e'' = no_kb_membership db p kb.id n in (rw (e, e', e'', w) refl, rw (e, e', e'') refl)
