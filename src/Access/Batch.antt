-- ===== src/Access/Batch.antt =====
-- The two checks of services/api/src/tkp_api/services/authorization.py over many knowledge bases.
use tkp_platform.Base.{
  ℕ, Bool, true, false, not, ◌&&◌, Option, none, some, List, [], ◌∷◌, ◌==◌, if◌then◌else◌, any,
  contains, filter, map,
}
use tkp_platform.Access.Rows.{WorkspaceMembership, KnowledgeBase, KbMembership, AccessTables}
use tkp_platform.Access.Checks.{Principal, is_active, kb_is_archived}

-- `if kb_ids:` is false of None and of the empty list.
abbrev pub is_requested : Option (List ℕ) → ℕ → Bool
is_requested none k = true
is_requested (some []) k = true
is_requested (some (a ∷ rest)) k = contains k (a ∷ rest)

abbrev pub is_nonempty {ℓ} : {A : Type ℓ} → List A → Bool
is_nonempty [] = false
is_nonempty (a ∷ rest) = true

module _ (db : AccessTables) (p : Principal) where
  -- A row of the join of the knowledge bases with the workspace memberships.
  unfoldable pub joined_kb : KnowledgeBase → WorkspaceMembership → Bool
  joined_kb kb m =
      m.workspace_id == kb.workspace_id
      && (m.tenant_id == kb.tenant_id
          && (kb.tenant_id == p.tenant_id
              && (not (kb_is_archived kb.status)
                  && (m.user_id == p.user_id && is_active m.status))))

  -- The ids of the rows of the query, some of them possibly twice.
  unfoldable pub accessible_kb_ids : List ℕ → List ℕ
  accessible_kb_ids kb_ids =
      map (λ (kb : KnowledgeBase). kb.id)
        (filter
          (λ (kb : KnowledgeBase).
            contains kb.id kb_ids && any (joined_kb kb) db.workspace_memberships)
          db.knowledge_bases)

  -- The answer for each requested id; an id that is requested twice is answered twice alike. For no
  -- ids the answer is empty, as with the early return.
  unfoldable pub check_kb_access_batch : List ℕ → List (ℕ × Bool)
  check_kb_access_batch kb_ids =
      let accessible = accessible_kb_ids kb_ids in map (λ k. (k, contains k accessible)) kb_ids

  unfoldable pub readable_workspace_ids : List ℕ
  readable_workspace_ids =
      map (λ (m : WorkspaceMembership). m.workspace_id)
        (filter
          (λ (m : WorkspaceMembership).
            m.tenant_id == p.tenant_id && (m.user_id == p.user_id && is_active m.status))
          db.workspace_memberships)

  unfoldable pub member_kb_ids : Option (List ℕ) → List ℕ
  member_kb_ids kb_ids =
      map (λ (m : KbMembership). m.kb_id)
        (filter
          (λ (m : KbMembership).
            m.user_id == p.user_id
            && (m.tenant_id == p.tenant_id && (is_active m.status && is_requested kb_ids m.kb_id)))
          db.kb_memberships)

  unfoldable pub selected_kb : List ℕ → List ℕ → KnowledgeBase → Bool
  selected_kb workspace_ids kb_ids kb =
      kb.tenant_id == p.tenant_id
      && (not (kb_is_archived kb.status)
          && (contains kb.workspace_id workspace_ids && contains kb.id kb_ids))

  -- `KbStatus` has two values, so `== ACTIVE` is `not archived`.
  unfoldable pub filter_readable_kb_ids : Option (List ℕ) → List ℕ
  filter_readable_kb_ids kb_ids =
      let ws = readable_workspace_ids in
      let ks = member_kb_ids kb_ids in
      if is_nonempty ws && is_nonempty ks
      then map (λ (kb : KnowledgeBase). kb.id) (filter (selected_kb ws ks) db.knowledge_bases)
      else []
