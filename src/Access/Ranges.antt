-- ===== src/Access/Ranges.antt =====
-- What the two checks over many knowledge bases answer, and how that compares with the check of one
-- (services/api/src/tkp_api/services/authorization.py).
use tkp_platform.Base.{
  ℕ, ◌≡◌, refl, sym, ap, ◌∙◌, inl, inr, Bool, true, false, not, ◌&&◌, Option, List, [], ◌∷◌, ◌==◌,
  arith, any, contains, filter, map, Bool-cases, ==→eq, if◌then◌else◌,
}
use tkp_platform.Base.Result.{ok, err}
use tkp_platform.Base.AnyLaws.{
  any_congr, any-false, contains-map-filter, any-and_const, map_congr_on, any-find,
}
use tkp_platform.Access.Rows.{
  Workspace, WorkspaceMembership, KnowledgeBase, KbMembership, AccessTables,
}
use tkp_platform.Access.Checks.{
  Principal, read_denied, knowledge_base, is_active, ws_member, kb_member, kb_is_archived,
  ensure_kb_read_access, find_kb, ensure_workspace_read_access,
}
use tkp_platform.Access.Reading.{UniqueMembers, find_kb-ok, no_kb_membership, read_workspace_sound}
use tkp_platform.Access.Batch.{
  joined_kb, accessible_kb_ids, check_kb_access_batch, readable_workspace_ids, is_requested,
  member_kb_ids, is_nonempty, selected_kb, filter_readable_kb_ids,
}

module _ (db : AccessTables) (p : Principal) where
  -- The knowledge base is of the tenant, not archived, in a workspace of which the user is an
  -- active member. Whether the workspace is archived is not asked.
  abbrev pub in_reach : KnowledgeBase → Bool
  in_reach kb =
      kb.tenant_id == p.tenant_id
      && (not (kb_is_archived kb.status)
          && any (ws_member p kb.workspace_id) db.workspace_memberships)

  readable_workspace :
      (w : ℕ)
      → contains w (readable_workspace_ids db p) ≡ any (ws_member p w) db.workspace_memberships
  unfolding readable_workspace_ids
  readable_workspace w =
      contains-map-filter (λ (m : WorkspaceMembership). m.workspace_id)
        (λ (m : WorkspaceMembership).
          m.tenant_id == p.tenant_id && (m.user_id == p.user_id && is_active m.status))
        w db.workspace_memberships
      ∙ any_congr _ (ws_member p w) db.workspace_memberships (λ m. ground arith)

  member_requested :
      (kb_ids : Option (List ℕ)) (k : ℕ) (m : KbMembership)
      → (m.kb_id == k
          && (m.user_id == p.user_id
              && (m.tenant_id == p.tenant_id
                  && (is_active m.status && is_requested kb_ids m.kb_id))))
        ≡ (kb_member p k m && is_requested kb_ids k)
  member_requested kb_ids k m = elim (Bool-cases (m.kb_id == k)) [
    | inr f ↦ ground arith
    | inl t ↦ let e = ap (is_requested kb_ids) (==→eq m.kb_id k t) in rw e (ground arith)
  ]

  member_kb :
      (kb_ids : Option (List ℕ)) (k : ℕ)
      → contains k (member_kb_ids db p kb_ids)
        ≡ (any (kb_member p k) db.kb_memberships && is_requested kb_ids k)
  unfolding member_kb_ids
  member_kb kb_ids k =
      contains-map-filter (λ (m : KbMembership). m.kb_id) _ k db.kb_memberships
      ∙ any_congr _ _ db.kb_memberships (member_requested kb_ids k)
      ∙ any-and_const (kb_member p k) (is_requested kb_ids k) db.kb_memberships

  -- The two early returns give what the last query would.
  early_returns :
      (ws ks : List ℕ) (k : ℕ)
      → contains k (
          if is_nonempty ws && is_nonempty ks
          then map
              (λ (kb : KnowledgeBase). kb.id)
              (filter (selected_kb db p ws ks) db.knowledge_bases)
          else [])
        ≡ any (λ (kb : KnowledgeBase). kb.id == k && selected_kb db p ws ks kb) db.knowledge_bases
  unfolding selected_kb
  early_returns [] ks k = sym (any-false _ db.knowledge_bases (λ kb. ground arith))
  early_returns (w ∷ ws) [] k = sym (any-false _ db.knowledge_bases (λ kb. ground arith))
  early_returns (w ∷ ws) (x ∷ ks) k =
      contains-map-filter (λ (kb : KnowledgeBase). kb.id) (selected_kb db p (w ∷ ws) (x ∷ ks)) k
        db.knowledge_bases

  selected_exact :
      (kb_ids : Option (List ℕ)) (k : ℕ) (kb : KnowledgeBase)
      → (kb.id == k
          && selected_kb db p (readable_workspace_ids db p) (member_kb_ids db p kb_ids) kb)
        ≡ (kb.id == k
            && (in_reach kb && (any (kb_member p k) db.kb_memberships && is_requested kb_ids k)))
  unfolding selected_kb
  selected_exact kb_ids k kb = elim (Bool-cases (kb.id == k)) [
    | inr f ↦ rw f refl
    | inl t ↦
        let same = ap (λ n. contains n (member_kb_ids db p kb_ids)) (==→eq kb.id k t) in
        rw (same, readable_workspace kb.workspace_id, member_kb kb_ids k) (ground arith)
  ]

  -- An id is in the filtered range exactly when it is requested (with no request, every id is), the
  -- user is an active member of the knowledge base, and a knowledge base of that id is the tenant's,
  -- not archived, and in a workspace of which the user is an active member.
  pub filter_readable_exact :
      (kb_ids : Option (List ℕ)) (k : ℕ)
      → contains k (filter_readable_kb_ids db p kb_ids)
        ≡ any
            (λ (kb : KnowledgeBase).
              kb.id == k
              && (in_reach kb && (any (kb_member p k) db.kb_memberships && is_requested kb_ids k)))
            db.knowledge_bases
  unfolding filter_readable_kb_ids
  filter_readable_exact kb_ids k =
      early_returns (readable_workspace_ids db p) (member_kb_ids db p kb_ids) k
      ∙ any_congr _ _ db.knowledge_bases (selected_exact kb_ids k)

  any-joined :
      (kb : KnowledgeBase) (ms : List WorkspaceMembership)
      → any (joined_kb db p kb) ms ≡ (
          kb.tenant_id == p.tenant_id
          && (not (kb_is_archived kb.status) && any (ws_member p kb.workspace_id) ms))
  unfolding joined_kb
  any-joined kb [] = ground arith
  any-joined kb (m ∷ ms) = rw (any-joined kb ms) (ground arith)

  row_exact :
      (kb_ids : List ℕ) (k : ℕ) (kb : KnowledgeBase)
      → (kb.id == k && (contains kb.id kb_ids && any (joined_kb db p kb) db.workspace_memberships))
        ≡ ((kb.id == k && in_reach kb) && contains k kb_ids)
  row_exact kb_ids k kb = elim (Bool-cases (kb.id == k)) [
    | inr f ↦ rw f refl
    | inl t ↦
        let same = ap (λ n. contains n kb_ids) (==→eq kb.id k t) in
        rw (same, any-joined kb db.workspace_memberships) (ground arith)
  ]

  accessible_exact :
      (kb_ids : List ℕ) (k : ℕ)
      → contains k (accessible_kb_ids db p kb_ids) ≡ (
          any (λ (kb : KnowledgeBase). kb.id == k && in_reach kb) db.knowledge_bases
          && contains k kb_ids)
  unfolding accessible_kb_ids
  accessible_exact kb_ids k =
      contains-map-filter (λ (kb : KnowledgeBase). kb.id) _ k db.knowledge_bases
      ∙ any_congr _ _ db.knowledge_bases (row_exact kb_ids k)
      ∙ any-and_const (λ (kb : KnowledgeBase). kb.id == k && in_reach kb) (contains k kb_ids)
          db.knowledge_bases

  -- The batch check answers, for each requested id in turn, whether the knowledge base is the
  -- tenant's, not archived, and in a workspace of which the user is an active member: neither the
  -- membership of the knowledge base nor the state of the workspace is asked for.
  pub check_batch_exact :
      (kb_ids : List ℕ)
      → check_kb_access_batch db p kb_ids
        ≡ map
            (λ k. (k, any (λ (kb : KnowledgeBase). kb.id == k && in_reach kb) db.knowledge_bases))
            kb_ids
  unfolding check_kb_access_batch
  check_batch_exact kb_ids =
      map_congr_on _ _ kb_ids
        (λ k c. ap (λ b. (k, b)) (accessible_exact kb_ids k ∙ rw c (ground arith)))

-- For a live knowledge base in a workspace that the user may read, of which the user is no member,
-- the batch check answers true and the check of the one knowledge base refuses.
batch_grants_nonmember :
    (db : AccessTables) (u : UniqueMembers db) (p : Principal) (k : ℕ) (kb : KnowledgeBase)
    (r : Workspace × WorkspaceMembership)
    → find_kb db p k ≡ ok kb
    → ensure_workspace_read_access db p kb.workspace_id ≡ ok r
    → any (kb_member p kb.id) db.kb_memberships ≡ false
    → (check_kb_access_batch db p (k ∷ []) ≡ (k, true) ∷ [])
      × (ensure_kb_read_access db p k ≡ err (read_denied knowledge_base))
unfolding ensure_kb_read_access
batch_grants_nonmember db u p k kb r e e' n =
    let (found, own, live) = find_kb-ok db p k kb e in
    let may = read_workspace_sound db u p kb.workspace_id r e' in
    let reach : in_reach db p kb ≡ true = rw (own, live, may.is_member) (ground arith) in
    let yes =
      any-find (λ (x : KnowledgeBase). x.id == k) (in_reach db p) kb db.knowledge_bases found
        reach in
    let e'' = no_kb_membership db p kb.id n in
    (check_batch_exact db p (k ∷ []) ∙ ap (λ b. (k, b) ∷ []) yes, rw (e, e', e'') refl)
