-- ===== src/Access/Checks.antt =====
-- services/api/src/tkp_api/services/authorization.py. A check returns what it has found, or the
-- exception that it raises.
use tkp_platform.Base.{
  ℕ, Bool, true, false, not, ◌&&◌, ◌||◌, Option, none, some, List, [], ◌∷◌, ◌==◌, filter, find,
}
use tkp_platform.Base.Result.{Result, ok, err, ◌>>=◌, ◌>>◌, raise_if, or_raise}
use tkp_platform.Worker.Rows.{Document, DocumentStatus}
use tkp_platform.Access.Rows.{
  MembershipStatus, WorkspaceStatus, WorkspaceRole, WorkspaceMembership, Workspace, KbStatus,
  KbRole, KnowledgeBase, KbMembership, AccessTables,
}

-- Who asks: the tenant and the user of the request.
pub record Principal : Type 0 where
  pub tenant_id : ℕ
  pub user_id : ℕ

pub data Resource : Type 0 where
  workspace knowledge_base document : Resource

-- ResourceNotFoundException, PermissionDeniedException, and SQLAlchemy's MultipleResultsFound.
pub data AccessError : Type 0 where
  not_found : Resource → ℕ → AccessError
  read_denied write_denied : Resource → AccessError
  multiple_results : AccessError

-- `.scalar_one_or_none()`
unfoldable pub scalar_one_or_none {ℓ} : {A : Type ℓ} → List A → Result AccessError (Option A)
scalar_one_or_none [] = ok none
scalar_one_or_none (a ∷ []) = ok (some a)
scalar_one_or_none (a ∷ b ∷ rest) = err multiple_results

abbrev pub is_active : MembershipStatus → Bool
is_active MembershipStatus.active = true
is_active _ = false

abbrev pub ws_is_archived : WorkspaceStatus → Bool
ws_is_archived WorkspaceStatus.archived = true
ws_is_archived _ = false

abbrev pub kb_is_archived : KbStatus → Bool
kb_is_archived KbStatus.archived = true
kb_is_archived _ = false

abbrev pub doc_is_deleted : DocumentStatus → Bool
doc_is_deleted DocumentStatus.deleted = true
doc_is_deleted _ = false

-- `in WORKSPACE_WRITE_ROLES`, `in KB_WRITE_ROLES`
abbrev pub ws_may_write : WorkspaceRole → Bool
ws_may_write WorkspaceRole.viewer = false
ws_may_write _ = true

abbrev pub kb_may_write : KbRole → Bool
kb_may_write KbRole.viewer = false
kb_may_write _ = true

-- The WHERE clauses of the two membership queries.
abbrev pub ws_member : Principal → ℕ → WorkspaceMembership → Bool
ws_member p w m =
    m.tenant_id == p.tenant_id
    && (m.workspace_id == w && (m.user_id == p.user_id && is_active m.status))

abbrev pub kb_member : Principal → ℕ → KbMembership → Bool
kb_member p k m =
    m.tenant_id == p.tenant_id && (m.kb_id == k && (m.user_id == p.user_id && is_active m.status))

module _ (db : AccessTables) (p : Principal) where
  unfoldable pub get_workspace_membership : ℕ → Result AccessError (Option WorkspaceMembership)
  unfolding scalar_one_or_none
  get_workspace_membership w = scalar_one_or_none (filter (ws_member p w) db.workspace_memberships)

  unfoldable pub get_kb_membership : ℕ → Result AccessError (Option KbMembership)
  unfolding scalar_one_or_none
  get_kb_membership k = scalar_one_or_none (filter (kb_member p k) db.kb_memberships)

  -- db.get(Workspace, id)
  abbrev pub get_workspace : ℕ → Option Workspace
  get_workspace w = find (λ (x : Workspace). x.id == w) db.workspaces

  abbrev pub get_kb : ℕ → Option KnowledgeBase
  get_kb k = find (λ (x : KnowledgeBase). x.id == k) db.knowledge_bases

  abbrev pub get_document : ℕ → Option Document
  get_document d = find (λ (x : Document). x.id == d) db.documents

  unfoldable pub ensure_workspace_read_access :
      ℕ → Result AccessError (Workspace × WorkspaceMembership)
  ensure_workspace_read_access w = do
    ws ← or_raise (get_workspace w) (not_found workspace w)
    raise_if (not (ws.tenant_id == p.tenant_id)) (not_found workspace w)
    raise_if (ws_is_archived ws.status) (not_found workspace w)
    found ← get_workspace_membership w
    m ← or_raise found (read_denied workspace)
    ok (ws, m)

  unfoldable pub ensure_workspace_write_access :
      ℕ → Result AccessError (Workspace × WorkspaceMembership)
  ensure_workspace_write_access w = do
    (ws, m) ← ensure_workspace_read_access w
    raise_if (not (ws_may_write m.role)) (write_denied workspace)
    ok (ws, m)

  -- What both checks of a knowledge base begin with.
  unfoldable pub find_kb : ℕ → Result AccessError KnowledgeBase
  find_kb k = do
    kb ← or_raise (get_kb k) (not_found knowledge_base k)
    raise_if (not (kb.tenant_id == p.tenant_id)) (not_found knowledge_base k)
    raise_if (kb_is_archived kb.status) (not_found knowledge_base k)
    ok kb

  unfoldable pub ensure_kb_read_access :
      ℕ → Result AccessError (KnowledgeBase × WorkspaceMembership × KbMembership)
  ensure_kb_read_access k = do
    kb ← find_kb k
    (ws, wm) ← ensure_workspace_read_access kb.workspace_id
    found ← get_kb_membership kb.id
    km ← or_raise found (read_denied knowledge_base)
    ok (kb, wm, km)

  abbrev pub kb_role_writes : Option KbMembership → Bool
  kb_role_writes none = false
  kb_role_writes (some m) = kb_may_write m.role

  unfoldable pub ensure_kb_write_access :
      ℕ → Result AccessError (KnowledgeBase × WorkspaceMembership × Option KbMembership)
  ensure_kb_write_access k = do
    kb ← find_kb k
    (ws, wm) ← ensure_workspace_read_access kb.workspace_id
    found ← get_kb_membership kb.id
    raise_if (not (ws_may_write wm.role || kb_role_writes found)) (write_denied knowledge_base)
    ok (kb, wm, found)

  unfoldable pub find_document : ℕ → Result AccessError Document
  find_document d = do
    doc ← or_raise (get_document d) (not_found document d)
    raise_if (not (doc.tenant_id == p.tenant_id)) (not_found document d)
    raise_if (doc_is_deleted doc.status) (not_found document d)
    ok doc

  unfoldable pub ensure_document_read_access : ℕ → Result AccessError (Document × KnowledgeBase)
  ensure_document_read_access d = do
    doc ← find_document d
    (kb, wm, km) ← ensure_kb_read_access doc.kb_id
    ok (doc, kb)

  unfoldable pub ensure_document_write_access : ℕ → Result AccessError (Document × KnowledgeBase)
  ensure_document_write_access d = do
    doc ← find_document d
    (kb, wm, km) ← ensure_kb_write_access doc.kb_id
    ok (doc, kb)

  unfoldable pub ensure_document_delete_access : ℕ → Result AccessError (Document × KnowledgeBase)
  ensure_document_delete_access d = ensure_document_write_access d
