-- ===== src/Access/Tests.antt =====
-- The access checks over a tenant with two workspaces, one of them archived.
use tkp_platform.Base.{
  ℕ, ◌≡◌, ◌↔◌, refl, inr, false, ◌&&◌, none, some, [], ◌∷◌, ◌==◌, any, contains, map,
}
use tkp_platform.Base.Result.{ok}
use tkp_platform.Base.Text.{codes}
use tkp_platform.Worker.Rows.{SourceType, Document, DocumentStatus}
use tkp_platform.Access.Rows.{
  MembershipStatus, WorkspaceStatus, WorkspaceRole, WorkspaceMembership, Workspace, KbStatus,
  KbRole, KnowledgeBase, KbMembership, AccessTables,
}
use tkp_platform.Access.Checks.{
  Principal, kb_is_archived, doc_is_deleted, kb_member, find_kb, ensure_workspace_read_access,
  ensure_kb_read_access, get_workspace_membership, get_kb_membership, ensure_kb_write_access,
  ensure_document_delete_access, ensure_document_write_access, find_document, get_document,
}
use tkp_platform.Access.Batch.{
  is_requested, check_kb_access_batch, filter_readable_kb_ids, readable_workspace_ids,
  member_kb_ids, selected_kb,
}
use tkp_platform.Access.Reading.{UniqueMembers, MayReadKb, read_kb_iff}
use tkp_platform.Access.Granted.{MayWriteKb, write_document_isolated}
use tkp_platform.Access.Ranges.{in_reach, filter_readable_exact, check_batch_exact}

abbrev ws_row : WorkspaceRole → ℕ → ℕ → WorkspaceMembership
ws_row role w u = record {
  tenant_id = 1;
  workspace_id = w;
  user_id = u;
  role = role;
  status = MembershipStatus.active;
}

abbrev open_kb : KnowledgeBase
open_kb = record { id = 21; tenant_id = 1; workspace_id = 11; status = KbStatus.active }

abbrev hidden_kb : KnowledgeBase
hidden_kb = record { id = 22; tenant_id = 1; workspace_id = 12; status = KbStatus.active }

abbrev open_workspace : Workspace
open_workspace = record { id = 11; tenant_id = 1; status = WorkspaceStatus.active }

abbrev member : ℕ → KbMembership
member k = record {
  tenant_id = 1;
  kb_id = k;
  user_id = 5;
  role = KbRole.viewer;
  status = MembershipStatus.active;
}

abbrev report : Document
report = record {
  id = 31;
  tenant_id = 1;
  workspace_id = 11;
  kb_id = 21;
  title = codes "report";
  source_type = SourceType.upload;
  source_uri = none;
  current_version = 1;
  status = DocumentStatus.ready;
  metadata = codes "{}";
  created_by = none;
  created_at = 0;
  updated_at = 0;
}

abbrev tables : AccessTables
tables = record {
  tenant_memberships = [];
  workspaces =
      open_workspace ∷ record { id = 12; tenant_id = 1; status = WorkspaceStatus.archived } ∷ [];
  workspace_memberships =
      ws_row WorkspaceRole.viewer 11 5
      ∷ ws_row WorkspaceRole.viewer 12 5
      ∷ ws_row WorkspaceRole.editor 11 6
      ∷ [];
  knowledge_bases = open_kb ∷ hidden_kb ∷ [];
  kb_memberships = member 21 ∷ member 22 ∷ [];
  documents = report ∷ [];
}

abbrev reader : Principal
reader = record { tenant_id = 1; user_id = 5 }

abbrev editor : Principal
editor = record { tenant_id = 1; user_id = 6 }

tables_unique : UniqueMembers tables
tables_unique = record { ws = (refl, (refl, (refl, tt))); kb = (refl, (refl, tt)) }

read_kb_iff_example :
    ((r : KnowledgeBase × WorkspaceMembership × KbMembership) × (ensure_kb_read_access tables reader
          21
        ≡ ok r))
    ↔ MayReadKb tables reader 21
read_kb_iff_example = read_kb_iff tables tables_unique reader 21

-- The range of a search holds the knowledge base of the archived workspace, which the check of the
-- one knowledge base does not find.
range_holds_archived : filter_readable_kb_ids tables reader none ≡ 21 ∷ 22 ∷ []
unfolding filter_readable_kb_ids readable_workspace_ids member_kb_ids selected_kb
range_holds_archived = refl

filter_readable_exact_example :
    contains 22 (filter_readable_kb_ids tables reader (some (22 ∷ [])))
    ≡ any
        (λ (kb : KnowledgeBase).
          kb.id == 22
          && (in_reach tables reader kb
              && (any (kb_member reader 22) tables.kb_memberships
                  && is_requested (some (22 ∷ [])) 22)))
        tables.knowledge_bases
filter_readable_exact_example = filter_readable_exact tables reader (some (22 ∷ [])) 22

check_batch_exact_example :
    check_kb_access_batch tables editor (21 ∷ 22 ∷ [])
    ≡ map
        (λ k. (
          k,
          any
              (λ (kb : KnowledgeBase). kb.id == k && in_reach tables editor kb)
              tables.knowledge_bases,
        ))
        (21 ∷ 22 ∷ [])
check_batch_exact_example = check_batch_exact tables editor (21 ∷ 22 ∷ [])

finds_open : find_kb tables editor 21 ≡ ok open_kb
unfolding find_kb
finds_open = refl

editor_reads :
    ensure_workspace_read_access tables editor 11
    ≡ ok (open_workspace, ws_row WorkspaceRole.editor 11 6)
unfolding ensure_workspace_read_access get_workspace_membership
editor_reads = refl

editor_deletes : ensure_document_delete_access tables editor 31 ≡ ok (report, open_kb)
unfolding ensure_document_delete_access ensure_document_write_access ensure_kb_write_access
    find_document find_kb ensure_workspace_read_access get_workspace_membership get_kb_membership
editor_deletes = refl

write_document_isolated_example :
    (get_document tables editor 31 ≡ some report)
    × (report.id ≡ 31)
    × (report.tenant_id ≡ editor.tenant_id)
    × (doc_is_deleted report.status ≡ false)
    × (open_kb.tenant_id ≡ editor.tenant_id)
    × (kb_is_archived open_kb.status ≡ false)
    × MayWriteKb tables editor report.kb_id open_kb
write_document_isolated_example =
    write_document_isolated tables editor 31 (report, open_kb) (inr editor_deletes)
