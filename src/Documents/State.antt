-- ===== src/Documents/State.antt =====
-- What the requests of services/api/src/tkp_api/api/documents.py read and write, who makes them, and the checks
-- that they begin with. The audit log is left out.
use tkp_platform.Base.{ℕ, List, map}
use tkp_platform.Base.Result.{Result, ok, ◌>>=◌, ◌>>◌, map_err}
use tkp_platform.Base.Text.{Text, codes}
use tkp_platform.Worker.Rows.{Document, Database}
use tkp_platform.Access.Rows.{TenantRole, KnowledgeBase, AccessTables}
use tkp_platform.Access.Checks.{
  Principal, AccessError, ensure_kb_read_access, ensure_kb_write_access,
  ensure_document_read_access,
}
use tkp_platform.Permissions.Actions.{PermissionError, RolePermission, require_tenant_action}
use tkp_platform.Quota.Policies.{QuotaError}
use tkp_platform.Quota.Rows.{Upload, QuotaDb}

-- The context of a request.
pub record Context : Type 0 where
  pub tenant_id : ℕ
  pub user_id : ℕ
  pub tenant_role : TenantRole

-- One database: the documents stand in `store` alone, and `access` and `quota` are seen through the
-- functions below.
pub record ApiDb : Type 0 where
  pub role_permissions : List RolePermission
  pub access : AccessTables
  pub quota : QuotaDb
  pub store : Database

abbrev pub access_of : ApiDb → AccessTables
access_of db = record db.access { documents = db.store.documents }

abbrev pub counted : Document → Upload
counted d = record {
  tenant_id = d.tenant_id;
  workspace_id = d.workspace_id;
  created_at = d.created_at;
}

abbrev pub quota_of : ApiDb → QuotaDb
quota_of db = record db.quota { documents = map counted db.store.documents }

abbrev pub with_store : ApiDb → Database → ApiDb
with_store db store = record db { store = store }

-- The exceptions of the requests, those of the services among them.
pub data ApiError : Type 0 where
  permission : PermissionError → ApiError
  access : AccessError → ApiError
  quota : QuotaError → ApiError
  invalid_metadata empty_filename empty_content : ApiError
  too_large : ℕ → ApiError
  storage : Text → ApiError
  version_missing version_not_found job_not_found : ApiError

abbrev pub principal : Context → Principal
principal ctx = record { tenant_id = ctx.tenant_id; user_id = ctx.user_id }

abbrev pub document_read : Text
document_read = codes "api.document.read"

abbrev pub document_write : Text
document_write = codes "api.document.write"

abbrev pub document_delete : Text
document_delete = codes "api.document.delete"

module _ (ctx : Context) (db : ApiDb) where
  unfoldable pub check_action : Text → Result ApiError (Unit {0})
  check_action action =
      map_err permission
        (require_tenant_action ctx.tenant_id ctx.tenant_role action db.role_permissions)

  -- A knowledge base that the user may write to.
  unfoldable pub writable_kb : ℕ → Result ApiError KnowledgeBase
  writable_kb kb_id = do
    check_action document_write
    (kb, wm, km) ← map_err access (ensure_kb_write_access (access_of db) (principal ctx) kb_id)
    ok kb

  unfoldable pub readable_kb : ℕ → Result ApiError KnowledgeBase
  readable_kb kb_id = do
    check_action document_read
    (kb, wm, km) ← map_err access (ensure_kb_read_access (access_of db) (principal ctx) kb_id)
    ok kb

  unfoldable pub readable_document : ℕ → Result ApiError Document
  readable_document id = do
    check_action document_read
    (doc, kb) ← map_err access (ensure_document_read_access (access_of db) (principal ctx) id)
    ok doc

  -- A document that the user may change: one that is readable, in a writable knowledge base.
  unfoldable pub writable_document : Text → ℕ → Result ApiError (Document × KnowledgeBase)
  writable_document action id = do
    check_action action
    (doc, kb) ← map_err access (ensure_document_read_access (access_of db) (principal ctx) id)
    (w, wm, km) ← map_err access (ensure_kb_write_access (access_of db) (principal ctx) kb.id)
    ok (doc, kb)
