-- ===== src/Documents/Tests.antt =====
-- An upload, a new version, a second indexing and a deletion
-- (services/api/src/tkp_api/api/documents.py).
use tkp_platform.Base.{◌≡◌, refl, none, some, [], ◌∷◌}
use tkp_platform.Base.Decimal.{decimal, decimal_digits}
use tkp_platform.Base.Result.{ok}
use tkp_platform.Base.Text.{Text, codes, lower, strip}
use tkp_platform.Access.Rows.{
  TenantRole, MembershipStatus, WorkspaceStatus, WorkspaceRole, KbStatus, KbRole, AccessTables,
}
use tkp_platform.Access.Checks.{
  scalar_one_or_none, get_workspace_membership, get_kb_membership, find_kb,
  ensure_workspace_read_access, ensure_kb_write_access,
}
use tkp_platform.Permissions.Sets.{insert, sorted_set}
use tkp_platform.Permissions.Actions.{
  RolePermission, load_role_permissions, configured_actions, list_tenant_actions,
  require_tenant_action, normalize_permission_code, normalize_stripped,
}
use tkp_platform.Quota.Rows.{Metric}
use tkp_platform.Quota.Enforce.{enforce_quota, check_scopes, check_scope, check_policy}
use tkp_platform.Quota.Policies.{validate_metric_scope}
use tkp_platform.Worker.Rows.{
  SourceType, DocumentStatus, ParseStatus, JobStatus, Stage, IngestionJob, Document,
  DocumentVersion,
}
use tkp_platform.Worker.Enqueue.{build_job_idempotency_key, new_job, enqueue_ingestion_job}
use tkp_platform.Documents.Storage.{
  split_on, path_name, from_last_dot, infer_parser_type, sanitize_prefix, build_object_key,
  persist_upload,
}
use tkp_platform.Documents.State.{
  Context, ApiDb, document_read, document_write, document_delete, quota_of, check_action,
  writable_kb,
}
use tkp_platform.Documents.Upload.{
  Services, NewRows, UploadRequest, same_source, first_version, new_version, job_request,
  store_version, store_upload, checked_metadata, validate_upload_file, upload_document,
}

abbrev grant : Text → RolePermission
grant code = record { tenant_id = 1; role = TenantRole.member; permission_code = code }

abbrev tables : AccessTables
tables = record {
  tenant_memberships = [];
  workspaces = record { id = 11; tenant_id = 1; status = WorkspaceStatus.active } ∷ [];
  workspace_memberships =
      record {
        tenant_id = 1;
        workspace_id = 11;
        user_id = 5;
        role = WorkspaceRole.editor;
        status = MembershipStatus.active;
      }
      ∷ [];
  knowledge_bases =
      record { id = 21; tenant_id = 1; workspace_id = 11; status = KbStatus.active } ∷ [];
  kb_memberships =
      record {
        tenant_id = 1;
        kb_id = 21;
        user_id = 5;
        role = KbRole.viewer;
        status = MembershipStatus.active;
      }
      ∷ [];
  documents = [];
}

abbrev pub empty_db : ApiDb
empty_db = record {
  role_permissions = grant document_read ∷ grant document_write ∷ grant document_delete ∷ [];
  access = tables;
  quota = record {
    policies = [];
    workspaces = [];
    retrieval_logs = [];
    agent_runs = [];
    messages = [];
    documents = [];
    alerts = [];
  };
  store = record { jobs = []; documents = []; versions = []; chunks = []; embeddings = [] };
}

abbrev pub services : Services
services = record {
  files = record {
    show_uuid = decimal;
    key_prefix = some (codes " /kb/ ");
    put_bytes = λ key content. ok tt;
  };
  sha256 = λ t. t;
  parse_json = λ t. some t;
  max_attempts = 3;
}

abbrev pub editor : Context
editor = record { tenant_id = 1; user_id = 5; tenant_role = TenantRole.member }

abbrev pub first_rows : NewRows
first_rows = record { document = 31; version = 41; job = 51; now = 100 }

abbrev pub guide : UploadRequest
guide = record {
  kb_id = 21;
  filename = some (codes "a/guide.MD");
  content = codes "text";
  metadata = none;
  idempotency_key = some (codes "k");
}

abbrev pub guide_row : Document
guide_row = record {
  id = 31;
  tenant_id = 1;
  workspace_id = 11;
  kb_id = 21;
  title = codes "a/guide.MD";
  source_type = SourceType.upload;
  source_uri = some (codes "a/guide.MD");
  current_version = 1;
  status = DocumentStatus.pending;
  metadata = codes "{}";
  created_by = some 5;
  created_at = 100;
  updated_at = 100;
}

abbrev pub guide_version : DocumentVersion
guide_version = record {
  id = 41;
  tenant_id = 1;
  document_id = 31;
  version = 1;
  object_key = some (codes "kb/tenant/1/kb/21/doc/31/v1/guide.MD");
  parser_type = some (codes "markdown");
  parse_status = ParseStatus.pending;
  checksum = some (codes "text");
}

abbrev pub guide_job : IngestionJob
guide_job = record {
  id = 51;
  tenant_id = 1;
  workspace_id = 11;
  kb_id = 21;
  document_id = 31;
  document_version_id = 41;
  idempotency_key = codes "1:11:21:31:41:upload:k";
  status = JobStatus.queued;
  stage = Stage.queued;
  progress = 0;
  attempt_count = 0;
  max_attempts = 3;
  next_run_at = 100;
  locked_at = none;
  locked_by = none;
  heartbeat_at = none;
  started_at = none;
  finished_at = none;
  error = none;
  created_at = 100;
  updated_at = 100;
}

abbrev pub guide_db : ApiDb
guide_db = record empty_db {
  store = record {
    jobs = guide_job ∷ [];
    documents = guide_row ∷ [];
    versions = guide_version ∷ [];
    chunks = [];
    embeddings = [];
  };
}

editor_writes :
    writable_kb editor empty_db 21
    ≡ ok (record { id = 21; tenant_id = 1; workspace_id = 11; status = KbStatus.active })
unfolding writable_kb check_action require_tenant_action list_tenant_actions load_role_permissions
    configured_actions normalize_permission_code normalize_stripped strip sorted_set insert
    ensure_kb_write_access find_kb ensure_workspace_read_access get_workspace_membership
    get_kb_membership scalar_one_or_none
editor_writes = refl

room :
    enforce_quota 100 1 Metric.document_uploads 1 (quota_of empty_db) (some 11)
    ≡ (quota_of empty_db, ok tt)
unfolding enforce_quota check_scopes check_scope validate_metric_scope check_policy
room = refl

named : infer_parser_type (codes "a/guide.MD") ≡ codes "markdown"
unfolding infer_parser_type path_name split_on from_last_dot lower
named = refl

dotted :
    (infer_parser_type (codes ".pdf") ≡ codes "generic")
    × (infer_parser_type (codes "x/..pdf/.") ≡ codes "pdf")
    × (infer_parser_type (codes "pdf.") ≡ codes "generic")
unfolding infer_parser_type path_name split_on from_last_dot lower
dotted = (refl, refl, refl)

pub uploads_first :
    upload_document services editor first_rows guide empty_db
    ≡ (ok (record { document = guide_row; version = guide_version; job = guide_job }), guide_db)
unfolding upload_document writable_kb check_action require_tenant_action list_tenant_actions
    load_role_permissions configured_actions normalize_permission_code normalize_stripped strip
    sorted_set insert ensure_kb_write_access find_kb ensure_workspace_read_access
    get_workspace_membership get_kb_membership scalar_one_or_none enforce_quota check_scopes
    check_scope validate_metric_scope check_policy checked_metadata validate_upload_file
    store_upload same_source store_version first_version new_version job_request persist_upload
    build_object_key sanitize_prefix decimal decimal_digits infer_parser_type path_name split_on
    from_last_dot lower enqueue_ingestion_job build_job_idempotency_key new_job
uploads_first = refl
