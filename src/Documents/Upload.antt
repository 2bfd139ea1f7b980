-- ===== src/Documents/Upload.antt =====
-- `validate_upload_file` and `upload_document` of services/api/src/tkp_api/api/documents.py. The JSON parser
-- and the hash of the content are parameters; the ids of new rows and the time are arguments.
use tkp_platform.Base.{
  ℕ, ◌+◌, ◌*◌, Bool, true, false, not, ◌&&◌, Option, none, some, List, [], ◌∷◌, ◌++◌, ◌==◌, ltb,
  filter, length, update_where,
}
use tkp_platform.Base.Result.{Result, ok, err, ◌>>=◌, ◌>>◌, raise_if, map_err}
use tkp_platform.Base.Text.{Text, codes, text_eq, strip}
use tkp_platform.Chunker.Split.{is_empty}
use tkp_platform.Worker.Rows.{
  SourceType, DocumentStatus, ParseStatus, Document, DocumentVersion, IngestionJob, Database,
}
use tkp_platform.Worker.Enqueue.{JobRequest, enqueue_ingestion_job}
use tkp_platform.Access.Rows.{KnowledgeBase}
use tkp_platform.Access.Checks.{doc_is_deleted, scalar_one_or_none}
use tkp_platform.Quota.Policies.{QuotaError}
use tkp_platform.Quota.Rows.{Metric, QuotaDb}
use tkp_platform.Quota.Enforce.{enforce_quota}
use tkp_platform.Documents.Storage.{Storage, infer_parser_type, persist_upload}
use tkp_platform.Documents.State.{
  Context, ApiDb, ApiError, access, quota, invalid_metadata, empty_filename, empty_content,
  too_large, storage, writable_kb, quota_of, with_store,
}

abbrev pub max_upload_bytes : ℕ
max_upload_bytes = 50 * 1024 * 1024

-- `file.filename or ""`
abbrev pub filename_or : Text → Option Text → Text
filename_or default none = default
filename_or default (some []) = default
filename_or default (some (c ∷ t)) = c ∷ t

unfoldable pub validate_upload_file : Option Text → Text → Result ApiError (Unit {0})
validate_upload_file filename content = do
  raise_if (is_empty (strip (filename_or [] filename))) empty_filename
  raise_if (is_empty content) empty_content
  raise_if (ltb max_upload_bytes (length content)) (too_large (length content))

pub record UploadRequest : Type 0 where
  pub kb_id : ℕ
  pub filename : Option Text
  pub content : Text
  pub metadata : Option Text
  pub idempotency_key : Option Text

-- The ids that the database gives to the new rows, if they are added, and the time.
pub record NewRows : Type 0 where
  pub document : ℕ
  pub version : ℕ
  pub job : ℕ
  pub now : ℕ

pub record UploadReply : Type 0 where
  pub document : Document
  pub version : DocumentVersion
  pub job : IngestionJob

pub record Services : Type 0 where
  pub files : Storage
  pub sha256 : Text → Text
  pub parse_json : Text → Option Text
  pub max_attempts : ℕ

abbrev pub is_upload : SourceType → Bool
is_upload SourceType.upload = true
is_upload _ = false

abbrev pub is_uri : Text → Option Text → Bool
is_uri uri none = false
is_uri uri (some u) = text_eq u uri

-- `if metadata: ... json.loads(metadata)`
abbrev pub parsed : Option Text → Result ApiError Text
parsed none = err invalid_metadata
parsed (some value) = ok value

abbrev pub metadata_of : Services → Option Text → Result ApiError Text
metadata_of s none = ok (codes "{}")
metadata_of s (some []) = ok (codes "{}")
metadata_of s (some (c ∷ t)) = parsed (s.parse_json (c ∷ t))

module _ (s : Services) (ctx : Context) (ids : NewRows) (q : UploadRequest) where
  abbrev pub source_uri : Text
  source_uri = filename_or (codes "upload.bin") q.filename

  -- The WHERE clause of the search for the document that the file is a new version of.
  unfoldable pub same_source : KnowledgeBase → Document → Bool
  same_source kb d =
      d.tenant_id == ctx.tenant_id
      && (d.workspace_id == kb.workspace_id
          && (d.kb_id == q.kb_id
              && (is_upload d.source_type
                  && (is_uri source_uri d.source_uri && not (doc_is_deleted d.status)))))

  unfoldable pub next_version : Text → Document → Document
  next_version metadata d = record d {
    current_version = d.current_version + 1;
    title = source_uri;
    status = DocumentStatus.pending;
    metadata = metadata;
    updated_at = ids.now;
  }

  unfoldable pub first_version : KnowledgeBase → Text → Document
  first_version kb metadata = record {
    id = ids.document;
    tenant_id = ctx.tenant_id;
    workspace_id = kb.workspace_id;
    kb_id = q.kb_id;
    title = source_uri;
    source_type = SourceType.upload;
    source_uri = some source_uri;
    current_version = 1;
    status = DocumentStatus.pending;
    metadata = metadata;
    created_by = some ctx.user_id;
    created_at = ids.now;
    updated_at = ids.now;
  }

  -- The row with the new version number, and the table with it.
  abbrev pub put_document :
      KnowledgeBase → Text → Option Document → List Document → Document × List Document
  put_document kb metadata none ds =
      (first_version kb metadata, ds ++ first_version kb metadata ∷ [])
  put_document kb metadata (some d) ds = (
    next_version metadata d,
    update_where (λ (x : Document). x.id == d.id) (λ x. next_version metadata d) ds,
  )

  unfoldable pub new_version : Document → Text → DocumentVersion
  new_version d key = record {
    id = ids.version;
    tenant_id = ctx.tenant_id;
    document_id = d.id;
    version = d.current_version;
    object_key = some key;
    parser_type = some (infer_parser_type source_uri);
    parse_status = ParseStatus.pending;
    checksum = some (s.sha256 q.content);
  }

  unfoldable pub job_request : KnowledgeBase → Document → JobRequest
  job_request kb d = record {
    tenant_id = ctx.tenant_id;
    workspace_id = kb.workspace_id;
    kb_id = q.kb_id;
    document_id = d.id;
    document_version_id = ids.version;
    action = codes "upload";
    client_idempotency_key = q.idempotency_key;
  }

  abbrev pub enqueued : KnowledgeBase → Document → Database → IngestionJob × Database
  enqueued kb d =
      enqueue_ingestion_job s.files.show_uuid s.sha256 ids.job ids.now s.max_attempts
        (job_request kb d)

  abbrev pub reply_with :
      Document → DocumentVersion → IngestionJob × Database → UploadReply × Database
  reply_with d v r = (record { document = d; version = v; job = r.0 }, r.1)

  -- The body of the `try`, once the document has its number.
  unfoldable pub store_version :
      KnowledgeBase → Document × List Document → Database → Result ApiError (UploadReply × Database)
  store_version kb (d, ds) db = do
    key ←
        map_err storage
          (persist_upload s.files ctx.tenant_id q.kb_id d.id d.current_version source_uri q.content)
    let v = new_version d key
    ok (
        reply_with d v
          (enqueued kb d (record db { documents = ds; versions = db.versions ++ v ∷ [] })))

  unfoldable pub store_upload :
      KnowledgeBase → Text → Database → Result ApiError (UploadReply × Database)
  store_upload kb metadata db = do
    found ← map_err access (scalar_one_or_none (filter (same_source kb) db.documents))
    store_version kb (put_document kb metadata found db.documents) db

  -- What is checked of the file, after the quota.
  unfoldable pub checked_metadata : Result ApiError Text
  checked_metadata = do
    metadata ← metadata_of s q.metadata
    validate_upload_file q.filename q.content
    ok metadata

  -- `except Exception: db.rollback(); raise`
  abbrev pub committed :
      ApiDb → Result ApiError (UploadReply × Database) → Result ApiError UploadReply × ApiDb
  committed db (err e) = (err e, db)
  committed db (ok (reply, store)) = (ok reply, with_store db store)

  abbrev pub after_checks :
      KnowledgeBase → ApiDb → Result ApiError Text → Result ApiError UploadReply × ApiDb
  after_checks kb db (err e) = (err e, db)
  after_checks kb db (ok metadata) = committed db (store_upload kb metadata db.store)

  -- The alert of an exceeded quota has been committed.
  abbrev pub after_quota :
      KnowledgeBase
      → ApiDb
      → QuotaDb × Result QuotaError (Unit {0})
      → Result ApiError UploadReply × ApiDb
  after_quota kb db (charged, err e) =
      (err (quota e), record db { quota = record db.quota { alerts = charged.alerts } })
  after_quota kb db (charged, ok u) = after_checks kb db checked_metadata

  abbrev pub after_access :
      ApiDb → Result ApiError KnowledgeBase → Result ApiError UploadReply × ApiDb
  after_access db (err e) = (err e, db)
  after_access db (ok kb) = after_quota kb db (
      enforce_quota ids.now ctx.tenant_id Metric.document_uploads 1 (quota_of db)
        (some kb.workspace_id))

  unfoldable pub upload_document : ApiDb → Result ApiError UploadReply × ApiDb
  upload_document db = after_access db (writable_kb ctx db q.kb_id)
