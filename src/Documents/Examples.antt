-- ===== src/Documents/Examples.antt =====
-- The second version of a document, its indexing, deletion and chunks
-- (services/api/src/tkp_api/api/documents.py).
use tkp_platform.Base.{
  ℕ, ◌≡◌, ◌≢◌, ◌≤◌, ◌*◌, ◌⊎◌, Bool, refl, true, false, none, some, [], ◌∷◌, arith, All, length,
  filter,
}
use tkp_platform.Base.Decimal.{decimal, decimal_digits}
use tkp_platform.Base.DecimalLaws.{decimal_inj, decimal-slash}
use tkp_platform.Base.Result.{ok, err}
use tkp_platform.Base.Text.{codes, lower, strip}
use tkp_platform.Access.Rows.{KnowledgeBase}
use tkp_platform.Access.Checks.{
  Principal, not_found, document, scalar_one_or_none, get_workspace_membership, get_kb_membership,
  find_kb, find_document, ensure_workspace_read_access, ensure_kb_read_access,
  ensure_kb_write_access, ensure_document_read_access,
}
use tkp_platform.Permissions.Sets.{insert, sorted_set}
use tkp_platform.Permissions.Actions.{
  load_role_permissions, configured_actions, list_tenant_actions, require_tenant_action,
  normalize_permission_code, normalize_stripped,
}
use tkp_platform.Quota.Rows.{Metric}
use tkp_platform.Quota.Enforce.{enforce_quota, check_scopes, check_scope, check_policy}
use tkp_platform.Quota.Policies.{validate_metric_scope}
use tkp_platform.Quota.Limits.{HasRoom}
use tkp_platform.Worker.Rows.{
  DocumentStatus, JobStatus, IngestionJob, Document, DocumentVersion, DocumentChunk, Database,
}
use tkp_platform.Worker.Embeddings.{NoOrphans}
use tkp_platform.Worker.Claim.{claim_next_job}
use tkp_platform.Worker.Enqueue.{build_job_idempotency_key, new_job, enqueue_ingestion_job}
use tkp_platform.Worker.Operator.{Operator, find_job, retry_ingestion_job}
use tkp_platform.Documents.Storage.{
  split_on, path_name, from_last_dot, infer_parser_type, sanitize_prefix, build_object_key,
  persist_upload,
}
use tkp_platform.Documents.State.{
  ApiDb, ApiError, access_of, quota_of, check_action, writable_kb, writable_document,
}
use tkp_platform.Documents.Upload.{
  NewRows, UploadReply, same_source, next_version, new_version, store_version, store_upload,
  checked_metadata, validate_upload_file, job_request, upload_document,
}
use tkp_platform.Documents.Change.{
  reindex_request, reindex_document, deleted_row, erase, delete_document,
}
use tkp_platform.Documents.Read.{page_of, of_version}
use tkp_platform.Documents.Jobs.{serialize_ingestion_job}
use tkp_platform.Documents.Numbered.{IsNumbered, IsFresh}
use tkp_platform.Documents.Keys.{IsUuidText}
use tkp_platform.Documents.Effects.{IsSound}
use tkp_platform.Documents.Steps.{uploads, here, then, requests-IsSound}
use tkp_platform.Documents.Uploaded.{OnlyAlerts}
use tkp_platform.Documents.Written.{Stored}
use tkp_platform.Documents.Uploads.{
  Keyed, upload_all_or_nothing, upload_overwrites_nothing, upload_then_claim,
}
use tkp_platform.Documents.Guards.{MayWrite, IsAccepted, upload_guarded}
use tkp_platform.Documents.Deleted.{IsGone, deleted_document-IsGone}
use tkp_platform.Documents.JobKeys.{IsRow}
use tkp_platform.Documents.Reindexed.{IsReindexJob, later_jobs, reindex_once}
use tkp_platform.Documents.Pages.{IsSorted, pages, pages_cover_version}
use tkp_platform.Documents.JobViews.{WaitsShown, retryable_job_retried}
use tkp_platform.Documents.Tests.{
  services, editor, guide, guide_row, guide_version, guide_job, guide_db, empty_db, first_rows,
  uploads_first,
}

abbrev second_rows : NewRows
second_rows = record { document = 32; version = 42; job = 52; now = 200 }

abbrev second_row : Document
second_row = record guide_row { current_version = 2; updated_at = 200 }

abbrev second_version : DocumentVersion
second_version = record guide_version {
  id = 42;
  version = 2;
  object_key = some (codes "kb/tenant/1/kb/21/doc/31/v2/guide.MD");
}

abbrev second_job : IngestionJob
second_job = record guide_job {
  id = 52;
  document_version_id = 42;
  idempotency_key = codes "1:11:21:31:42:upload:k";
  next_run_at = 200;
  created_at = 200;
  updated_at = 200;
}

abbrev second_reply : UploadReply
second_reply = record { document = second_row; version = second_version; job = second_job }

abbrev second_db : ApiDb
second_db = record guide_db {
  store = record {
    jobs = guide_job ∷ second_job ∷ [];
    documents = second_row ∷ [];
    versions = guide_version ∷ second_version ∷ [];
    chunks = [];
    embeddings = [];
  };
}

-- The same upload again, with the same idempotency key, is a second version with a second job.
uploads_again :
    upload_document services editor second_rows guide guide_db ≡ (ok second_reply, second_db)
unfolding upload_document writable_kb check_action require_tenant_action list_tenant_actions
    load_role_permissions configured_actions normalize_permission_code normalize_stripped strip
    sorted_set insert ensure_kb_write_access find_kb ensure_workspace_read_access
    get_workspace_membership get_kb_membership scalar_one_or_none enforce_quota check_scopes
    check_scope validate_metric_scope check_policy checked_metadata validate_upload_file
    store_upload same_source store_version next_version new_version job_request persist_upload
    build_object_key sanitize_prefix decimal decimal_digits infer_parser_type path_name split_on
    from_last_dot lower enqueue_ingestion_job build_job_idempotency_key new_job
uploads_again = refl

fresh : IsFresh 32 guide_db.store
fresh = ((λ e. omega (arith, e), tt), (λ e. omega (arith, e), tt))

numbered : IsNumbered guide_db.store
numbered = record { reached = ((λ e. omega arith, tt), tt); distinct = (refl, tt) }

sound : IsSound guide_db.store
unfolding NoOrphans
sound = (numbered, tt)

uuid : IsUuidText decimal
uuid = record { inj = decimal_inj; slash = decimal-slash }

keyed : All (Keyed services.files) guide_db.store.versions
unfolding build_object_key sanitize_prefix strip decimal decimal_digits path_name split_on
keyed = ((21, codes "guide.MD", refl), tt)

requests-IsSound_example :
    IsSound (upload_document services editor second_rows guide guide_db).1.store
requests-IsSound_example =
    requests-IsSound (then (uploads services editor second_rows guide fresh) here) sound

upload_all_or_nothing_example :
    let r = upload_document services editor second_rows guide guide_db in
    ((reply : UploadReply) × (r.0 ≡ ok reply)
      × Stored services editor second_rows guide guide_db.store reply r.1.store)
    ⊎ ((e : ApiError) × (r.0 ≡ err e) × OnlyAlerts services editor second_rows guide guide_db e r.1)
upload_all_or_nothing_example =
    upload_all_or_nothing services editor second_rows guide guide_db fresh

replies_again : (upload_document services editor second_rows guide guide_db).0 ≡ ok second_reply
replies_again = rw uploads_again refl

upload_overwrites_nothing_example :
    All
      (λ (v : DocumentVersion). v.object_key ≢ second_reply.version.object_key)
      guide_db.store.versions
    × All
        (Keyed services.files)
        (upload_document services editor second_rows guide guide_db).1.store.versions
    × IsNumbered (upload_document services editor second_rows guide guide_db).1.store
upload_overwrites_nothing_example =
    upload_overwrites_nothing services editor second_rows guide guide_db second_reply uuid fresh
      numbered keyed replies_again

replies_first :
    (upload_document services editor first_rows guide empty_db).0
    ≡ ok (record { document = guide_row; version = guide_version; job = guide_job })
replies_first = rw uploads_first refl

upload_then_claim_example :
    (claim_next_job
      (λ _. false)
      160
      (codes "w")
      300
      (upload_document services editor first_rows guide empty_db).1.store).0
    ≢ none
upload_then_claim_example =
    upload_then_claim services editor first_rows guide empty_db
      (record { document = guide_row; version = guide_version; job = guide_job }) 160 300
      (codes "w") replies_first (λ kb. refl) (omega arith)

upload_guarded_example :
    (kb : KnowledgeBase) × MayWrite editor guide_db guide.kb_id kb
    × HasRoom 200 1 Metric.document_uploads 1 (quota_of guide_db) (some kb.workspace_id)
    × IsAccepted services guide
upload_guarded_example =
    upload_guarded services editor second_rows guide guide_db second_reply replies_again

abbrev erased_row : Document
erased_row = record guide_row { status = DocumentStatus.deleted; updated_at = 300 }

abbrev erased_db : ApiDb
erased_db = record guide_db {
  store = record {
    jobs = [];
    documents = erased_row ∷ [];
    versions = [];
    chunks = [];
    embeddings = [];
  };
}

deletes_guide : delete_document editor 300 31 guide_db ≡ ok (erased_row, erased_db)
unfolding delete_document writable_document check_action require_tenant_action list_tenant_actions
    load_role_permissions configured_actions normalize_permission_code normalize_stripped strip
    sorted_set insert ensure_document_read_access find_document ensure_kb_read_access
    ensure_kb_write_access find_kb ensure_workspace_read_access get_workspace_membership
    get_kb_membership scalar_one_or_none erase deleted_row
deletes_guide = refl

deleted_document-IsGone_example :
    IsGone 31 guide_db.store erased_db.store
    × ((p : Principal)
        → ensure_document_read_access (access_of erased_db) p 31 ≡ err (not_found document 31))
deleted_document-IsGone_example =
    deleted_document-IsGone editor 300 31 guide_db erased_row erased_db deletes_guide

abbrev reindex_job : IngestionJob
reindex_job = record second_job {
  document_version_id = 41;
  idempotency_key = codes "1:11:21:31:41:reindex";
}

abbrev reindexed_db : ApiDb
reindexed_db = record guide_db {
  store = record guide_db.store { jobs = guide_job ∷ reindex_job ∷ [] };
}

reindexes_guide :
    reindex_document services editor second_rows none 31 guide_db ≡ ok (reindex_job, reindexed_db)
unfolding reindex_document reindex_request writable_document check_action require_tenant_action
    list_tenant_actions load_role_permissions configured_actions normalize_permission_code
    normalize_stripped strip sorted_set insert ensure_document_read_access find_document
    ensure_kb_read_access ensure_kb_write_access find_kb ensure_workspace_read_access
    get_workspace_membership get_kb_membership scalar_one_or_none enqueue_ingestion_job
    build_job_idempotency_key new_job decimal decimal_digits
reindexes_guide = refl

-- The job of the first request has been completed when the second comes.
abbrev complete : IngestionJob → IngestionJob
complete j = record j { status = JobStatus.completed; finished_at = some 250 }

reindex_once_example :
    IsReindexJob services editor none 31 guide_db reindex_job
    × IsRow reindex_job reindexed_db.store.jobs
    × (j : IngestionJob) × (reindex_document services editor
          (record { document = 33; version = 43; job = 53; now = 900 })
          none
          31
          (later_jobs (λ j. true) complete reindexed_db)
        ≡ ok (j, later_jobs (λ j. true) complete reindexed_db))
    × IsRow j (later_jobs (λ j. true) complete reindexed_db).store.jobs
    × (j.tenant_id ≡ reindex_job.tenant_id)
    × (j.idempotency_key ≡ reindex_job.idempotency_key)
reindex_once_example =
    reindex_once services editor second_rows
      (record { document = 33; version = 43; job = 53; now = 900 }) none 31 guide_db reindex_job
      reindexed_db (λ j. true) complete (λ j. refl) (λ j. refl) reindexes_guide

abbrev piece : ℕ → ℕ → DocumentChunk
piece id n = record {
  id = id;
  tenant_id = 1;
  workspace_id = 11;
  kb_id = 21;
  document_id = 31;
  document_version_id = 41;
  chunk_no = n;
  content = codes "text";
  token_count = 1;
  metadata = record { filename = codes "guide.MD"; chunk_index = n; total_chunks = 3 };
  created_at = 0;
}

abbrev pieces_db : Database
pieces_db = record guide_db.store { chunks = piece 62 2 ∷ piece 60 0 ∷ piece 61 1 ∷ [] }

three : (page_of editor 31 1 0 2 guide_version pieces_db).total ≤ 2 * 2
unfolding page_of
three = omega arith

pages_cover_version_example :
    let all =
      pages (λ offset. (page_of editor 31 1 offset 2 guide_version pieces_db).items) 2 0 2 in
    IsSorted all
    × (length all ≡ (page_of editor 31 1 0 2 guide_version pieces_db).total)
    × ((p : DocumentChunk → Bool)
        → length (filter p all)
          ≡ length (filter p (filter (of_version editor 31 41) pieces_db.chunks)))
pages_cover_version_example = pages_cover_version editor 31 1 2 2 guide_version pieces_db three

abbrev dead_job : IngestionJob
dead_job = record guide_job { status = JobStatus.dead_letter; error = some (codes "broken") }

abbrev dead_db : Database
dead_db = record guide_db.store { jobs = dead_job ∷ [] }

abbrev operator : Operator
operator = record { tenant_id = 1; may_act = true; may_write = λ kb. true }

finds_dead : find_job operator 51 dead_db ≡ ok dead_job
unfolding find_job
finds_dead = refl

shown_retryable : (serialize_ingestion_job 400 dead_job).retryable ≡ true
unfolding serialize_ingestion_job
shown_retryable = refl

retryable_job_retried_example :
    (db' : Database) × (retry_ingestion_job operator 500 51 dead_db ≡ ok db')
    × All (λ (j : IngestionJob). j.id ≡ 51 → WaitsShown 600 30 j) db'.jobs
retryable_job_retried_example =
    retryable_job_retried operator 400 500 600 51 30 dead_db dead_job finds_dead shown_retryable
      (omega arith)
