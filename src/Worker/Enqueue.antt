-- ===== src/Worker/Enqueue.antt =====
-- services/api/src/tkp_api/services/ingestion.py: the API adds an ingestion job. The hash is a parameter, as
-- is the text of an id; `now` and the id of a new row are arguments.
use tkp_platform.Base.{ℕ, Bool, ◌&&◌, Option, none, some, [], ◌∷◌, ◌++◌, ◌==◌, find, take}
use tkp_platform.Base.Text.{Text, codes, text_eq}
use tkp_platform.Worker.Rows.{JobStatus, Stage, IngestionJob, Database}

pub record JobRequest : Type 0 where
  pub tenant_id : ℕ
  pub workspace_id : ℕ
  pub kb_id : ℕ
  pub document_id : ℕ
  pub document_version_id : ℕ
  pub action : Text
  pub client_idempotency_key : Option Text

-- `if client_key: ...`
abbrev pub client_part : Option Text → Text
client_part none = []
client_part (some []) = []
client_part (some (c ∷ key)) = codes ":" ++ c ∷ key

module _ (show_id : ℕ → Text) (sha256 : Text → Text) where
  unfoldable pub build_job_idempotency_key : JobRequest → Text
  build_job_idempotency_key q = take 64 (
      sha256 (
        show_id q.tenant_id
        ++ codes ":"
        ++ show_id q.workspace_id
        ++ codes ":"
        ++ show_id q.kb_id
        ++ codes ":"
        ++ show_id q.document_id
        ++ codes ":"
        ++ show_id q.document_version_id
        ++ codes ":"
        ++ q.action
        ++ client_part q.client_idempotency_key))

  abbrev pub has_idempotency_key : ℕ → Text → IngestionJob → Bool
  has_idempotency_key tenant key j = j.tenant_id == tenant && text_eq j.idempotency_key key

  unfoldable pub new_job : ℕ → ℕ → ℕ → JobRequest → IngestionJob
  new_job id now limit q = record {
    id = id;
    tenant_id = q.tenant_id;
    workspace_id = q.workspace_id;
    kb_id = q.kb_id;
    document_id = q.document_id;
    document_version_id = q.document_version_id;
    idempotency_key = build_job_idempotency_key q;
    status = JobStatus.queued;
    stage = Stage.queued;
    progress = 0;
    attempt_count = 0;
    max_attempts = limit;
    next_run_at = now;
    locked_at = none;
    locked_by = none;
    heartbeat_at = none;
    started_at = none;
    finished_at = none;
    error = none;
    created_at = now;
    updated_at = now;
  }

  abbrev pub put_job : Option IngestionJob → IngestionJob → Database → IngestionJob × Database
  put_job (some existing) job db = (existing, db)
  put_job none job db = (job, record db { jobs = db.jobs ++ job ∷ [] })

  -- `limit` is `ingestion_default_max_attempts`.
  unfoldable pub enqueue_ingestion_job : ℕ → ℕ → ℕ → JobRequest → Database → IngestionJob × Database
  enqueue_ingestion_job id now limit q db =
      put_job (find (has_idempotency_key q.tenant_id (build_job_idempotency_key q)) db.jobs)
        (new_job id now limit q) db
