-- ===== src/Documents/Jobs.antt =====
-- `_build_job_diagnosis`, `_serialize_ingestion_job` and `get_ingestion_job` of
-- services/api/src/tkp_api/api/documents.py. Of a diagnosis only the category is kept; the two texts beside it
-- are fixed by it.
use tkp_platform.Base.{
  ℕ, ◌+◌, ◌-◌, ◌/◌, Bool, true, false, not, ◌&&◌, Option, none, some, ◌==◌, ltb, if◌then◌else◌,
  find,
}
use tkp_platform.Base.Result.{Result, ok, ◌>>=◌, ◌>>◌, or_raise, raise_if, map_err}
use tkp_platform.Worker.Rows.{JobStatus, IngestionJob, seconds}
use tkp_platform.Access.Checks.{ensure_kb_read_access}
use tkp_platform.Documents.State.{
  Context, ApiDb, ApiError, access, job_not_found, document_read, access_of, principal,
  check_action,
}

pub data Category : Type 0 where
  dead_letter retrying stale_processing processing queued completed unknown : Category

-- `heartbeat_at is not None and (now_utc - heartbeat_at).total_seconds() > 300`
abbrev pub is_stale : ℕ → Option ℕ → Bool
is_stale now none = false
is_stale now (some heartbeat) = ltb (heartbeat + seconds 300) now

-- `unknown` is for a status that is not in the enumeration.
unfoldable pub build_job_diagnosis : ℕ → IngestionJob → Category
build_job_diagnosis now job = elim job.status [
  | JobStatus.dead_letter ↦ Category.dead_letter
  | JobStatus.retrying ↦ Category.retrying
  | JobStatus.processing ↦
      if is_stale now job.heartbeat_at then Category.stale_processing else Category.processing
  | JobStatus.queued ↦ Category.queued
  | JobStatus.completed ↦ Category.completed
]

abbrev pub is_retryable : JobStatus → Bool
is_retryable JobStatus.retrying = true
is_retryable JobStatus.dead_letter = true
is_retryable _ = false

abbrev pub is_terminal : JobStatus → Bool
is_terminal JobStatus.completed = true
is_terminal JobStatus.dead_letter = true
is_terminal _ = false

-- `max(0, int((next_run_at - current).total_seconds()))`
abbrev pub retry_in : ℕ → IngestionJob → ℕ
retry_in now job = (job.next_run_at - now) / 1_000_000

pub record JobView : Type 0 where
  pub job : IngestionJob
  pub terminal : Bool
  pub retryable : Bool
  pub can_retry_now : Bool
  pub retry_in_seconds : ℕ
  pub diagnosis : Category

unfoldable pub serialize_ingestion_job : ℕ → IngestionJob → JobView
serialize_ingestion_job now job = record {
  job = job;
  terminal = is_terminal job.status;
  retryable = is_retryable job.status;
  can_retry_now = is_retryable job.status && retry_in now job == 0;
  retry_in_seconds = retry_in now job;
  diagnosis = build_job_diagnosis now job;
}

unfoldable pub get_ingestion_job : Context → ℕ → ℕ → ApiDb → Result ApiError JobView
get_ingestion_job ctx now id db = do
  check_action ctx db document_read
  job ← or_raise (find (λ (j : IngestionJob). j.id == id) db.store.jobs) job_not_found
  raise_if (not (job.tenant_id == ctx.tenant_id)) job_not_found
  (kb, wm, km) ← map_err access (ensure_kb_read_access (access_of db) (principal ctx) job.kb_id)
  ok (serialize_ingestion_job now job)
