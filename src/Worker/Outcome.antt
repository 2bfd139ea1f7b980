-- ===== src/Worker/Outcome.antt =====
-- How a job's row ends: `_touch_heartbeat`, `_mark_success` and `_mark_failure` of
-- services/worker/src/tkp_worker/main.py.
use tkp_platform.Base.{
  ℕ, ◌+◌, ◌-◌, ◌*◌, ◌^◌, min, Bool, not, ◌&&◌, none, some, List, [], ◌∷◌, ltb, ◌==◌, if◌then◌else◌,
  any, update_where,
}
use tkp_platform.Base.Text.{Text, codes, is_infix, lower}
use tkp_platform.Worker.Rows.{
  JobStatus, Stage, DocumentStatus, ParseStatus, IngestionJob, Document, DocumentVersion, Database,
  seconds,
}
use tkp_platform.Worker.Claim.{ClaimedJob}

-- UPDATE ingestion_jobs ... WHERE id = :job_id
abbrev pub set_job : ℕ → (IngestionJob → IngestionJob) → Database → Database
set_job id f db = record db { jobs = update_where (λ j. j.id == id) f db.jobs }

abbrev pub set_document_status : ℕ → ℕ → DocumentStatus → Database → Database
set_document_status now id st db = record db {
  documents =
      update_where (λ (d : Document). d.id == id) (λ d. record d { status = st; updated_at = now })
        db.documents;
}

abbrev pub set_parse_status : ℕ → ParseStatus → Database → Database
set_parse_status id st db = record db {
  versions =
      update_where (λ (v : DocumentVersion). v.id == id) (λ v. record v { parse_status = st })
        db.versions;
}

unfoldable pub touched : ℕ → Text → IngestionJob → IngestionJob
touched now worker_id j = record j {
  heartbeat_at = some now;
  updated_at = now;
  locked_by = some worker_id;
}

unfoldable pub touch_heartbeat : ℕ → ℕ → Text → Database → Database
unfolding touched
touch_heartbeat now id worker_id = set_job id (touched now worker_id)

unfoldable pub succeeded : ℕ → IngestionJob → IngestionJob
succeeded now j = record j {
  status = JobStatus.completed;
  stage = Stage.completed;
  progress = 100;
  finished_at = some now;
  heartbeat_at = some now;
  locked_at = none;
  locked_by = none;
  updated_at = now;
  error = none;
}

unfoldable pub mark_success : ℕ → ℕ → Database → Database
unfolding succeeded
mark_success now id = set_job id (succeeded now)

abbrev pub non_retryable_markers : List Text
non_retryable_markers =
    codes "model_not_found"
    ∷ codes "405 not allowed"
    ∷ codes "openai-compatible"
    ∷ codes "has no attribute 'data'"
    ∷ codes "invalid api key"
    ∷ codes "incorrect api key"
    ∷ codes "authentication"
    ∷ codes "unauthorized"
    ∷ codes "permission denied"
    ∷ codes "quota exceeded"
    ∷ []

unfoldable pub is_non_retryable : Text → Bool
is_non_retryable message = let l = lower message in any (λ m. is_infix m l) non_retryable_markers

-- min(base_seconds * (2 ** max(0, attempt_count - 1)), max_seconds)
unfoldable pub retry_delay : ℕ → ℕ → ℕ → ℕ
retry_delay base_seconds max_seconds attempt_count =
    min (base_seconds * 2 ^ (attempt_count - 1)) max_seconds

unfoldable pub retry_later : ℕ → ℕ → Text → IngestionJob → IngestionJob
retry_later now delay message j = record j {
  status = JobStatus.retrying;
  stage = Stage.failed;
  progress = 0;
  error = some message;
  next_run_at = now + seconds delay;
  heartbeat_at = some now;
  locked_at = none;
  locked_by = none;
  updated_at = now;
}

unfoldable pub give_up : ℕ → Text → IngestionJob → IngestionJob
give_up now message j = record j {
  status = JobStatus.dead_letter;
  stage = Stage.failed;
  progress = 0;
  error = some message;
  finished_at = some now;
  heartbeat_at = some now;
  locked_at = none;
  locked_by = none;
  updated_at = now;
}

unfoldable pub should_retry : ClaimedJob → Text → Bool
should_retry job message = ltb job.attempt_count job.max_attempts && not (is_non_retryable message)

unfoldable pub mark_failure : ℕ → ClaimedJob → ℕ → ℕ → Text → Database → Database
unfolding should_retry retry_later give_up
mark_failure now job base_seconds max_seconds message db =
    let delay = retry_delay base_seconds max_seconds job.attempt_count in
    let update = λ (j : IngestionJob).
      if should_retry job message then retry_later now delay message j else give_up now message j in
    set_document_status now job.document_id DocumentStatus.failed
      (set_parse_status job.document_version_id ParseStatus.failed (set_job job.id update db))
