-- ===== src/Worker/Operator.antt =====
-- The two requests by which an operator moves a job by hand: `retry_ingestion_job` and
-- `dead_letter_ingestion_job` of services/api/src/tkp_api/api/documents.py. Their permission checks
-- are handed over as answers; the audit log is left out.
use tkp_platform.Base.{
  ℕ, Bool, not, ◌&&◌, Option, none, some, ◌==◌, if◌then◌else◌, find, update_where,
}
use tkp_platform.Base.Result.{Result, ok, err, ◌>>=◌, ◌>>◌, raise_if, or_raise}
use tkp_platform.Base.Text.{Text, codes, strip}
use tkp_platform.Chunker.Split.{is_empty}
use tkp_platform.Worker.Rows.{
  JobStatus, Stage, DocumentStatus, ParseStatus, IngestionJob, Document, DocumentVersion, Database,
}
use tkp_platform.Worker.Outcome.{set_job}

pub data OperatorError : Type 0 where
  forbidden job_not_found job_is_processing job_already_completed : OperatorError

-- `may_act` answers `require_tenant_action`, `may_write` answers `ensure_kb_write_access`.
pub record Operator : Type 0 where
  pub tenant_id : ℕ
  pub may_act : Bool
  pub may_write : ℕ → Bool

unfoldable pub is_deleted : DocumentStatus → Bool
is_deleted DocumentStatus.deleted = Bool.true
is_deleted _ = Bool.false

abbrev pub status_no : DocumentStatus → ℕ
status_no DocumentStatus.pending = 0
status_no DocumentStatus.processing = 1
status_no DocumentStatus.ready = 2
status_no DocumentStatus.failed = 3
status_no DocumentStatus.deleted = 4

-- `if doc and doc.tenant_id == ctx.tenant_id and doc.status != DELETED: doc.status = st`. The row is
-- written, and `updated_at` with it, when the status is another than before.
unfoldable pub mark_document : ℕ → ℕ → DocumentStatus → ℕ → Database → Database
unfolding is_deleted
mark_document tenant id st now db = record db {
  documents =
      update_where
        (λ (d : Document).
          d.id == id
          && (d.tenant_id == tenant
              && (not (is_deleted d.status) && not (status_no d.status == status_no st))))
        (λ d. record d { status = st; updated_at = now }) db.documents;
}

-- `if version and version.tenant_id == ctx.tenant_id: version.parse_status = st`
unfoldable pub mark_version : ℕ → ℕ → ParseStatus → Database → Database
mark_version tenant id st db = record db {
  versions =
      update_where (λ (v : DocumentVersion). v.id == id && v.tenant_id == tenant)
        (λ v. record v { parse_status = st }) db.versions;
}

-- The checks that both requests begin with.
unfoldable pub find_job : Operator → ℕ → Database → Result OperatorError IngestionJob
find_job o id db = do
  raise_if (not o.may_act) forbidden
  j ← or_raise (find (λ (j : IngestionJob). j.id == id) db.jobs) job_not_found
  raise_if (not (j.tenant_id == o.tenant_id)) job_not_found
  raise_if (not (o.may_write j.kb_id)) forbidden
  ok j

unfoldable pub requeued : ℕ → IngestionJob → IngestionJob
requeued now j = record j {
  status = JobStatus.queued;
  stage = Stage.queued;
  progress = 0;
  next_run_at = now;
  locked_at = none;
  locked_by = none;
  heartbeat_at = none;
  finished_at = none;
  error = none;
  updated_at = now;
}

unfoldable pub retry_guard : JobStatus → Result OperatorError (Unit {0})
retry_guard JobStatus.processing = err job_is_processing
retry_guard JobStatus.completed = err job_already_completed
retry_guard _ = ok tt

unfoldable pub retry_ingestion_job : Operator → ℕ → ℕ → Database → Result OperatorError Database
retry_ingestion_job o now id db = do
  j ← find_job o id db
  retry_guard j.status
  ok (
      mark_version o.tenant_id j.document_version_id ParseStatus.pending (
        mark_document o.tenant_id j.document_id DocumentStatus.pending now
          (set_job j.id (requeued now) db)))

-- `(payload.reason or "").strip() or "manual dead letter by operator"`
unfoldable pub dead_letter_reason : Option Text → Text
dead_letter_reason none = codes "manual dead letter by operator"
dead_letter_reason (some r) =
    if is_empty (strip r) then codes "manual dead letter by operator" else strip r

unfoldable pub dead_lettered : ℕ → Text → IngestionJob → IngestionJob
dead_lettered now reason j = record j {
  status = JobStatus.dead_letter;
  stage = Stage.failed;
  progress = 0;
  error = some reason;
  finished_at = some now;
  heartbeat_at = some now;
  locked_at = none;
  locked_by = none;
  updated_at = now;
}

unfoldable pub dead_letter_guard : JobStatus → Result OperatorError (Unit {0})
dead_letter_guard JobStatus.completed = err job_already_completed
dead_letter_guard _ = ok tt

unfoldable pub dead_letter_ingestion_job :
    Operator → ℕ → Option Text → ℕ → Database → Result OperatorError Database
dead_letter_ingestion_job o now reason id db = do
  j ← find_job o id db
  dead_letter_guard j.status
  let update = dead_lettered now (dead_letter_reason reason)
  ok (
      mark_version o.tenant_id j.document_version_id ParseStatus.failed (
        mark_document o.tenant_id j.document_id DocumentStatus.failed now (set_job j.id update db)))
