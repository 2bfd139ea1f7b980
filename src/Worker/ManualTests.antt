-- ===== src/Worker/ManualTests.antt =====
-- A job in the dead letters that an operator requeues.
use tkp_platform.Base.{◌≡◌, refl, true, none, some, [], ◌∷◌, inl, arith}
use tkp_platform.Base.Result.{ok}
use tkp_platform.Base.Text.{codes}
use tkp_platform.Worker.Rows.{JobStatus, Stage, IngestionJob, Database}
use tkp_platform.Worker.Rounds.{AllConsistent}
use tkp_platform.Worker.Operator.{
  Operator, retry_ingestion_job, find_job, retry_guard, requeued, mark_document, mark_version,
}
use tkp_platform.Worker.Manual.{operator-IsConsistent}

abbrev dead_job : IngestionJob
dead_job = record {
  id = 7;
  tenant_id = 1;
  workspace_id = 2;
  kb_id = 3;
  document_id = 4;
  document_version_id = 5;
  status = JobStatus.dead_letter;
  stage = Stage.failed;
  progress = 0;
  attempt_count = 3;
  max_attempts = 3;
  idempotency_key = [];
  next_run_at = 0;
  locked_at = none;
  locked_by = none;
  heartbeat_at = some 40;
  started_at = some 10;
  finished_at = some 40;
  error = some (codes "no text");
  created_at = 5;
  updated_at = 40;
}

abbrev dead_db : Database
dead_db = record {
  jobs = dead_job ∷ [];
  documents = [];
  versions = [];
  chunks = [];
  embeddings = [];
}

abbrev requeued_db : Database
requeued_db = record dead_db {
  jobs =
      record dead_job {
        status = JobStatus.queued;
        stage = Stage.queued;
        next_run_at = 50;
        heartbeat_at = none;
        finished_at = none;
        error = none;
        updated_at = 50;
      }
      ∷ [];
}

abbrev operator : Operator
operator = record { tenant_id = 1; may_act = true; may_write = λ k. true }

requeues : retry_ingestion_job operator 50 7 dead_db ≡ ok requeued_db
unfolding retry_ingestion_job find_job retry_guard requeued mark_document mark_version
requeues = refl

dead_db_consistent : AllConsistent dead_db
dead_db_consistent = (ground arith, tt)

operator-IsConsistent_example : AllConsistent requeued_db
operator-IsConsistent_example =
    operator-IsConsistent operator 50 none 7 dead_db requeued_db dead_db_consistent (inl requeues)
