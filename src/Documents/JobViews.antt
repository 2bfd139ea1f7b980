-- ===== src/Documents/JobViews.antt =====
-- What the view of a job promises of the request to retry it
-- (services/api/src/tkp_api/api/documents.py).
use tkp_platform.Base.{ℕ, ◌≤◌, ◌≡◌, refl, sym, subst, inl, inr, true, false, All, arith}
use tkp_platform.Base.TableLaws.{All-update_to}
use tkp_platform.Base.Result.{ok, Result-cases}
use tkp_platform.Worker.Rows.{JobStatus, IngestionJob, Database}
use tkp_platform.Worker.Claim.{claimable}
use tkp_platform.Worker.Operator.{Operator, find_job, requeued, retry_guard, retry_ingestion_job}
use tkp_platform.Worker.Manual.{retry-jobs, All-trivial, requeued-claimable}
use tkp_platform.Documents.Jobs.{
  Category, is_retryable, build_job_diagnosis, serialize_ingestion_job,
}

-- The view of a job that waits for a worker.
abbrev pub ShownQueued : ℕ → IngestionJob → Type 0
ShownQueued now j =
    let view = serialize_ingestion_job now j in
    (view.diagnosis ≡ Category.queued)
    × (view.terminal ≡ false)
    × (view.retryable ≡ false)
    × (view.can_retry_now ≡ false)

requeued-ShownQueued : (t now : ℕ) (j : IngestionJob) → ShownQueued now (requeued t j)
unfolding requeued serialize_ingestion_job build_job_diagnosis
requeued-ShownQueued t now j = (refl, refl, refl, refl)

retryable-guard : (st : JobStatus) → is_retryable st ≡ true → retry_guard st ≡ ok tt
unfolding retry_guard
retryable-guard JobStatus.queued h = cc
retryable-guard JobStatus.processing h = cc
retryable-guard JobStatus.retrying h = refl
retryable-guard JobStatus.completed h = cc
retryable-guard JobStatus.dead_letter h = refl

retry_found :
    (o : Operator) (now id : ℕ) (db : Database) (job : IngestionJob)
    → find_job o id db ≡ ok job
    → retry_guard job.status ≡ ok tt
    → (db' : Database) × (retry_ingestion_job o now id db ≡ ok db')
unfolding retry_ingestion_job
retry_found o now id db job found may = elim (Result-cases (retry_ingestion_job o now id db)) [
  | inl (db', e) ↦ (db', e)
  | inr (x, e) ↦ cc (rw (found, may) at e)
]

-- It is shown as queued, and a worker can claim it.
abbrev pub WaitsShown : ℕ → ℕ → IngestionJob → Type 0
WaitsShown t timeout j = ShownQueued t j × (claimable (λ _. false) t timeout j ≡ true)

-- A job that is shown as retryable can be retried by any operator who finds it, whenever it was looked at. From
-- the retry on it is shown as queued, neither terminal nor retryable, and any worker can claim it at any later
-- time, with any lock timeout.
pub retryable_job_retried :
    (o : Operator) (seen now later id timeout : ℕ) (db : Database) (job : IngestionJob)
    → find_job o id db ≡ ok job
    → (serialize_ingestion_job seen job).retryable ≡ true
    → now ≤ later
    → (db' : Database) × (retry_ingestion_job o now id db ≡ ok db')
      × All (λ (j : IngestionJob). j.id ≡ id → WaitsShown later timeout j) db'.jobs
unfolding serialize_ingestion_job
retryable_job_retried o seen now later id timeout db job found shown le =
    let (db', done) = retry_found o now id db job found (retryable-guard job.status shown) in
    (
      db',
      done,
      subst (All (λ (j : IngestionJob). j.id ≡ id → WaitsShown later timeout j))
          (sym (retry-jobs o id db now db' done))
          (All-update_to (λ (j : IngestionJob). Unit {0}) _ _ (requeued now) db.jobs
            (λ x k p e.
              (requeued-ShownQueued now later x, requeued-claimable now later timeout x le))
            (λ x k p e. absurd (ground arith)) (All-trivial db.jobs)),
    )
