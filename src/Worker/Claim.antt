-- ===== src/Worker/Claim.antt =====
-- `_claim_next_job` of services/worker/src/tkp_worker/main.py: one statement that picks the oldest
-- job that may run and takes it. Two jobs with one `created_at` are taken in the table's order.
use tkp_platform.Base.{
  ℕ, ◌+◌, Bool, true, not, ◌&&◌, Option, none, some, List, [], ◌∷◌, ltb, leb, ◌==◌, if◌then◌else◌,
  filter, update_where,
}
use tkp_platform.Base.Text.{Text}
use tkp_platform.Worker.Rows.{JobStatus, Stage, IngestionJob, Database, seconds, is_waiting}

-- locked_at IS NULL OR locked_at < now() - make_interval(secs => :lock_timeout_seconds)
abbrev pub lock_free : ℕ → ℕ → Option ℕ → Bool
lock_free now timeout none = true
lock_free now timeout (some t) = ltb (t + seconds timeout) now

-- The WHERE clause; `held` tells the rows that another transaction has locked (SKIP LOCKED).
unfoldable pub claimable : (ℕ → Bool) → ℕ → ℕ → IngestionJob → Bool
claimable held now timeout j =
    is_waiting j.status
    && leb j.next_run_at now
    && lock_free now timeout j.locked_at
    && not (held j.id)

-- ORDER BY created_at ... LIMIT 1
unfoldable pub oldest : List IngestionJob → Option IngestionJob
oldest [] = none
oldest (j ∷ js) = elim (oldest js) [
  | none ↦ some j
  | some k ↦ some (if leb j.created_at k.created_at then j else k)
]

abbrev pub or_now : Option ℕ → ℕ → ℕ
or_now none now = now
or_now (some t) now = t

-- The SET list.
unfoldable pub take_job : ℕ → Text → IngestionJob → IngestionJob
take_job now worker_id j = record j {
  status = JobStatus.processing;
  stage = Stage.loading;
  progress = 5;
  locked_at = some now;
  locked_by = some worker_id;
  heartbeat_at = some now;
  started_at = some (or_now j.started_at now);
  attempt_count = j.attempt_count + 1;
  updated_at = now;
  error = none;
}

-- The columns that RETURNING lists.
pub record ClaimedJob : Type 0 where
  pub id : ℕ
  pub tenant_id : ℕ
  pub workspace_id : ℕ
  pub kb_id : ℕ
  pub document_id : ℕ
  pub document_version_id : ℕ
  pub attempt_count : ℕ
  pub max_attempts : ℕ

abbrev pub returned : IngestionJob → ClaimedJob
returned j = record {
  id = j.id;
  tenant_id = j.tenant_id;
  workspace_id = j.workspace_id;
  kb_id = j.kb_id;
  document_id = j.document_id;
  document_version_id = j.document_version_id;
  attempt_count = j.attempt_count;
  max_attempts = j.max_attempts;
}

abbrev pub take_candidate : Option IngestionJob → ℕ → Text → Database → Option ClaimedJob × Database
take_candidate none now worker_id db = (none, db)
take_candidate (some c) now worker_id db = (
  some (returned (take_job now worker_id c)),
  record db { jobs = update_where (λ j. j.id == c.id) (take_job now worker_id) db.jobs },
)

unfoldable pub claim_next_job : (ℕ → Bool) → ℕ → Text → ℕ → Database → Option ClaimedJob × Database
unfolding claimable oldest take_job
claim_next_job held now worker_id timeout db =
    take_candidate (oldest (filter (claimable held now timeout) db.jobs)) now worker_id db
