-- ===== src/Worker/Loop.antt =====
-- One round of the loop of `main` in services/worker/src/tkp_worker/main.py.
use tkp_platform.Base.{List, [], ◌∷◌, ℕ, Bool, Option, none, some, take}
use tkp_platform.Base.Result.{Result, ok, err}
use tkp_platform.Base.Text.{Text}
use tkp_platform.Worker.Rows.{Database}
use tkp_platform.Worker.Claim.{ClaimedJob, claim_next_job}
use tkp_platform.Worker.Outcome.{mark_success, mark_failure}
use tkp_platform.Worker.Process.{Environment, process_job}

-- The worker's settings that the loop reads.
pub record Settings : Type 0 where
  pub worker_id : Text
  pub lock_timeout_seconds : ℕ
  pub retry_base_seconds : ℕ
  pub retry_max_seconds : ℕ

-- now() of the three transactions of a round.
pub record Times : Type 0 where
  pub claim : ℕ
  pub work : ℕ
  pub failure : ℕ

-- The second transaction of a round, rolled back on an exception, and the third one, which is run
-- only then: `err = str(exc)[:2000]`.
unfoldable pub finish_round :
    Settings → Times → ClaimedJob → Result Text Database → Database → Database
finish_round s t job (ok db') db = mark_success t.work job.id db'
finish_round s t job (err e) db =
    mark_failure t.failure job s.retry_base_seconds s.retry_max_seconds (take 2000 e) db

unfoldable pub run_claimed :
    Environment → Settings → Times → Option ClaimedJob × Database → Database
unfolding finish_round
run_claimed env s t (none, db) = db
run_claimed env s t (some job, db) =
    finish_round s t job (process_job env job t.work s.worker_id db) db

unfoldable pub run_round : Environment → Settings → (ℕ → Bool) → Times → Database → Database
unfolding run_claimed
run_round env s held t db =
    run_claimed env s t (claim_next_job held t.claim s.worker_id s.lock_timeout_seconds db)

-- What one round depends on besides the database; the rounds may be of several workers.
pub record Round : Type 0 where
  pub env : Environment
  pub settings : Settings
  pub held : ℕ → Bool
  pub times : Times

-- `while True`, for the rounds that are made; a round that is not interrupted is finished before the
-- next one.
unfoldable pub run_rounds : List Round → Database → Database
unfolding run_round
run_rounds [] db = db
run_rounds (r ∷ rs) db = run_rounds rs (run_round r.env r.settings r.held r.times db)
