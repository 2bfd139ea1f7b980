-- ===== src/Checkpoints/Service.antt =====
-- `AgentCheckpointService` of services/api/src/tkp_api/services/agent_checkpoint.py. A JSON value that the
-- service only passes on is its text; the executor, which may raise, is a parameter, as are `now` and the id
-- of a new row.
use tkp_platform.Base.{
  ℕ, suc, Bool, true, ◌&&◌, Option, none, some, List, [], ◌∷◌, ◌++◌, ◌==◌, leb, if◌then◌else◌, find,
  filter, head?, drop, update_where,
}
use tkp_platform.Base.Result.{Result, ok, err}
use tkp_platform.Base.Text.{Text, codes}

pub record ErrorInfo : Type 0 where
  pub failed_step : Option Text
  pub details : Text

-- Nothing stands for an `error_info` that is None or empty, which the code treats alike.
pub record AgentCheckpoint : Type 0 where
  pub id : ℕ
  pub tenant_id : ℕ
  pub agent_run_id : ℕ
  pub checkpoint_seq : ℕ
  pub checkpoint_type : Text
  pub state_snapshot : Text
  pub completed_steps : List Text
  pub pending_steps : List Text
  pub context_data : Text
  pub tool_call_history : Text
  pub error_info : Option ErrorInfo
  pub recoverable : Bool
  pub notes : Option Text

pub data Strategy : Type 0 where
  resume retry skip abort : Strategy
  unsupported : (name : Text) → Strategy

pub data RecoveryStatus : Type 0 where
  running completed failed : RecoveryStatus

-- What a strategy returns; `step` is the one that was retried or skipped.
pub record RecoveryResult : Type 0 where
  pub strategy : Strategy
  pub completed_steps : Option (List Text)
  pub after_state : Option Text
  pub step : Option Text

pub record AgentRecovery : Type 0 where
  pub id : ℕ
  pub tenant_id : ℕ
  pub agent_run_id : ℕ
  pub checkpoint_id : ℕ
  pub status : RecoveryStatus
  pub recovery_strategy : Strategy
  pub before_state : Text
  pub after_state : Option Text
  pub recovery_result : Option RecoveryResult
  pub error_message : Option Text
  pub completed_at : Option ℕ

pub record RunRow : Type 0 where
  pub id : ℕ
  pub status : Text
  pub finished_at : Option ℕ

pub record AgentDb : Type 0 where
  pub checkpoints : List AgentCheckpoint
  pub recoveries : List AgentRecovery
  pub agent_runs : List RunRow

-- `ORDER BY checkpoint_seq DESC` and `.first()`
abbrev pub later_of : AgentCheckpoint → Option AgentCheckpoint → AgentCheckpoint
later_of c none = c
later_of c (some d) = if leb d.checkpoint_seq c.checkpoint_seq then c else d

unfoldable pub last_of : List AgentCheckpoint → Option AgentCheckpoint
last_of [] = none
last_of (c ∷ cs) = some (later_of c (last_of cs))

abbrev pub of_run : ℕ → AgentCheckpoint → Bool
of_run run c = c.agent_run_id == run

abbrev pub next_seq : Option AgentCheckpoint → ℕ
next_seq none = 0
next_seq (some c) = suc c.checkpoint_seq

-- The fields of the request are those of the checkpoint; its number is assigned.
unfoldable pub create_checkpoint : AgentCheckpoint → AgentDb → AgentCheckpoint × AgentDb
create_checkpoint request db =
    let seq = next_seq (last_of (filter (of_run request.agent_run_id) db.checkpoints)) in
    let checkpoint = record request { checkpoint_seq = seq } in
    (checkpoint, record db { checkpoints = db.checkpoints ++ checkpoint ∷ [] })

abbrev pub wanted : ℕ → Bool → AgentCheckpoint → Bool
wanted run recoverable_only c = of_run run c && (if recoverable_only then c.recoverable else true)

unfoldable pub get_latest_checkpoint : ℕ → Bool → AgentDb → Option AgentCheckpoint
get_latest_checkpoint run recoverable_only db =
    last_of (filter (wanted run recoverable_only) db.checkpoints)

pub record Execution : Type 0 where
  pub completed_steps : List Text
  pub final_state : Option Text

-- `agent_executor.execute_steps` of the steps, the context and the calls of tools so far.
abbrev pub Executor : Type 0
Executor = List Text → Text → Text → Result Text Execution

abbrev pub executed :
    Strategy → Option Text → List Text → Result Text Execution → Result Text RecoveryResult
executed strategy step done (err e) = err e
executed strategy step done (ok execution) = ok (record {
  strategy = strategy;
  completed_steps = some (done ++ execution.completed_steps);
  after_state = execution.final_state;
  step = step;
})

abbrev pub idle :
    Strategy → Option (List Text) → Option Text → Option Text → Result Text RecoveryResult
idle strategy done state step =
    ok (record { strategy = strategy; completed_steps = done; after_state = state; step = step })

unfoldable pub resume_execution :
    Option Executor → AgentCheckpoint → List Text → Result Text RecoveryResult
resume_execution (some execute) c (s ∷ ss) =
    executed resume none c.completed_steps (execute (s ∷ ss) c.context_data c.tool_call_history)
resume_execution executor c steps =
    idle resume (some c.completed_steps) (some c.state_snapshot) none

abbrev pub retry_step : Option Executor → AgentCheckpoint → Text → Result Text RecoveryResult
retry_step none c step = idle retry none none (some step)
retry_step (some execute) c step =
    executed retry (some step) c.completed_steps
      (execute (step ∷ c.pending_steps) c.context_data c.tool_call_history)

abbrev pub retry_failed :
    Option Executor → AgentCheckpoint → Option Text → Result Text RecoveryResult
retry_failed executor c none = err (codes "no failed step info in checkpoint")
retry_failed executor c (some []) = err (codes "no failed step info in checkpoint")
retry_failed executor c (some (a ∷ text)) = retry_step executor c (a ∷ text)

unfoldable pub retry_execution :
    Option Executor → AgentCheckpoint → Option ErrorInfo → Result Text RecoveryResult
retry_execution executor c none = err (codes "no error info in checkpoint, cannot retry")
retry_execution executor c (some info) = retry_failed executor c info.failed_step

abbrev pub skip_first :
    Option Executor → AgentCheckpoint → Option Text → List Text → Result Text RecoveryResult
skip_first (some execute) c step (s ∷ ss) =
    executed skip step c.completed_steps (execute (s ∷ ss) c.context_data c.tool_call_history)
skip_first executor c step steps = idle skip none none step

unfoldable pub skip_and_continue : Option Executor → AgentCheckpoint → Result Text RecoveryResult
skip_and_continue executor c =
    skip_first executor c (head? c.pending_steps) (drop 1 c.pending_steps)

unfoldable pub abort_execution :
    ℕ → AgentCheckpoint → AgentDb → Result Text RecoveryResult × AgentDb
abort_execution now c db = (
  idle abort (some c.completed_steps) none none,
  record db {
    agent_runs =
        update_where (λ (run : RunRow). run.id == c.agent_run_id)
          (λ run. record run { status = codes "failed"; finished_at = some now }) db.agent_runs;
  },
)

abbrev pub run_strategy :
    Strategy
    → Option Executor
    → ℕ
    → AgentCheckpoint
    → AgentDb
    → Result Text RecoveryResult × AgentDb
run_strategy resume executor now c db = (resume_execution executor c c.pending_steps, db)
run_strategy retry executor now c db = (retry_execution executor c c.error_info, db)
run_strategy skip executor now c db = (skip_and_continue executor c, db)
run_strategy abort executor now c db = abort_execution now c db
run_strategy (unsupported name) executor now c db =
    (err (codes "unsupported recovery strategy: " ++ name), db)

pub data RecoverError : Type 0 where
  checkpoint_not_found not_recoverable : RecoverError
  recovery_failed : Text → RecoverError

abbrev pub new_recovery : ℕ → Strategy → AgentCheckpoint → AgentRecovery
new_recovery new_id strategy c = record {
  id = new_id;
  tenant_id = c.tenant_id;
  agent_run_id = c.agent_run_id;
  checkpoint_id = c.id;
  status = running;
  recovery_strategy = strategy;
  before_state = c.state_snapshot;
  after_state = none;
  recovery_result = none;
  error_message = none;
  completed_at = none;
}

abbrev pub completed_with : ℕ → RecoveryResult → AgentRecovery → AgentRecovery
completed_with now result r = record r {
  status = completed;
  after_state = result.after_state;
  recovery_result = some result;
  completed_at = some now;
}

abbrev pub failed_with : ℕ → Text → AgentRecovery → AgentRecovery
failed_with now e r = record r { status = failed; error_message = some e; completed_at = some now }

abbrev pub change_recovery : ℕ → (AgentRecovery → AgentRecovery) → AgentDb → AgentDb
change_recovery id f db = record db {
  recoveries = update_where (λ (r : AgentRecovery). r.id == id) f db.recoveries;
}

abbrev pub settle :
    ℕ
    → AgentRecovery
    → Result Text RecoveryResult × AgentDb
    → Result RecoverError AgentRecovery × AgentDb
settle now r (ok result, db) =
    (ok (completed_with now result r), change_recovery r.id (completed_with now result) db)
settle now r (err e, db) = (err (recovery_failed e), change_recovery r.id (failed_with now e) db)

-- The recovery is stored as running before the strategy runs.
abbrev pub recover_found :
    Option AgentCheckpoint
    → Strategy
    → Option Executor
    → ℕ
    → ℕ
    → AgentDb
    → Result RecoverError AgentRecovery × AgentDb
recover_found none strategy executor new_id now db = (err checkpoint_not_found, db)
recover_found (some c) strategy executor new_id now db =
    if c.recoverable
    then settle now (new_recovery new_id strategy c) (
        run_strategy strategy executor now c
          (record db { recoveries = db.recoveries ++ new_recovery new_id strategy c ∷ [] }))
    else (err not_recoverable, db)

unfoldable pub recover_from_checkpoint :
    ℕ → Strategy → Option Executor → ℕ → ℕ → AgentDb → Result RecoverError AgentRecovery × AgentDb
recover_from_checkpoint id strategy executor new_id now db =
    recover_found (find (λ (c : AgentCheckpoint). c.id == id) db.checkpoints) strategy executor
      new_id now db
