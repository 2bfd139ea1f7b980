-- ===== src/Checkpoints/Tests.antt =====
-- Checkpoints and recoveries of a run (services/api/src/tkp_api/services/agent_checkpoint.py).
use tkp_platform.Base.{ℕ, ◌≡◌, ◌⊎◌, refl, true, none, some, [], ◌∷◌, ◌<◌, ◌++◌, All}
use tkp_platform.Base.Result.{ok, err}
use tkp_platform.Base.Text.{codes}
use tkp_platform.Checkpoints.Service.{
  AgentCheckpoint, AgentRecovery, AgentDb, Executor, retry, skip, checkpoint_not_found,
  not_recoverable, last_of, create_checkpoint, get_latest_checkpoint, retry_execution,
  skip_and_continue, recover_from_checkpoint,
}
use tkp_platform.Checkpoints.Numbering.{create_then_latest}
use tkp_platform.Checkpoints.Recoveries.{Kept, recovery_is_settled}

-- The step "b" has failed, and "c" and "d" have not been tried.
abbrev checkpoint_at : ℕ → ℕ → AgentCheckpoint
checkpoint_at id seq = record {
  id = id;
  tenant_id = 1;
  agent_run_id = 9;
  checkpoint_seq = seq;
  checkpoint_type = codes "error_occurred";
  state_snapshot = codes "{}";
  completed_steps = codes "a" ∷ [];
  pending_steps = codes "c" ∷ codes "d" ∷ [];
  context_data = codes "{}";
  tool_call_history = codes "[]";
  error_info = some (record { failed_step = some (codes "b"); details = [] });
  recoverable = true;
  notes = none;
}

abbrev db : AgentDb
db = record {
  checkpoints = checkpoint_at 4 0 ∷ checkpoint_at 5 1 ∷ [];
  recoveries = [];
  agent_runs = [];
}

-- Completes all steps.
abbrev executor : Executor
executor steps context calls = ok (record { completed_steps = steps; final_state = none })

numbered : ((create_checkpoint (checkpoint_at 6 0) db).0).checkpoint_seq ≡ 2
unfolding create_checkpoint last_of
numbered = refl

retried :
    retry_execution (some executor) (checkpoint_at 4 0) (checkpoint_at 4 0).error_info
    ≡ ok (record {
      strategy = retry;
      completed_steps = some (codes "a" ∷ codes "b" ∷ codes "c" ∷ codes "d" ∷ []);
      after_state = none;
      step = some (codes "b");
    })
unfolding retry_execution
retried = refl

-- The step that is skipped is the first pending one, and not the one that failed.
skipped :
    skip_and_continue (some executor) (checkpoint_at 4 0)
    ≡ ok (record {
      strategy = skip;
      completed_steps = some (codes "a" ∷ codes "d" ∷ []);
      after_state = none;
      step = some (codes "c");
    })
unfolding skip_and_continue
skipped = refl

create_then_latest_example :
    let new = (create_checkpoint (checkpoint_at 6 0) db).0 in
    (get_latest_checkpoint 9 true ((create_checkpoint (checkpoint_at 6 0) db).1) ≡ some new)
    × (((create_checkpoint (checkpoint_at 6 0) db).1).checkpoints ≡ db.checkpoints ++ new ∷ [])
    × All
        (λ (c : AgentCheckpoint). c.agent_run_id ≡ 9 → c.checkpoint_seq < new.checkpoint_seq)
        db.checkpoints
create_then_latest_example = create_then_latest (checkpoint_at 6 0) true db (λ _. refl)

recovery_is_settled_example :
    ((row : AgentRecovery) × Kept db (recover_from_checkpoint 5 skip (some executor) 3 70 db) row)
    ⊎ (((recover_from_checkpoint 5 skip (some executor) 3 70 db).1 ≡ db)
        × (((recover_from_checkpoint 5 skip (some executor) 3 70 db).0 ≡ err checkpoint_not_found)
            ⊎ ((recover_from_checkpoint 5 skip (some executor) 3 70 db).0 ≡ err not_recoverable)))
recovery_is_settled_example = recovery_is_settled 5 skip (some executor) 3 70 db refl
