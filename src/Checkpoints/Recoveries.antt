-- ===== src/Checkpoints/Recoveries.antt =====
-- What is kept of a recovery (services/api/src/tkp_api/services/agent_checkpoint.py).
use tkp_platform.Base.{
  ℕ, ◌≡◌, ◌⊎◌, refl, ap, ◌∙◌, inl, inr, false, Option, some, List, [], ◌∷◌, ◌++◌, ◌==◌, any, find,
  update_where, Bool-cases, Option-cases, ==_refl,
}
use tkp_platform.Base.Result.{Result, ok, err}
use tkp_platform.Base.Text.{Text}
use tkp_platform.Checkpoints.Service.{
  AgentCheckpoint, AgentRecovery, AgentDb, Strategy, resume, retry, skip, abort, unsupported,
  RecoveryStatus, RecoveryResult, Executor, run_strategy, abort_execution, RecoverError,
  checkpoint_not_found, not_recoverable, recovery_failed, new_recovery, completed_with, failed_with,
  settle, recover_from_checkpoint,
}

-- An update by the id of the last row, which no other has, changes that row.
update-last :
    (f : AgentRecovery → AgentRecovery) (r : AgentRecovery) (rs : List AgentRecovery)
    → any (λ x. x.id == r.id) rs ≡ false
    → update_where (λ (x : AgentRecovery). x.id == r.id) f (rs ++ r ∷ []) ≡ rs ++ f r ∷ []
update-last f r [] h = rw (==_refl r.id) refl
update-last f r (x ∷ xs) h = elim (Bool-cases (x.id == r.id)) [
  | inl t ↦ cc (rw t at h)
  | inr n ↦ rw n (ap (λ l. x ∷ l) (update-last f r xs (rw n at h)))
]

strategy_keeps :
    (strategy : Strategy) (executor : Option Executor) (now : ℕ) (c : AgentCheckpoint)
    (db : AgentDb)
    → let after = (run_strategy strategy executor now c db).1 in
      (after.recoveries ≡ db.recoveries) × (after.checkpoints ≡ db.checkpoints)
unfolding abort_execution
strategy_keeps resume executor now c db = (refl, refl)
strategy_keeps retry executor now c db = (refl, refl)
strategy_keeps skip executor now c db = (refl, refl)
strategy_keeps abort executor now c db = (refl, refl)
strategy_keeps (unsupported name) executor now c db = (refl, refl)

-- The answer and the row that is kept agree: completed with the result, or failed with the error.
abbrev pub Agrees : Result RecoverError AgentRecovery → AgentRecovery → Type 0
Agrees answer row =
    ((answer ≡ ok row) × (row.status ≡ RecoveryStatus.completed))
    ⊎ ((e : Text) × (answer ≡ err (recovery_failed e))
        × (row.status ≡ RecoveryStatus.failed)
        × (row.error_message ≡ some e))

-- The row is added, and no other row of recoveries or checkpoints is touched.
abbrev pub Kept : AgentDb → Result RecoverError AgentRecovery × AgentDb → AgentRecovery → Type 0
Kept db result row =
    ((result.1).recoveries ≡ db.recoveries ++ row ∷ [])
    × ((result.1).checkpoints ≡ db.checkpoints)
    × Agrees result.0 row

settle-Kept :
    (now : ℕ) (r : AgentRecovery) (outcome : Result Text RecoveryResult) (db mid : AgentDb)
    → any (λ x. x.id == r.id) db.recoveries ≡ false
    → mid.recoveries ≡ db.recoveries ++ r ∷ []
    → mid.checkpoints ≡ db.checkpoints
    → (row : AgentRecovery) × Kept db (settle now r (outcome, mid)) row
settle-Kept now r (ok result) db mid fresh same others = (
  completed_with now result r,
  (
    ap (update_where (λ (x : AgentRecovery). x.id == r.id) (completed_with now result)) same
        ∙ update-last (completed_with now result) r db.recoveries fresh,
    others,
    inl (refl, refl),
  ),
)
settle-Kept now r (err e) db mid fresh same others = (
  failed_with now e r,
  (
    ap (update_where (λ (x : AgentRecovery). x.id == r.id) (failed_with now e)) same
        ∙ update-last (failed_with now e) r db.recoveries fresh,
    others,
    inr (e, refl, refl, refl),
  ),
)

-- A recovery from a checkpoint that is there and recoverable is kept as one row, which is completed if the
-- call returns, and failed, with the message, if it raises: none stays running. Otherwise the call raises and
-- changes nothing.
pub recovery_is_settled :
    (id : ℕ) (strategy : Strategy) (executor : Option Executor) (new_id now : ℕ) (db : AgentDb)
    → any (λ (r : AgentRecovery). r.id == new_id) db.recoveries ≡ false
    → let result = recover_from_checkpoint id strategy executor new_id now db in
      ((row : AgentRecovery) × Kept db result row)
      ⊎ ((result.1 ≡ db)
          × ((result.0 ≡ err checkpoint_not_found) ⊎ (result.0 ≡ err not_recoverable)))
unfolding recover_from_checkpoint
recovery_is_settled id strategy executor new_id now db fresh =
    elim (Option-cases (find (λ (c : AgentCheckpoint). c.id == id) db.checkpoints)) [
      | inl e ↦ rw e (inr (refl, inl refl))
      | inr (c, e) ↦ rw e (elim (Bool-cases c.recoverable) [
        | inr f ↦ rw f (inr (refl, inr refl))
        | inl t ↦
            let r = new_recovery new_id strategy c in
            let mid : AgentDb = record db { recoveries = db.recoveries ++ r ∷ [] } in
            let run = run_strategy strategy executor now c mid in
            let (same, others) = strategy_keeps strategy executor now c mid in
            simp t (inl (settle-Kept now r run.0 db run.1 fresh same others))
      ])
    ]
