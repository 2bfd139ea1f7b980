-- ===== src/Worker/Rounds.antt =====
-- What any number of rounds of the worker's loop keep (`main` of
-- services/worker/src/tkp_worker/main.py).
use tkp_platform.Base.{
  ℕ, ◌<◌, ◌≡◌, refl, sym, subst, Bool, true, Option, none, some, arith, ◌==◌, All, update_where,
  Bool-cases, inl, inr, if◌then◌else◌, take, ==→eq,
}
use tkp_platform.Base.Result.{Result-cases}
use tkp_platform.Base.TableLaws.{All-update_to}
use tkp_platform.Base.Text.{Text}
use tkp_platform.Worker.Rows.{IngestionJob, Database}
use tkp_platform.Worker.Claim.{claimable, take_job, ClaimedJob, claim_next_job}
use tkp_platform.Worker.Claims.{claim_none-db, claim-candidate, claim-jobs}
use tkp_platform.Worker.Outcome.{
  should_retry, mark_success, mark_failure, retry_delay, retry_later, give_up, succeeded,
}
use tkp_platform.Worker.Process.{Environment, advance_stages, process_job}
use tkp_platform.Worker.Ingest.{process-Ingested}
use tkp_platform.Worker.Lifecycle.{
  IsConsistent, Held, AllHeld, UniqueIds, oldest-Same, taken-Held, advance_stages-Held,
  index_chunks-Held, succeeded-IsConsistent, retry_later-IsConsistent, give_up-IsConsistent,
}
use tkp_platform.Worker.Loop.{Settings, Times, finish_round, run_claimed, run_round}

abbrev pub AllConsistent : Database → Type 0
AllConsistent db = All IsConsistent db.jobs

mark_success-All :
    (c : ClaimedJob) (now : ℕ) (db : Database)
    → AllHeld c db
    → AllConsistent (mark_success now c.id db)
unfolding mark_success AllHeld
mark_success-All c now db =
    All-update_to (Held c) IsConsistent (λ j. j.id == c.id) (succeeded now) db.jobs
      (λ j h _. succeeded-IsConsistent now j) (λ j h _. h.0)

should_retry-lt :
    (c : ClaimedJob) (e : Text) → should_retry c e ≡ true → c.attempt_count < c.max_attempts
unfolding should_retry
should_retry-lt c e h = ground arith

-- The row after a failure.
failed-IsConsistent :
    (now delay : ℕ) (c : ClaimedJob) (e : Text) (j : IngestionJob)
    → j.id ≡ c.id
    → Held c j
    → IsConsistent (if should_retry c e then retry_later now delay e j else give_up now e j)
failed-IsConsistent now delay c e j same (h, k) = elim (Bool-cases (should_retry c e)) [
  | inl t ↦ rw t (
      retry_later-IsConsistent now delay e j
        (omega (arith, should_retry-lt c e t, k.attempts same, k.limit same)))
  | inr f ↦ rw f (give_up-IsConsistent now e j)
]

mark_failure-All :
    (c : ClaimedJob) (now base maximum : ℕ) (e : Text) (db : Database)
    → AllHeld c db
    → AllConsistent (mark_failure now c base maximum e db)
unfolding mark_failure AllHeld
mark_failure-All c now base maximum e db =
    All-update_to (Held c) IsConsistent (λ j. j.id == c.id) _ db.jobs
      (λ j h t.
        failed-IsConsistent now (retry_delay base maximum c.attempt_count) c e j (==→eq j.id c.id t)
          h)
      (λ j h _. h.0)

-- What the claim leaves behind.
claim-AllHeld :
    (held : ℕ → Bool) (now : ℕ) (worker_id : Text) (timeout : ℕ) (db : Database) (c : ClaimedJob)
    → UniqueIds db.jobs
    → AllConsistent db
    → (claim_next_job held now worker_id timeout db).0 ≡ some c
    → AllHeld c (claim_next_job held now worker_id timeout db).1
claim-AllHeld held now worker_id timeout db c u h e =
    let (j, chosen, r) = claim-candidate held now worker_id timeout db c e in
    rw (claim-jobs held now worker_id timeout db j chosen) (
      subst
        (λ (x : ClaimedJob).
          AllHeld x (record db {
            jobs = update_where (λ k. k.id == j.id) (take_job now worker_id) db.jobs;
          }))
        r
        (unfold AllHeld take_job in
          taken-Held now worker_id j db.jobs
            (oldest-Same (claimable held now timeout) db.jobs j u chosen) h))

finish_round-All :
    (env : Environment) (s : Settings) (t : Times) (c : ClaimedJob) (db : Database)
    → AllHeld c db
    → AllConsistent (finish_round s t c (process_job env c t.work s.worker_id db) db)
unfolding finish_round
finish_round-All env s t c db h = elim (Result-cases (process_job env c t.work s.worker_id db)) [
  | inl (db', e) ↦
      let r = process-Ingested env c t.work s.worker_id db db' e in
      rw e (
        mark_success-All c t.work db' (
          subst (AllHeld c) (sym r.result) (
            index_chunks-Held env c _ _ _ (advance_stages t.work c s.worker_id db)
              (advance_stages-Held c t.work s.worker_id db h))))
  | inr (x, e) ↦
      rw e
        (mark_failure-All c t.failure s.retry_base_seconds s.retry_max_seconds (take 2000 x) db h)
]

run_claimed-All :
    (env : Environment) (s : Settings) (t : Times) (claimed : Option ClaimedJob × Database)
    → (claimed.0 ≡ none → AllConsistent claimed.1)
    → ((c : ClaimedJob) → claimed.0 ≡ some c → AllHeld c claimed.1)
    → AllConsistent (run_claimed env s t claimed)
unfolding run_claimed
run_claimed-All env s t (none, db) idle taken = idle refl
run_claimed-All env s t (some c, db) idle taken =
    unfold finish_round in finish_round-All env s t c db (taken c refl)

-- A round of the worker keeps every job consistent, whether it finds no job, completes one, puts
-- one off or gives one up, and whatever the storage, the parsers and the embedding service return.
pub run_round-IsConsistent :
    (env : Environment) (s : Settings) (held : ℕ → Bool) (t : Times) (db : Database)
    → UniqueIds db.jobs
    → AllConsistent db
    → AllConsistent (run_round env s held t db)
unfolding run_round
run_round-IsConsistent env s held t db u h =
    run_claimed-All env s t (claim_next_job held t.claim s.worker_id s.lock_timeout_seconds db)
      (λ e. rw (claim_none-db held t.claim s.worker_id s.lock_timeout_seconds db e) h)
      (λ c e. claim-AllHeld held t.claim s.worker_id s.lock_timeout_seconds db c u h e)
