-- ===== src/Worker/Abandoned.antt =====
-- What becomes of a job whose worker stops between the claim and the end of the round
-- (services/worker/src/tkp_worker/main.py).
use tkp_platform.Base.{
  ℕ, ◌≡◌, ◌≢◌, refl, sym, ap, subst, ◌∙◌, Bool, Option, none, some, List, [], ◌∷◌, arith, ◌==◌, All,
  update_where, inl, inr, if◌then◌else◌, ==→eq,
}
use tkp_platform.Base.Result.{Result-cases}
use tkp_platform.Base.TableLaws.{All-update_where}
use tkp_platform.Base.Text.{Text}
use tkp_platform.Worker.Rows.{Stage, IngestionJob, Database, is_waiting, DocumentStatus}
use tkp_platform.Worker.Claim.{claimable, take_job, ClaimedJob, claim_next_job}
use tkp_platform.Worker.Claims.{
  TakenIsProcessing, oldest-some, oldest-All, claimable_waiting, claim-candidate, claim-jobs,
  claim_none-db, claim_takes-All,
}
use tkp_platform.Worker.Outcome.{
  set_document_status, touch_heartbeat, touched, should_retry, mark_success, mark_failure,
  retry_later, give_up, succeeded,
}
use tkp_platform.Worker.Process.{
  Environment, Upload, staged, set_stage, clear_version, index_chunks, advance_stages, process_job,
}
use tkp_platform.Worker.Ingest.{process-Ingested}
use tkp_platform.Worker.Lifecycle.{insert_chunks-jobs}
use tkp_platform.Worker.Loop.{
  Settings, Times, Round, finish_round, run_claimed, run_round, run_rounds,
}

-- Every row of this id is being processed.
pub Processing : ℕ → Database → Type 0
Processing id db = All (TakenIsProcessing id) db.jobs

module _ (id : ℕ) where
  other_rows :
      (a : ℕ) (f : IngestionJob → IngestionJob) (js : List IngestionJob)
      → ((j : IngestionJob) → (f j).id ≡ j.id)
      → a ≢ id
      → All (TakenIsProcessing id) js
      → All (TakenIsProcessing id) (update_where (λ j. j.id == a) f js)
  unfolding TakenIsProcessing
  other_rows a f js keeps ne =
      All-update_where (TakenIsProcessing id) (λ j. j.id == a) f js
        λ j h t e. absurd (ne (sym (==→eq j.id a t) ∙ sym (keeps j) ∙ e))

  set_stage-Processing :
      (now progress : ℕ) (c : ClaimedJob) (stage : Stage) (db : Database)
      → c.id ≢ id
      → Processing id db
      → Processing id (set_stage now c.id stage progress db)
  unfolding set_stage Processing
  set_stage-Processing now progress c stage db =
      other_rows c.id (staged now stage progress) db.jobs (λ j. unfold staged in refl)

  touch_heartbeat-Processing :
      (now : ℕ) (worker_id : Text) (c : ClaimedJob) (db : Database)
      → c.id ≢ id
      → Processing id db
      → Processing id (touch_heartbeat now c.id worker_id db)
  unfolding touch_heartbeat Processing
  touch_heartbeat-Processing now worker_id c db =
      other_rows c.id (touched now worker_id) db.jobs (λ j. unfold touched in refl)

  advance_stages-Processing :
      (now : ℕ) (worker_id : Text) (c : ClaimedJob) (db : Database)
      → c.id ≢ id
      → Processing id db
      → Processing id (advance_stages now c worker_id db)
  unfolding advance_stages
  advance_stages-Processing now worker_id c db ne h =
      let begun = set_document_status now c.document_id DocumentStatus.processing db in
      let touched_db = touch_heartbeat now c.id worker_id begun in
      let parsing_db = set_stage now c.id Stage.parsing 20 touched_db in
      let chunking_db = set_stage now c.id Stage.chunking 40 parsing_db in
      set_stage-Processing now 60 c Stage.embedding chunking_db ne (
        set_stage-Processing now 40 c Stage.chunking parsing_db ne (
          set_stage-Processing now 20 c Stage.parsing touched_db ne
            (touch_heartbeat-Processing now worker_id c begun ne (unfold Processing in h))))

  index_chunks-Processing :
      (env : Environment) (c : ClaimedJob) (u : Upload) (cs : List Text) (vs : List (List Text))
      (db : Database)
      → c.id ≢ id
      → Processing id db
      → Processing id (index_chunks env c u cs vs db)
  unfolding index_chunks Processing clear_version
  index_chunks-Processing env c u cs vs db ne h =
      rw (insert_chunks-jobs env u 0 cs vs) (
        set_stage-Processing u.now 80 c Stage.indexing (clear_version c.document_version_id db) ne
          h)

  failed_id :
      (c : ClaimedJob) (now delay : ℕ) (e : Text) (j : IngestionJob)
      → (if should_retry c e then retry_later now delay e j else give_up now e j).id ≡ j.id
  unfolding retry_later give_up
  failed_id c now delay e j = ground arith

  finish_round-Processing :
      (env : Environment) (s : Settings) (t : Times) (c : ClaimedJob) (db : Database)
      → c.id ≢ id
      → Processing id db
      → Processing id (finish_round s t c (process_job env c t.work s.worker_id db) db)
  unfolding finish_round mark_success mark_failure Processing
  finish_round-Processing env s t c db ne h =
      elim (Result-cases (process_job env c t.work s.worker_id db)) [
        | inl (db', e) ↦
            let r = process-Ingested env c t.work s.worker_id db db' e in
            rw e (
              other_rows c.id (succeeded t.work) db'.jobs (λ j. unfold succeeded in refl) ne
                (subst (Processing id) (sym r.result) (
                  index_chunks-Processing env c _ _ _ (advance_stages t.work c s.worker_id db) ne
                    (advance_stages-Processing t.work s.worker_id c db ne h))))
        | inr (x, e) ↦ rw e (other_rows c.id _ db.jobs (failed_id c _ _ _) ne h)
      ]

  claim-Processing :
      (held : ℕ → Bool) (now : ℕ) (worker_id : Text) (timeout : ℕ) (db : Database) (c : ClaimedJob)
      → (claim_next_job held now worker_id timeout db).0 ≡ some c
      → Processing id db
      → (c.id ≢ id) × Processing id (claim_next_job held now worker_id timeout db).1
  unfolding TakenIsProcessing Processing
  claim-Processing held now worker_id timeout db c e h =
      let (j, chosen, r) = claim-candidate held now worker_id timeout db c e in
      let p = claimable held now timeout in
      let same : j.id ≡ c.id = unfold take_job in ap (λ (k : ClaimedJob). k.id) r in
      let waits = claimable_waiting held now timeout j (oldest-some p db.jobs j chosen).0 in
      let busy = oldest-All p (TakenIsProcessing id) db.jobs j h chosen in
      let ne : j.id ≢ id = λ e'. cc (ap is_waiting (busy e'), waits) in
      (
        λ e'. ne (same ∙ e'),
        rw (claim-jobs held now worker_id timeout db j chosen)
            (other_rows j.id (take_job now worker_id) db.jobs (λ k. unfold take_job in refl) ne h),
      )

  run_claimed-Processing :
      (env : Environment) (s : Settings) (t : Times) (claimed : Option ClaimedJob × Database)
      → (claimed.0 ≡ none → Processing id claimed.1)
      → ((c : ClaimedJob) → claimed.0 ≡ some c → (c.id ≢ id) × Processing id claimed.1)
      → Processing id (run_claimed env s t claimed)
  unfolding run_claimed
  run_claimed-Processing env s t (none, db) idle taken = idle refl
  run_claimed-Processing env s t (some c, db) idle taken =
      let (ne, h) = taken c refl in unfold finish_round in finish_round-Processing env s t c db ne h

  run_round-Processing :
      (r : Round) (db : Database)
      → Processing id db
      → Processing id (run_round r.env r.settings r.held r.times db)
  unfolding run_round
  run_round-Processing r db h =
      let s = r.settings in
      run_claimed-Processing r.env s r.times
        (claim_next_job r.held r.times.claim s.worker_id s.lock_timeout_seconds db)
        (λ e. rw (claim_none-db r.held r.times.claim s.worker_id s.lock_timeout_seconds db e) h)
        (λ c e. claim-Processing r.held r.times.claim s.worker_id s.lock_timeout_seconds db c e h)

  run_rounds-Processing :
      (rs : List Round) (db : Database) → Processing id db → Processing id (run_rounds rs db)
  unfolding run_rounds
  run_rounds-Processing [] db h = h
  run_rounds-Processing (r ∷ rs) db h =
      run_rounds-Processing rs _ (unfold run_round in run_round-Processing r db h)

-- A job whose worker stops after the claim is never taken up again: whatever rounds of whatever
-- workers follow, at whatever times and with whatever lock timeouts, its row stays in processing.
pub abandoned_job_stays :
    (held : ℕ → Bool) (now : ℕ) (worker_id : Text) (timeout : ℕ) (db : Database) (c : ClaimedJob)
    (rs : List Round)
    → (claim_next_job held now worker_id timeout db).0 ≡ some c
    → All
        (TakenIsProcessing c.id)
        (run_rounds rs (claim_next_job held now worker_id timeout db).1).jobs
abandoned_job_stays held now worker_id timeout db c rs e =
    unfold Processing in
    run_rounds-Processing c.id rs (claim_next_job held now worker_id timeout db).1
      (claim_takes-All held now worker_id timeout db c e)
