-- ===== src/Worker/Lifecycle.antt =====
-- What holds of every job between two rounds of the worker
-- (services/worker/src/tkp_worker/main.py).
use tkp_platform.Base.{
  ℕ, suc, ◌+◌, ◌≤◌, ◌<◌, ◌≡◌, ◌≢◌, refl, sym, ap, subst, Bool, true, false, none, some, List, [],
  ◌∷◌, arith, ◌==◌, map, filter, All, update_where, Bool-cases, inl, inr, ==→eq,
}
use tkp_platform.Base.TableLaws.{All-update_where}
use tkp_platform.Base.Text.{Text}
use tkp_platform.Worker.Rows.{DocumentStatus, JobStatus, Stage, IngestionJob, Database}
use tkp_platform.Worker.Claim.{oldest, take_job, ClaimedJob, returned}
use tkp_platform.Worker.Claims.{oldest-All, oldest-cases}
use tkp_platform.Worker.Outcome.{
  set_document_status, touched, touch_heartbeat, retry_later, give_up, succeeded,
}
use tkp_platform.Worker.Process.{
  Environment, Upload, staged, set_stage, clear_version, insert_chunks, index_chunks,
  advance_stages,
}

abbrev pub is_processing : JobStatus → Bool
is_processing JobStatus.processing = true
is_processing _ = false

-- Progress is a percentage; a job that waits for a retry has an attempt left; a job is locked
-- exactly while it is being processed; a finished job has a time of its end, and a completed one
-- has no error.
pub record IsConsistent (j : IngestionJob) : Type 0 where
  pub bounded : j.progress ≤ 100
  pub has_attempt : j.status ≡ JobStatus.retrying → j.attempt_count < j.max_attempts
  pub locked : is_processing j.status ≡ true → (j.locked_at ≢ none) × (j.locked_by ≢ none)
  pub unlocked : is_processing j.status ≡ false → (j.locked_at ≡ none) × (j.locked_by ≡ none)
  pub completed : j.status ≡ JobStatus.completed → (j.finished_at ≢ none) × (j.error ≡ none)
  pub dead : j.status ≡ JobStatus.dead_letter → (j.finished_at ≢ none) × (j.error ≢ none)

-- The row of the claimed job, while the worker has it.
pub record IsClaimed (c : ClaimedJob) (j : IngestionJob) : Type 0 where
  pub processing : j.id ≡ c.id → j.status ≡ JobStatus.processing
  pub attempts : j.id ≡ c.id → j.attempt_count ≡ c.attempt_count
  pub limit : j.id ≡ c.id → j.max_attempts ≡ c.max_attempts

abbrev pub Held : ClaimedJob → IngestionJob → Type 0
Held c j = IsConsistent j × IsClaimed c j

take_job-IsConsistent :
    (now : ℕ) (worker_id : Text) (j : IngestionJob) → IsConsistent (take_job now worker_id j)
unfolding take_job
take_job-IsConsistent now worker_id j = ground arith

pub succeeded-IsConsistent : (now : ℕ) (j : IngestionJob) → IsConsistent (succeeded now j)
unfolding succeeded
succeeded-IsConsistent now j = ground arith

pub retry_later-IsConsistent :
    (now delay : ℕ) (e : Text) (j : IngestionJob)
    → j.attempt_count < j.max_attempts
    → IsConsistent (retry_later now delay e j)
unfolding retry_later
retry_later-IsConsistent now delay e j h = ground arith

pub give_up-IsConsistent : (now : ℕ) (e : Text) (j : IngestionJob) → IsConsistent (give_up now e j)
unfolding give_up
give_up-IsConsistent now e j = ground arith

abbrev pub job_ids : List IngestionJob → List ℕ
job_ids = map (λ (j : IngestionJob). j.id)

abbrev pub Distinct : List ℕ → Type 0
Distinct [] = Unit
Distinct (a ∷ rest) = All (λ (b : ℕ). b ≢ a) rest × Distinct rest

-- The primary key: no two rows have one id.
abbrev pub UniqueIds : List IngestionJob → Type 0
UniqueIds js = Distinct (job_ids js)

unfoldable pub Same : IngestionJob → IngestionJob → Type 0
Same c k = k.id ≡ c.id → k ≡ c

Same-rest :
    (j : IngestionJob) (js : List IngestionJob)
    → All (λ (b : ℕ). b ≢ j.id) (job_ids js)
    → All (Same j) js
unfolding Same
Same-rest j [] h = tt
Same-rest j (k ∷ js) h = (λ e. absurd (h.0 e), Same-rest j js h.1)

others-ne :
    (a : ℕ) (js : List IngestionJob)
    → All (λ (b : ℕ). b ≢ a) (job_ids js)
    → All (λ (k : IngestionJob). k.id ≢ a) js
others-ne a [] h = tt
others-ne a (k ∷ js) h = (h.0, others-ne a js h.1)

-- The chosen row is the only one of its id.
pub oldest-Same :
    (p : IngestionJob → Bool) (js : List IngestionJob) (c : IngestionJob)
    → UniqueIds js
    → oldest (filter p js) ≡ some c
    → All (Same c) js
unfolding Same
oldest-Same p [] c u h = tt
oldest-Same p (j ∷ js) c u h = elim (oldest-cases p j js c h) [
  | inl e ↦ (λ _. e, subst (λ (k : IngestionJob). All (Same k) js) e (Same-rest j js u.0))
  | inr e ↦ (
    λ same_id. absurd (
        oldest-All p (λ (k : IngestionJob). k.id ≢ j.id) js c (others-ne j.id js u.0) e
          (sym same_id)),
    oldest-Same p js c u.1 e,
  )
]

module _ (now : ℕ) (worker_id : Text) (c : IngestionJob) where
  claimed :
      (j : IngestionJob)
      → j ≡ c
      → IsClaimed (returned (take_job now worker_id c)) (take_job now worker_id j)
  unfolding take_job
  claimed j e = record {
    processing = λ _. refl;
    attempts = λ _. ap (λ (k : IngestionJob). k.attempt_count + 1) e;
    limit = λ _. ap (λ (k : IngestionJob). k.max_attempts) e;
  }

  pub taken-Held :
      (js : List IngestionJob)
      → All (Same c) js
      → All IsConsistent js
      → All
          (Held (returned (take_job now worker_id c)))
          (update_where (λ k. k.id == c.id) (take_job now worker_id) js)
  unfolding Same take_job
  taken-Held [] s h = tt
  taken-Held (j ∷ js) s h = elim (Bool-cases (j.id == c.id)) [
    | inl t ↦ rw t (
      (take_job-IsConsistent now worker_id j, claimed j (s.0 (==→eq j.id c.id t))),
      taken-Held js s.1 h.1,
    )
    | inr f ↦ rw f ((h.0, ground arith), taken-Held js s.1 h.1)
  ]

unfoldable pub AllHeld : ClaimedJob → Database → Type 0
AllHeld c db = All (Held c) db.jobs

staged-Held :
    (c : ClaimedJob) (now progress : ℕ) (stage : Stage) (j : IngestionJob)
    → progress ≤ 100
    → Held c j
    → Held c (staged now stage progress j)
unfolding staged
staged-Held c now progress stage j le (h, k) = (
  record {
    bounded = le;
    has_attempt = h.has_attempt;
    locked = h.locked;
    unlocked = h.unlocked;
    completed = h.completed;
    dead = h.dead;
  },
  record { processing = k.processing; attempts = k.attempts; limit = k.limit },
)

set_stage-Held :
    (c : ClaimedJob) (now id progress : ℕ) (stage : Stage) (db : Database)
    → progress ≤ 100
    → AllHeld c db
    → AllHeld c (set_stage now id stage progress db)
unfolding AllHeld set_stage
set_stage-Held c now id progress stage db le =
    All-update_where (Held c) (λ j. j.id == id) (staged now stage progress) db.jobs
      λ j h _. staged-Held c now progress stage j le h

touched-Held :
    (c : ClaimedJob) (now : ℕ) (worker_id : Text) (j : IngestionJob)
    → j.id ≡ c.id
    → Held c j
    → Held c (touched now worker_id j)
unfolding touched
touched-Held c now worker_id j e (h, k) = (
  ground (arith, k.processing e),
  record { processing = k.processing; attempts = k.attempts; limit = k.limit },
)

touch_heartbeat-Held :
    (c : ClaimedJob) (now : ℕ) (worker_id : Text) (db : Database)
    → AllHeld c db
    → AllHeld c (touch_heartbeat now c.id worker_id db)
unfolding AllHeld touch_heartbeat
touch_heartbeat-Held c now worker_id db =
    All-update_where (Held c) (λ j. j.id == c.id) (touched now worker_id) db.jobs
      λ j h t. touched-Held c now worker_id j (==→eq j.id c.id t) h

pub insert_chunks-jobs :
    (env : Environment) (u : Upload) (idx : ℕ) (cs : List Text) (vs : List (List Text))
    (db : Database)
    → (insert_chunks env u idx cs vs db).jobs ≡ db.jobs
unfolding insert_chunks
insert_chunks-jobs env u idx [] vs db = refl
insert_chunks-jobs env u idx (c ∷ cs) [] db = refl
insert_chunks-jobs env u idx (c ∷ cs) (v ∷ vs) db = insert_chunks-jobs env u (suc idx) cs vs _

pub advance_stages-Held :
    (c : ClaimedJob) (now : ℕ) (worker_id : Text) (db : Database)
    → AllHeld c db
    → AllHeld c (advance_stages now c worker_id db)
unfolding advance_stages
advance_stages-Held c now worker_id db h =
    let begun = set_document_status now c.document_id DocumentStatus.processing db in
    let touched_db = touch_heartbeat now c.id worker_id begun in
    let parsing_db = set_stage now c.id Stage.parsing 20 touched_db in
    let chunking_db = set_stage now c.id Stage.chunking 40 parsing_db in
    set_stage-Held c now c.id 60 Stage.embedding chunking_db (omega arith) (
      set_stage-Held c now c.id 40 Stage.chunking parsing_db (omega arith) (
        set_stage-Held c now c.id 20 Stage.parsing touched_db (omega arith)
          (touch_heartbeat-Held c now worker_id begun (unfold AllHeld in h))))

pub index_chunks-Held :
    (env : Environment) (c : ClaimedJob) (u : Upload) (cs : List Text) (vs : List (List Text))
    (db : Database)
    → AllHeld c db
    → AllHeld c (index_chunks env c u cs vs db)
unfolding index_chunks AllHeld clear_version
index_chunks-Held env c u cs vs db h = rw (insert_chunks-jobs env u 0 cs vs) (
    set_stage-Held c u.now c.id 80 Stage.indexing (clear_version c.document_version_id db)
      (omega arith) h)
