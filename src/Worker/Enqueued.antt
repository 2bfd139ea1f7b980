-- ===== src/Worker/Enqueued.antt =====
-- From the API to the worker: what becomes of a request for a job
-- (services/api/src/tkp_api/services/ingestion.py and services/worker/src/tkp_worker/main.py).
use tkp_platform.Base.{
  ℕ, ◌≡◌, ◌≢◌, ◌≤◌, refl, ◌∙◌, inl, inr, true, false, none, some, [], ◌∷◌, ◌++◌, find, any, arith,
  Option-cases, ==_refl,
}
use tkp_platform.Base.AnyLaws.{any-append}
use tkp_platform.Base.TableLaws.{find-append_new}
use tkp_platform.Base.Text.{Text}
use tkp_platform.Base.TextLaws.{text_eq_refl}
use tkp_platform.Worker.Rows.{Database}
use tkp_platform.Worker.Claim.{claimable, claim_next_job}
use tkp_platform.Worker.Claims.{claim_none_iff}
use tkp_platform.Worker.Enqueue.{
  JobRequest, build_job_idempotency_key, has_idempotency_key, new_job, enqueue_ingestion_job,
}

module _ (show_id : ℕ → Text) (sha256 : Text → Text) where
  pub new_job-has_idempotency_key :
      (id now limit : ℕ) (q : JobRequest)
      → has_idempotency_key show_id sha256 q.tenant_id
          (build_job_idempotency_key show_id sha256 q)
          (new_job show_id sha256 id now limit q)
        ≡ true
  unfolding new_job
  new_job-has_idempotency_key id now limit q =
      rw (==_refl q.tenant_id, text_eq_refl (build_job_idempotency_key show_id sha256 q)) refl

  new_job-claimable :
      (id now limit t timeout : ℕ) (q : JobRequest)
      → now ≤ t
      → claimable (λ _. false) t timeout (new_job show_id sha256 id now limit q) ≡ true
  unfolding new_job claimable
  new_job-claimable id now limit t timeout q le = ground (arith, le)

  -- A request that is made again gets the job of the first time, and adds none.
  enqueue_again :
      (id now limit id' now' limit' : ℕ) (q : JobRequest) (db : Database)
      → let first = enqueue_ingestion_job show_id sha256 id now limit q db in
        enqueue_ingestion_job show_id sha256 id' now' limit' q first.1 ≡ first
  unfolding enqueue_ingestion_job
  enqueue_again id now limit id' now' limit' q db =
      let key =
        has_idempotency_key show_id sha256 q.tenant_id
          (build_job_idempotency_key show_id sha256 q) in
      let job = new_job show_id sha256 id now limit q in
      elim (Option-cases (find key db.jobs)) [
        | inr (j, e) ↦ rw (e, e) refl
        | inl e ↦
            let again : find key (db.jobs ++ job ∷ []) ≡ some job =
              find-append_new key job db.jobs e (new_job-has_idempotency_key id now limit q) in
            rw e (rw again refl)
      ]

-- A request whose key is new adds a job that any worker can claim from then on, so that a claim does not come
-- back empty; made again, at whatever time, it gets that job and changes nothing.
pub enqueue_then_claim :
    (show_id : ℕ → Text) (sha256 : Text → Text) (id now limit id' now' limit' t timeout : ℕ)
    (worker : Text) (q : JobRequest) (db : Database)
    → find
        (has_idempotency_key show_id sha256 q.tenant_id
          (build_job_idempotency_key show_id sha256 q))
        db.jobs
      ≡ none
    → now ≤ t
    → let first = enqueue_ingestion_job show_id sha256 id now limit q db in
      ((claim_next_job (λ _. false) t worker timeout first.1).0 ≢ none)
      × (enqueue_ingestion_job show_id sha256 id' now' limit' q first.1 ≡ first)
unfolding enqueue_ingestion_job
enqueue_then_claim show_id sha256 id now limit id' now' limit' t timeout worker q db absent le =
    let job = new_job show_id sha256 id now limit q in
    let after : Database = record db { jobs = db.jobs ++ job ∷ [] } in
    let can = claimable (λ _. false) t timeout in
    let added : any can (db.jobs ++ job ∷ []) ≡ true =
      any-append can db.jobs (job ∷ [])
      ∙ rw (new_job-claimable show_id sha256 id now limit t timeout q le) (ground arith) in
    (
      rw absent (λ empty.
          let no = (claim_none_iff (λ _. false) t worker timeout after).0 empty in cc (added, no)),
      enqueue_again show_id sha256 id now limit id' now' limit' q db,
    )
