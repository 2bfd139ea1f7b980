-- ===== src/Documents/JobKeys.antt =====
-- The jobs that have the key of a request (services/api/src/tkp_api/services/ingestion.py).
use tkp_platform.Base.{
  update_where, ℕ, ◌≡◌, refl, ap, ◌∙◌, inl, inr, Bool, true, ◌++◌, some, some_inj, List, [], ◌∷◌,
  Bool-cases, Option-cases, any, find, arith, ==→eq, ◌==◌,
}
use tkp_platform.Base.AnyLaws.{any-append, any-update_keep}
use tkp_platform.Base.TableLaws.{find-passes}
use tkp_platform.Base.Text.{Text}
use tkp_platform.Base.TextLaws.{text_eq→eq}
use tkp_platform.Worker.Rows.{IngestionJob, Database}
use tkp_platform.Worker.Enqueue.{
  JobRequest, build_job_idempotency_key, has_idempotency_key, new_job, enqueue_ingestion_job,
}
use tkp_platform.Worker.Enqueued.{new_job-has_idempotency_key}

pub find-any {ℓ} :
    {A : Type ℓ} (p : A → Bool) (xs : List A) → any p xs ≡ true → (a : A) × (find p xs ≡ some a)
find-any p [] h = cc
find-any p (x ∷ xs) h = elim (Bool-cases (p x)) [
  | inl t ↦ (x, rw t refl)
  | inr f ↦ let (a, e) = find-any p xs (rw f at h) in (a, rw f e)
]

any-found {ℓ} :
    {A : Type ℓ} (p : A → Bool) (a : A) (xs : List A) → find p xs ≡ some a → any p xs ≡ true
any-found p a [] h = cc
any-found p a (x ∷ xs) h = elim (Bool-cases (p x)) [
  | inl t ↦ rw t refl
  | inr f ↦ rw f (any-found p a xs (rw f at h))
]

-- The row stands in the table.
abbrev pub IsRow {ℓ} : {A : Type ℓ} → A → List A → Type ℓ
IsRow a xs = (front : List _) × (back : List _) × (xs ≡ front ++ a ∷ back)

pub find-IsRow {ℓ} :
    {A : Type ℓ} (p : A → Bool) (xs : List A) (a : A) → find p xs ≡ some a → IsRow a xs
find-IsRow p [] a h = cc
find-IsRow p (x ∷ xs) a h = elim (Bool-cases (p x)) [
  | inl t ↦ ([], xs, ap (λ y. y ∷ xs) (some_inj (rw t at h)))
  | inr f ↦
      let (front, back, same) = find-IsRow p xs a (rw f at h) in
      (x ∷ front, back, ap (λ l. x ∷ l) same)
]

-- A job with the key of a tenant.
pub key_of_found :
    (show_id : ℕ → Text) (sha256 : Text → Text) (tenant : ℕ) (key : Text) (j : IngestionJob)
    → has_idempotency_key show_id sha256 tenant key j ≡ true
    → (j.tenant_id ≡ tenant) × (j.idempotency_key ≡ key)
key_of_found show_id sha256 tenant key j h = elim (Bool-cases (j.tenant_id == tenant)) [
  | inr f ↦ cc (rw f at h)
  | inl t ↦ (==→eq j.tenant_id tenant t, text_eq→eq j.idempotency_key key (rw t at h))
]

-- After a request for a job there is one with its key.
pub enqueue-any :
    (show_id : ℕ → Text) (sha256 : Text → Text) (id now limit : ℕ) (q : JobRequest) (db : Database)
    → any
        (has_idempotency_key show_id sha256 q.tenant_id
          (build_job_idempotency_key show_id sha256 q))
        (enqueue_ingestion_job show_id sha256 id now limit q db).1.jobs
      ≡ true
unfolding enqueue_ingestion_job
enqueue-any show_id sha256 id now limit q db =
    let same =
      has_idempotency_key show_id sha256 q.tenant_id (build_job_idempotency_key show_id sha256 q) in
    let job = new_job show_id sha256 id now limit q in
    elim (Option-cases (find same db.jobs)) [
      | inr (j, e) ↦ rw e (any-found same j db.jobs e)
      | inl e ↦ rw e (
          any-append same db.jobs (job ∷ [])
          ∙ rw (new_job-has_idempotency_key show_id sha256 id now limit q) (ground arith))
    ]

-- A request for a job whose key is taken gets the job that has it.
pub enqueue-taken :
    (show_id : ℕ → Text) (sha256 : Text → Text) (id now limit : ℕ) (q : JobRequest) (db : Database)
    (j : IngestionJob)
    → find
        (has_idempotency_key show_id sha256 q.tenant_id
          (build_job_idempotency_key show_id sha256 q))
        db.jobs
      ≡ some j
    → enqueue_ingestion_job show_id sha256 id now limit q db ≡ (j, db)
unfolding enqueue_ingestion_job
enqueue-taken show_id sha256 id now limit q db j e = rw e refl

-- The job that a request for one gets is in the table afterwards, and has the key.
pub enqueue-IsRow :
    (show_id : ℕ → Text) (sha256 : Text → Text) (id now limit : ℕ) (q : JobRequest) (db : Database)
    → let r = enqueue_ingestion_job show_id sha256 id now limit q db in
      IsRow r.0 r.1.jobs
      × (has_idempotency_key show_id sha256 q.tenant_id
            (build_job_idempotency_key show_id sha256 q)
            r.0
          ≡ true)
unfolding enqueue_ingestion_job
enqueue-IsRow show_id sha256 id now limit q db =
    let same =
      has_idempotency_key show_id sha256 q.tenant_id (build_job_idempotency_key show_id sha256 q) in
    let job = new_job show_id sha256 id now limit q in
    elim (Option-cases (find same db.jobs)) [
      | inr (j, e) ↦ rw e (find-IsRow same db.jobs j e, find-passes same db.jobs j e)
      | inl e ↦
          rw e ((db.jobs, [], refl), new_job-has_idempotency_key show_id sha256 id now limit q)
    ]

-- A key that a job has is still found after changes that keep the tenants and the keys.
pub still_found :
    (show_id : ℕ → Text) (sha256 : Text → Text) (tenant : ℕ) (key : Text) (p : IngestionJob → Bool)
    (f : IngestionJob → IngestionJob)
    → ((j : IngestionJob) → (f j).tenant_id ≡ j.tenant_id)
    → ((j : IngestionJob) → (f j).idempotency_key ≡ j.idempotency_key)
    → (jobs : List IngestionJob) → any (has_idempotency_key show_id sha256 tenant key) jobs ≡ true
    → (j : IngestionJob) × (find
          (has_idempotency_key show_id sha256 tenant key)
          (update_where p f jobs)
        ≡ some j)
      × (j.tenant_id ≡ tenant)
      × (j.idempotency_key ≡ key)
still_found show_id sha256 tenant key p f own keyed jobs there =
    let has = has_idempotency_key show_id sha256 tenant key in
    let (j, taken) =
      find-any has (update_where p f jobs)
        (any-update_keep has p f jobs (λ x t. rw (own x, keyed x) t) there) in
    let (own', keyed') =
      key_of_found show_id sha256 tenant key j (find-passes has (update_where p f jobs) j taken) in
    (j, taken, own', keyed')
