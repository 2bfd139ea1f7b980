-- ===== src/Documents/Reindexing.antt =====
-- The paths of `reindex_document` of services/api/src/tkp_api/api/documents.py.
use tkp_platform.Base.{
  ℕ, ◌≡◌, ◌⊎◌, refl, sym, ap, ◌∙◌, inl, inr, Option, none, some, List, filter, find,
}
use tkp_platform.Documents.JobKeys.{enqueue-taken}
use tkp_platform.Base.Result.{Result, ok, err, Result-cases, ok_inj}
use tkp_platform.Base.Text.{Text}
use tkp_platform.Worker.Rows.{IngestionJob, Document, DocumentVersion}
use tkp_platform.Worker.Enqueue.{
  build_job_idempotency_key, has_idempotency_key, enqueue_ingestion_job,
}
use tkp_platform.Access.Rows.{KnowledgeBase}
use tkp_platform.Access.Checks.{AccessError, scalar_one_or_none}
use tkp_platform.Documents.State.{
  Context, ApiDb, ApiError, access, version_missing, document_write, with_store, writable_document,
  check_action,
}
use tkp_platform.Documents.Upload.{Services, NewRows}
use tkp_platform.Documents.Change.{answer_with, reindex_request, reindex_document, is_current}

scalar-cases {ℓ κ} :
    {E : Type ℓ} {A : Type κ} (r : Result E (Option A))
    → ((a : A) × (r ≡ ok (some a))) ⊎ ((r ≡ ok none) ⊎ ((e : E) × (r ≡ err e)))
scalar-cases (ok (some a)) = inl (a, refl)
scalar-cases (ok none) = inr (inl refl)
scalar-cases (err e) = inr (inr (e, refl))

module _ (s : Services) (ctx : Context) (key : Option Text) (id : ℕ) where
  reindex_allowed :
      (ids : NewRows) (db : ApiDb) (d : Document) (kb : KnowledgeBase) (v : DocumentVersion)
      → writable_document ctx db document_write id ≡ ok (d, kb)
      → scalar_one_or_none (filter (is_current d) db.store.versions) ≡ ok (some v)
      → reindex_document s ctx ids key id db
        ≡ ok (
            answer_with s ctx ids key db (
              enqueue_ingestion_job s.files.show_uuid s.sha256 ids.job ids.now s.max_attempts
                (reindex_request s ctx ids key kb d v)
                db.store))
  unfolding reindex_document
  reindex_allowed ids db d kb v allowed current = rw (allowed, current) refl

  -- What a request has found, and the database that it leaves.
  pub record Reindexed (ids : NewRows) (db db' : ApiDb) (job : IngestionJob) : Type 0 where
    pub document : Document
    pub kb : KnowledgeBase
    pub version : DocumentVersion
    pub allowed : writable_document ctx db document_write id ≡ ok (document, kb)
    pub current :
        scalar_one_or_none (filter (is_current document) db.store.versions) ≡ ok (some version)
    pub result :
        db'
        ≡ with_store db
            (enqueue_ingestion_job s.files.show_uuid s.sha256 ids.job ids.now s.max_attempts
              (reindex_request s ctx ids key kb document version)
              db.store).1
    pub answered :
        job
        ≡ (enqueue_ingestion_job s.files.show_uuid s.sha256 ids.job ids.now s.max_attempts
            (reindex_request s ctx ids key kb document version)
            db.store).0

  reindex_denied :
      (ids : NewRows) (db : ApiDb) (e : ApiError)
      → writable_document ctx db document_write id ≡ err e
      → reindex_document s ctx ids key id db ≡ err e
  unfolding reindex_document
  reindex_denied ids db e refused = rw refused refl

  reindex_unversioned :
      (ids : NewRows) (db : ApiDb) (d : Document) (kb : KnowledgeBase)
      → writable_document ctx db document_write id ≡ ok (d, kb)
      → scalar_one_or_none (filter (is_current d) db.store.versions) ≡ ok none
      → reindex_document s ctx ids key id db ≡ err version_missing
  unfolding reindex_document
  reindex_unversioned ids db d kb allowed missing = rw (allowed, missing) refl

  reindex_ambiguous :
      (ids : NewRows) (db : ApiDb) (d : Document) (kb : KnowledgeBase) (e : AccessError)
      → writable_document ctx db document_write id ≡ ok (d, kb)
      → scalar_one_or_none (filter (is_current d) db.store.versions) ≡ err e
      → reindex_document s ctx ids key id db ≡ err (access e)
  unfolding reindex_document
  reindex_ambiguous ids db d kb e allowed several = rw (allowed, several) refl

  pub reindex-Reindexed :
      (ids : NewRows) (db : ApiDb) (job : IngestionJob) (db' : ApiDb)
      → reindex_document s ctx ids key id db ≡ ok (job, db')
      → Reindexed ids db db' job
  reindex-Reindexed ids db job db' h =
      elim (Result-cases (writable_document ctx db document_write id)) [
        | inr (e, refused) ↦ cc (h, reindex_denied ids db e refused)
        | inl (r, allowed) ↦
            elim (scalar-cases (scalar_one_or_none (filter (is_current r.0) db.store.versions))) [
              | inl (v, current) ↦
                  let answer = reindex_allowed ids db r.0 r.1 v allowed current in
                  record {
                    document = r.0;
                    kb = r.1;
                    version = v;
                    allowed = allowed;
                    current = current;
                    result = ap (λ (r : IngestionJob × ApiDb). r.1) (ok_inj (sym h ∙ answer));
                    answered = ap (λ (r : IngestionJob × ApiDb). r.0) (ok_inj (sym h ∙ answer));
                  }
              | inr (inl missing) ↦
                  let answer = reindex_unversioned ids db r.0 r.1 allowed missing in cc (h, answer)
              | inr (inr (e, several)) ↦
                  let answer = reindex_ambiguous ids db r.0 r.1 e allowed several in cc (h, answer)
            ]
      ]

  -- With its key taken, a request answers with the job that has it and changes nothing.
  pub reindex_reuses :
      (ids : NewRows) (db : ApiDb) (d : Document) (kb : KnowledgeBase) (v : DocumentVersion)
      (j : IngestionJob)
      → writable_document ctx db document_write id ≡ ok (d, kb)
      → scalar_one_or_none (filter (is_current d) db.store.versions) ≡ ok (some v)
      → find
          (has_idempotency_key s.files.show_uuid s.sha256 ctx.tenant_id (
            build_job_idempotency_key s.files.show_uuid s.sha256
              (reindex_request s ctx ids key kb d v)))
          db.store.jobs
        ≡ some j
      → reindex_document s ctx ids key id db ≡ ok (j, db)
  unfolding reindex_request
  reindex_reuses ids db d kb v j allowed current taken =
      let same =
        enqueue-taken s.files.show_uuid s.sha256 ids.job ids.now s.max_attempts
          (reindex_request s ctx ids key kb d v) db.store j taken in
      reindex_allowed ids db d kb v allowed current
      ∙ ap (λ r. ok (answer_with s ctx ids key db r)) same

-- Who may change a document does not depend on the jobs.
pub writable_document-jobs :
    (ctx : Context) (db : ApiDb) (action : Text) (id : ℕ) (jobs : List IngestionJob)
    → writable_document ctx (with_store db (record db.store { jobs = jobs })) action id
      ≡ writable_document ctx db action id
unfolding writable_document check_action
writable_document-jobs ctx db action id jobs = refl
