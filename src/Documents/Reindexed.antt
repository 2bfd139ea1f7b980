-- ===== src/Documents/Reindexed.antt =====
-- When `reindex_document` of services/api/src/tkp_api/api/documents.py adds a job.
use tkp_platform.Base.{
  ℕ, ◌≡◌, sym, ap, ◌∙◌, subst, Bool, true, Option, some, [], ◌∷◌, ◌==◌, ◌&&◌, ==→eq, any, filter,
  find, update_where,
}
use tkp_platform.Base.TableLaws.{find-passes}
use tkp_platform.Access.Granted.{scalar-one}
use tkp_platform.Documents.JobKeys.{
  IsRow, still_found, find-IsRow, key_of_found, enqueue-any, enqueue-IsRow,
}
use tkp_platform.Documents.Found.{
  writable_document-Granted, read_document-FoundDocument, read_document-kb,
}
use tkp_platform.Base.Result.{ok}
use tkp_platform.Base.Text.{Text, codes}
use tkp_platform.Worker.Rows.{IngestionJob, Document, DocumentVersion, Database}
use tkp_platform.Worker.Enqueue.{
  build_job_idempotency_key, has_idempotency_key, enqueue_ingestion_job,
}
use tkp_platform.Access.Rows.{KnowledgeBase}
use tkp_platform.Documents.State.{Context, ApiDb, document_write, with_store, access_of, principal}
use tkp_platform.Documents.Upload.{Services, NewRows}
use tkp_platform.Documents.Change.{reindex_request, reindex_document, is_current}
use tkp_platform.Documents.Effects.{enqueue-jobs}
use tkp_platform.Documents.Reindexing.{reindex-Reindexed, reindex_reuses, writable_document-jobs}

-- The jobs as they are later, with any change to any of them that keeps its key.
abbrev pub later_jobs : (IngestionJob → Bool) → (IngestionJob → IngestionJob) → ApiDb → ApiDb
later_jobs p f db = with_store db (record db.store { jobs = update_where p f db.store.jobs })

-- The job of a request to index the document again: the document and its knowledge base are rows, as is the
-- current version, and the job has the tenant of the request and the key of these three and the client's key.
pub record IsReindexJob (s : Services) (ctx : Context) (key : Option Text) (id : ℕ) (db : ApiDb)
    (job : IngestionJob) : Type 0 where
  pub document : Document
  pub kb : KnowledgeBase
  pub version : DocumentVersion
  pub found : find (λ (x : Document). x.id == id) db.store.documents ≡ some document
  pub stands_in :
      find (λ (x : KnowledgeBase). x.id == document.kb_id) (access_of db).knowledge_bases ≡ some kb
  pub current :
      filter
        (λ (v : DocumentVersion). v.document_id == id && v.version == document.current_version)
        db.store.versions
      ≡ version ∷ []
  pub tenant : job.tenant_id ≡ ctx.tenant_id
  pub keyed :
      job.idempotency_key
      ≡ build_job_idempotency_key s.files.show_uuid s.sha256 (record {
        tenant_id = ctx.tenant_id;
        workspace_id = kb.workspace_id;
        kb_id = document.kb_id;
        document_id = id;
        document_version_id = version.id;
        action = codes "reindex";
        client_idempotency_key = key;
      })

reindex-IsReindexJob :
    (s : Services) (ctx : Context) (ids : NewRows) (key : Option Text) (id : ℕ) (db : ApiDb)
    (job : IngestionJob) (db' : ApiDb)
    → reindex_document s ctx ids key id db ≡ ok (job, db')
    → IsReindexJob s ctx key id db job × IsRow job db'.store.jobs
unfolding reindex_request
reindex-IsReindexJob s ctx ids key id db job db' h =
    let r = reindex-Reindexed s ctx key id ids db job db' h in
    let q = reindex_request s ctx ids key r.kb r.document r.version in
    let (_, read, _) = writable_document-Granted ctx db document_write id _ r.allowed in
    let (found, _, _) =
      read_document-FoundDocument (access_of db) (principal ctx) id r.document r.kb read in
    let same : r.document.id ≡ id =
      ==→eq r.document.id id
        (find-passes (λ (x : Document). x.id == id) db.store.documents r.document found) in
    let (row, has) =
      enqueue-IsRow s.files.show_uuid s.sha256 ids.job ids.now s.max_attempts q db.store in
    let enqueued =
      enqueue_ingestion_job s.files.show_uuid s.sha256 ids.job ids.now s.max_attempts q db.store in
    let (own, keyed) =
      key_of_found s.files.show_uuid s.sha256 ctx.tenant_id
        (build_job_idempotency_key s.files.show_uuid s.sha256 q) enqueued.0 has in
    (
      record {
        document = r.document;
        kb = r.kb;
        version = r.version;
        found = found;
        stands_in = read_document-kb (access_of db) (principal ctx) id r.document r.kb read;
        current =
            subst
              (λ n.
                filter
                  (λ (v : DocumentVersion).
                    v.document_id == n && v.version == r.document.current_version)
                  db.store.versions
                ≡ r.version ∷ [])
              same
              (scalar-one (filter (is_current r.document) db.store.versions) r.version r.current);
        tenant = ap (λ (j : IngestionJob). j.tenant_id) r.answered ∙ own;
        keyed =
            ap (λ (j : IngestionJob). j.idempotency_key) r.answered
            ∙ keyed
            ∙ ap
                (λ n. build_job_idempotency_key s.files.show_uuid s.sha256 (record {
                  tenant_id = ctx.tenant_id;
                  workspace_id = r.kb.workspace_id;
                  kb_id = r.document.kb_id;
                  document_id = n;
                  document_version_id = r.version.id;
                  action = codes "reindex";
                  client_idempotency_key = key;
                }))
                same;
      },
      subst (λ (x : ApiDb). IsRow job x.store.jobs) (sym r.result)
          (subst (λ (j : IngestionJob). IsRow j enqueued.1.jobs) (sym r.answered) row),
    )

-- A document is indexed again once. A request to index it again answers with a job that is in the table then
-- and has the key of the document, its current version and the key of the request. After it, the same request
-- adds no job and changes nothing, whatever has become of the jobs in between, so long as their tenants and keys
-- stay: it answers with a job of the table that has the same tenant and key, be that completed, dead or on its
-- way.
pub reindex_once :
    (s : Services) (ctx : Context) (ids ids' : NewRows) (key : Option Text) (id : ℕ) (db : ApiDb)
    (job : IngestionJob) (db' : ApiDb) (p : IngestionJob → Bool) (f : IngestionJob → IngestionJob)
    → ((j : IngestionJob) → (f j).tenant_id ≡ j.tenant_id)
    → ((j : IngestionJob) → (f j).idempotency_key ≡ j.idempotency_key)
    → reindex_document s ctx ids key id db ≡ ok (job, db')
    → IsReindexJob s ctx key id db job
      × IsRow job db'.store.jobs
      × (j : IngestionJob) × (reindex_document s ctx ids' key id (later_jobs p f db')
          ≡ ok (j, later_jobs p f db'))
      × IsRow j (later_jobs p f db').store.jobs
      × (j.tenant_id ≡ job.tenant_id)
      × (j.idempotency_key ≡ job.idempotency_key)
unfolding reindex_request
reindex_once s ctx ids ids' key id db job db' p f tenant same h =
    let (names, row) = reindex-IsReindexJob s ctx ids key id db job db' h in
    let r = reindex-Reindexed s ctx key id ids db job db' h in
    let q = reindex_request s ctx ids key r.kb r.document r.version in
    let text = build_job_idempotency_key s.files.show_uuid s.sha256 q in
    let enqueued =
      enqueue_ingestion_job s.files.show_uuid s.sha256 ids.job ids.now s.max_attempts q db.store in
    let has = has_idempotency_key s.files.show_uuid s.sha256 ctx.tenant_id text in
    let (_, first) =
      enqueue-IsRow s.files.show_uuid s.sha256 ids.job ids.now s.max_attempts q db.store in
    let (own, keyed) =
      key_of_found s.files.show_uuid s.sha256 ctx.tenant_id text enqueued.0 first in
    let (jobs, only) =
      enqueue-jobs s.files.show_uuid s.sha256 ids.job ids.now s.max_attempts q db.store in
    let (j, taken, own', keyed') =
      still_found s.files.show_uuid s.sha256 ctx.tenant_id text p f tenant same jobs (
        subst (λ (x : Database). any has x.jobs ≡ true) only
          (enqueue-any s.files.show_uuid s.sha256 ids.job ids.now s.max_attempts q db.store)) in
    let left : ApiDb = with_store db (record db.store { jobs = jobs }) in
    let is_left : left ≡ db' = ap (with_store db) (sym only) ∙ sym r.result in
    let again =
      reindex_reuses s ctx key id ids' (later_jobs p f left) r.document r.kb r.version j
        (writable_document-jobs ctx db document_write id (update_where p f jobs) ∙ r.allowed)
        r.current taken in
    (
      names,
      row,
      j,
      subst
          (λ (x : ApiDb).
            reindex_document s ctx ids' key id (later_jobs p f x) ≡ ok (j, later_jobs p f x))
          is_left again,
      subst (λ (x : ApiDb). IsRow j (later_jobs p f x).store.jobs) is_left
          (find-IsRow has (update_where p f jobs) j taken),
      own' ∙ sym own ∙ sym (ap (λ (x : IngestionJob). x.tenant_id) r.answered),
      keyed' ∙ sym keyed ∙ sym (ap (λ (x : IngestionJob). x.idempotency_key) r.answered),
    )
