-- ===== src/Documents/Uploads.antt =====
-- `upload_document` of services/api/src/tkp_api/api/documents.py: what it promises as a whole.
use tkp_platform.Base.{
  ℕ, ◌≤◌, ◌≡◌, ◌≢◌, ◌⊎◌, refl, sym, ap, ◌∙◌, subst, inl, inr, false, none, some, some_inj, [], ◌∷◌,
  ◌++◌, All, All-append, arith, find,
}
use tkp_platform.Base.Result.{ok, err, ok_inj}
use tkp_platform.Base.Text.{Text}
use tkp_platform.Worker.Rows.{Document, DocumentVersion, Database}
use tkp_platform.Worker.Claim.{claim_next_job}
use tkp_platform.Worker.Enqueue.{has_idempotency_key, build_job_idempotency_key}
use tkp_platform.Worker.Enqueued.{enqueue_then_claim}
use tkp_platform.Access.Rows.{KnowledgeBase}
use tkp_platform.Documents.Storage.{Storage, build_object_key}
use tkp_platform.Documents.State.{Context, ApiDb, ApiError}
use tkp_platform.Documents.Upload.{
  Services, NewRows, UploadRequest, UploadReply, put_document, new_version, job_request, source_uri,
  upload_document,
}
use tkp_platform.Documents.Numbered.{IsNumbered, IsFresh, All-map, All-zip}
use tkp_platform.Documents.Placed.{put_document-Placed}
use tkp_platform.Documents.Keys.{IsUuidText, build_object_key_inj}
use tkp_platform.Documents.Uploaded.{Uploaded, OnlyAlerts, upload-UploadOutcome}
use tkp_platform.Documents.Steps.{upload-IsNumbered}
use tkp_platform.Documents.Written.{Stored, Uploaded-Stored}

-- An upload either succeeds or leaves everything as it was, but for the alert that an exceeded quota commits
-- before it is raised. When it succeeds, whatever its idempotency key, it has added one version, with the
-- number that the document now has and the key built from that number; the document stands in the table as the
-- reply shows it, and the other documents, the chunks and the vectors are as before. The database gives a new
-- document an id that no row has.
pub upload_all_or_nothing :
    (s : Services) (ctx : Context) (ids : NewRows) (q : UploadRequest) (db : ApiDb)
    → IsFresh ids.document db.store
    → let r = upload_document s ctx ids q db in
      ((reply : UploadReply) × (r.0 ≡ ok reply) × Stored s ctx ids q db.store reply r.1.store)
      ⊎ ((e : ApiError) × (r.0 ≡ err e) × OnlyAlerts s ctx ids q db e r.1)
upload_all_or_nothing s ctx ids q db fresh = elim (upload-UploadOutcome s ctx ids q db) [
  | inl (reply, e, u) ↦
      inl
        (reply, e, Uploaded-Stored s ctx ids q db reply (upload_document s ctx ids q db).1 fresh u)
  | inr failed ↦ inr failed
]

-- The version's object stands under a key built from the version's own row.
abbrev pub Keyed : Storage → DocumentVersion → Type 0
Keyed s v =
    (kb : ℕ) × (filename : Text) × (v.object_key
      ≡ some (build_object_key s v.tenant_id kb v.document_id v.version filename))

module _ (s : Services) (ctx : Context) (ids : NewRows) (q : UploadRequest) (db : ApiDb)
    (reply : UploadReply) where
  pub upload-Uploaded :
      (upload_document s ctx ids q db).0 ≡ ok reply
      → Uploaded s ctx ids q db reply (upload_document s ctx ids q db).1
  upload-Uploaded h = elim (upload-UploadOutcome s ctx ids q db) [
    | inr (e, failed, _) ↦ cc (h, failed)
    | inl (r, done, u) ↦
        subst (λ (x : UploadReply). Uploaded s ctx ids q db x (upload_document s ctx ids q db).1)
          (ok_inj (sym done ∙ h)) u
  ]

  -- No version of the document has the number of the new one.
  new_number :
      (db' : ApiDb)
      → IsNumbered db.store
      → IsFresh ids.document db.store
      → Uploaded s ctx ids q db reply db'
      → All
          (λ (w : DocumentVersion).
            w.document_id ≡ reply.document.id → w.version ≢ reply.document.current_version)
          db.store.versions
  new_number db' num fresh u =
      let d = (put_document s ctx ids q u.kb u.metadata u.found db.store.documents).0 in
      let placed =
        put_document-Placed s ctx ids q u.kb u.metadata db.store num u.found u.searched fresh in
      let same : reply.document ≡ d = ap (λ (r : UploadReply). r.document) u.replied in
      subst
        (λ (x : Document).
          All (λ (w : DocumentVersion). w.document_id ≡ x.id → w.version ≢ x.current_version)
            db.store.versions)
        (sym same)
        (All-map _ _ db.store.versions
          (λ w below e n. let b = below (sym e) in absurd (omega (arith, b, n, placed.grown)))
          placed.beyond)

-- If the store is as uploads leave it, an upload that succeeds has stored its file under a key that no version
-- has, so that no file of a version is overwritten, and leaves the store so: versions numbered up to the
-- `current_version` of their document, no number twice, each key built from its own row. The text of a UUID
-- names it, and has no slash; the database gives a new document an id that no row has.
pub upload_overwrites_nothing :
    (s : Services) (ctx : Context) (ids : NewRows) (q : UploadRequest) (db : ApiDb)
    (reply : UploadReply)
    → IsUuidText s.files.show_uuid
    → IsFresh ids.document db.store
    → IsNumbered db.store
    → All (Keyed s.files) db.store.versions
    → (upload_document s ctx ids q db).0 ≡ ok reply
    → All (λ (v : DocumentVersion). v.object_key ≢ reply.version.object_key) db.store.versions
      × All (Keyed s.files) (upload_document s ctx ids q db).1.store.versions
      × IsNumbered (upload_document s ctx ids q db).1.store
upload_overwrites_nothing s ctx ids q db reply uuid fresh num keyed h =
    let after = (upload_document s ctx ids q db).1 in
    let u = upload-Uploaded s ctx ids q db reply h in
    let stored = Uploaded-Stored s ctx ids q db reply after fresh u in
    (
      All-map _ _ db.store.versions
          (λ v (number, (kb, filename, key)) same.
            let (et, ek, ed, en, ef) =
              build_object_key_inj s.files v.tenant_id kb v.document_id v.version ctx.tenant_id
                q.kb_id reply.document.id reply.document.current_version filename _ uuid
                (some_inj (sym key ∙ same ∙ stored.keyed)) in
            number ed en)
          (All-zip _ (Keyed s.files) db.store.versions
            (new_number s ctx ids q db reply after num fresh u) keyed),
      subst (All (Keyed s.files)) (sym stored.appended) (
          All-append (Keyed s.files) db.store.versions (reply.version ∷ []) keyed (
            (
              q.kb_id,
              source_uri s ctx ids q,
              stored.keyed ∙ rw (stored.tenant, stored.of_document, stored.numbered) refl,
            ),
            tt,
          )),
      upload-IsNumbered s ctx ids q db fresh num,
    )

-- An upload that succeeds, with a job key that no job has yet, leaves a job that any worker can claim from then
-- on: a claim does not come back empty.
pub upload_then_claim :
    (s : Services) (ctx : Context) (ids : NewRows) (q : UploadRequest) (db : ApiDb)
    (reply : UploadReply) (t timeout : ℕ) (worker : Text)
    → (upload_document s ctx ids q db).0 ≡ ok reply
    → ((kb : KnowledgeBase)
        → let request = job_request s ctx ids q kb reply.document in
          find
            (has_idempotency_key s.files.show_uuid s.sha256 ctx.tenant_id
              (build_job_idempotency_key s.files.show_uuid s.sha256 request))
            db.store.jobs
          ≡ none)
    → ids.now ≤ t
    → (claim_next_job (λ _. false) t worker timeout (upload_document s ctx ids q db).1.store).0
      ≢ none
unfolding job_request
upload_then_claim s ctx ids q db reply t timeout worker h absent le =
    let u = upload-Uploaded s ctx ids q db reply h in
    let (d, ds) = put_document s ctx ids q u.kb u.metadata u.found db.store.documents in
    let v = new_version s ctx ids q d u.key in
    let added : Database = record db.store {
      documents = ds;
      versions = db.store.versions ++ v ∷ [];
    } in
    let same : reply.document ≡ d = ap (λ (r : UploadReply). r.document) u.replied in
    let absent' =
      subst
        (λ (x : Document).
          let request = job_request s ctx ids q u.kb x in
          find
            (has_idempotency_key s.files.show_uuid s.sha256 ctx.tenant_id
              (build_job_idempotency_key s.files.show_uuid s.sha256 request))
            db.store.jobs
          ≡ none)
        same (absent u.kb) in
    subst (λ (x : ApiDb). (claim_next_job (λ _. false) t worker timeout x.store).0 ≢ none)
      (sym u.result)
      (enqueue_then_claim s.files.show_uuid s.sha256 ids.job ids.now s.max_attempts ids.job ids.now
        s.max_attempts t timeout worker (job_request s ctx ids q u.kb d) added absent' le).0
