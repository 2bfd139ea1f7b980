-- ===== src/Documents/Steps.antt =====
-- The requests of services/api/src/tkp_api/api/documents.py that write, in any number and order.
use tkp_platform.Base.{ℕ, ◌≡◌, sym, subst, inl, inr, Option, none, some, ◌++◌, ◌∷◌, [], filter}
use tkp_platform.Base.Result.{ok, Result-cases, ok_inj}
use tkp_platform.Base.Text.{Text}
use tkp_platform.Worker.Rows.{Document, IngestionJob, Database}
use tkp_platform.Worker.Embeddings.{NoOrphans}
use tkp_platform.Access.Rows.{KnowledgeBase}
use tkp_platform.Access.Checks.{scalar_one_or_none}
use tkp_platform.Documents.State.{
  Context, ApiDb, document_write, document_delete, writable_document,
}
use tkp_platform.Documents.Upload.{
  Services, NewRows, UploadRequest, put_document, new_version, same_source, job_request,
  upload_document,
}
use tkp_platform.Documents.Change.{
  edited, update_document, reindex_document, reindex_request, delete_document, is_current,
}
use tkp_platform.Documents.Found.{writable_document-All}
use tkp_platform.Documents.Numbered.{IsFresh, IsNumbered, number_bounds, add_version-IsNumbered}
use tkp_platform.Documents.Placed.{put_document-Placed}
use tkp_platform.Documents.Uploaded.{upload-UploadOutcome, written_by}
use tkp_platform.Documents.Effects.{
  IsSound, jobs-IsSound, enqueue-jobs, put_row-IsSound, edited-id, erase-IsSound,
}

-- One request. An upload leaves a database whether it succeeds or not, the others when they succeed.
infix 40 ◌⟶◌
pub data ◌⟶◌ : ApiDb → ApiDb → Type 0 where
  uploads :
      {db : ApiDb} (s : Services) (ctx : Context) (ids : NewRows) (q : UploadRequest)
      → IsFresh ids.document db.store
      → db ⟶ (upload_document s ctx ids q db).1
  updates :
      {db db' : ApiDb} (ctx : Context) (now : ℕ) (title metadata : Option Text) (id : ℕ)
      (d : Document)
      → update_document ctx now title metadata id db ≡ ok (d, db')
      → db ⟶ db'
  reindexes :
      {db db' : ApiDb} (s : Services) (ctx : Context) (ids : NewRows) (key : Option Text) (id : ℕ)
      (job : IngestionJob)
      → reindex_document s ctx ids key id db ≡ ok (job, db')
      → db ⟶ db'
  deletes :
      {db db' : ApiDb} (ctx : Context) (now id : ℕ) (d : Document)
      → delete_document ctx now id db ≡ ok (d, db')
      → db ⟶ db'

infix 40 ◌⟶*◌
pub data ◌⟶*◌ : ApiDb → ApiDb → Type 0 where
  here : {db : ApiDb} → db ⟶* db
  then : {db mid db' : ApiDb} → db ⟶ mid → mid ⟶* db' → db ⟶* db'

module _ (s : Services) (ctx : Context) (ids : NewRows) (q : UploadRequest) where
  written-IsNumbered :
      (kb : KnowledgeBase) (metadata : Text) (found : Option Document) (key : Text) (db : Database)
      → scalar_one_or_none (filter (same_source s ctx ids q kb) db.documents) ≡ ok found
      → IsFresh ids.document db
      → IsNumbered db
      → IsNumbered (written_by s ctx ids q kb metadata found key db).1
  unfolding new_version
  written-IsNumbered kb metadata found key db h fresh num =
      let (d, ds) = put_document s ctx ids q kb metadata found db.documents in
      let v = new_version s ctx ids q d key in
      let added : Database = record db { documents = ds; versions = db.versions ++ v ∷ [] } in
      let placed = put_document-Placed s ctx ids q kb metadata db num found h fresh in
      let (jobs, same) =
        enqueue-jobs s.files.show_uuid s.sha256 ids.job ids.now s.max_attempts
          (job_request s ctx ids q kb d) added in
      subst IsNumbered (sym same) (
        add_version-IsNumbered placed.below ds v db placed.reached num.distinct placed.own
          placed.grown placed.beyond jobs)

  -- An upload leaves the vectors and the chunks.
  written-NoOrphans :
      (kb : KnowledgeBase) (metadata : Text) (found : Option Document) (key : Text) (db : Database)
      → NoOrphans db
      → NoOrphans (written_by s ctx ids q kb metadata found key db).1
  unfolding NoOrphans
  written-NoOrphans kb metadata found key db vectors =
      let (d, ds) = put_document s ctx ids q kb metadata found db.documents in
      let v = new_version s ctx ids q d key in
      let added : Database = record db { documents = ds; versions = db.versions ++ v ∷ [] } in
      let (jobs, same) =
        enqueue-jobs s.files.show_uuid s.sha256 ids.job ids.now s.max_attempts
          (job_request s ctx ids q kb d) added in
      subst NoOrphans (sym same) vectors

  pub upload-IsNumbered :
      (db : ApiDb)
      → IsFresh ids.document db.store
      → IsNumbered db.store
      → IsNumbered (upload_document s ctx ids q db).1.store
  upload-IsNumbered db fresh num = elim (upload-UploadOutcome s ctx ids q db) [
    | inr (e, _, inl same) ↦ subst (λ (x : ApiDb). IsNumbered x.store) (sym same) num
    | inr (e, _, inr (x, _, same)) ↦ subst (λ (x : ApiDb). IsNumbered x.store) (sym same) num
    | inl (reply, _, u) ↦
        subst (λ (x : ApiDb). IsNumbered x.store) (sym u.result)
          (written-IsNumbered u.kb u.metadata u.found u.key db.store u.searched fresh num)
  ]

  upload-IsSound :
      (db : ApiDb)
      → IsFresh ids.document db.store
      → IsSound db.store
      → IsSound (upload_document s ctx ids q db).1.store
  upload-IsSound db fresh sound = elim (upload-UploadOutcome s ctx ids q db) [
    | inr (e, _, inl same) ↦ subst (λ (x : ApiDb). IsSound x.store) (sym same) sound
    | inr (e, _, inr (x, _, same)) ↦ subst (λ (x : ApiDb). IsSound x.store) (sym same) sound
    | inl (reply, _, u) ↦
        subst (λ (x : ApiDb). IsSound x.store) (sym u.result)
          (
            written-IsNumbered u.kb u.metadata u.found u.key db.store u.searched fresh sound.0,
            written-NoOrphans u.kb u.metadata u.found u.key db.store sound.1,
          )
  ]

module _ (ctx : Context) (now id : ℕ) (db : ApiDb) (sound : IsSound db.store) where
  update-IsSound :
      (title metadata : Option Text) (d : Document) (db' : ApiDb)
      → update_document ctx now title metadata id db ≡ ok (d, db')
      → IsSound db'.store
  unfolding update_document
  update-IsSound title metadata d db' h =
      elim (Result-cases (writable_document ctx db document_write id)) [
        | inr (e, refused) ↦ cc (rw refused at h)
        | inl ((old, kb), found) ↦
            let (same, number) = edited-id now title metadata old in
            let own =
              writable_document-All ctx db document_write id _ (old, kb) found
                (number_bounds db.store.documents db.store.versions sound.0.reached) in
            subst (λ (r : Document × ApiDb). IsSound r.1.store) (ok_inj (rw found at h))
              (put_row-IsSound old (edited now title metadata old) db.store same number own sound)
      ]

  delete-IsSound :
      (d : Document) (db' : ApiDb) → delete_document ctx now id db ≡ ok (d, db') → IsSound db'.store
  unfolding delete_document
  delete-IsSound d db' h = elim (Result-cases (writable_document ctx db document_delete id)) [
    | inr (e, refused) ↦ cc (rw refused at h)
    | inl ((old, kb), found) ↦
        let own =
          writable_document-All ctx db document_delete id _ (old, kb) found
            (number_bounds db.store.documents db.store.versions sound.0.reached) in
        subst (λ (r : Document × ApiDb). IsSound r.1.store) (ok_inj (rw found at h))
          (erase-IsSound now old db.store own sound)
  ]

reindex-IsSound :
    (s : Services) (ctx : Context) (ids : NewRows) (key : Option Text) (id : ℕ) (db : ApiDb)
    (job : IngestionJob) (db' : ApiDb)
    → reindex_document s ctx ids key id db ≡ ok (job, db')
    → IsSound db.store
    → IsSound db'.store
unfolding reindex_document
reindex-IsSound s ctx ids key id db job db' h sound =
    elim (Result-cases (writable_document ctx db document_write id)) [
      | inr (e, refused) ↦ cc (rw refused at h)
      | inl ((d, kb), found) ↦
          elim (Result-cases (scalar_one_or_none (filter (is_current d) db.store.versions))) [
            | inr (e, refused) ↦ cc (rw (found, refused) at h)
            | inl (none, missing) ↦ cc (rw (found, missing) at h)
            | inl (some v, current) ↦
                let (jobs, same) =
                  enqueue-jobs s.files.show_uuid s.sha256 ids.job ids.now s.max_attempts
                    (reindex_request s ctx ids key kb d v) db.store in
                subst (λ (r : IngestionJob × ApiDb). IsSound r.1.store)
                  (ok_inj (rw (found, current) at h))
                  (subst IsSound (sym same) (jobs-IsSound jobs db.store sound))
          ]
    ]

step-IsSound : {db db' : ApiDb} → db ⟶ db' → IsSound db.store → IsSound db'.store
step-IsSound (uploads s ctx ids q fresh) sound = upload-IsSound s ctx ids q _ fresh sound
step-IsSound (updates ctx now title metadata id d h) sound =
    update-IsSound ctx now id _ sound title metadata d _ h
step-IsSound (reindexes s ctx ids key id job h) sound =
    reindex-IsSound s ctx ids key id _ job _ h sound
step-IsSound (deletes ctx now id d h) sound = delete-IsSound ctx now id _ sound d _ h

-- Uploads, changes, new indexings and deletions of documents, in any number and order and whether uploads
-- succeed or not, keep the store sound: no document has two versions of one number or a version beyond its
-- `current_version`, and each vector has its chunk. The database gives new documents ids that no row has.
pub requests-IsSound : {db db' : ApiDb} → db ⟶* db' → IsSound db.store → IsSound db'.store
requests-IsSound here sound = sound
requests-IsSound (then step steps) sound = requests-IsSound steps (step-IsSound step sound)
