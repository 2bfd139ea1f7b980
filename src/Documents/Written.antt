-- ===== src/Documents/Written.antt =====
-- What a successful upload has written, and where
-- (services/api/src/tkp_api/api/documents.py, services/storage.py).
use tkp_platform.Base.{
  ℕ, ◌≡◌, ◌≢◌, refl, sym, ap, ◌∙◌, subst, inl, inr, Bool, true, false, not, Option, none, some,
  List, [], ◌∷◌, ◌++◌, ◌==◌, ==_refl, arith, All, Bool-cases, any, filter, find, update_where,
  append-nil,
}
use tkp_platform.Base.TableLaws.{find-append_new, filter-append}
use tkp_platform.Base.Result.{ok, Result-cases, ok_inj}
use tkp_platform.Base.Text.{Text}
use tkp_platform.Worker.Rows.{Document, Database}
use tkp_platform.Access.Rows.{KnowledgeBase}
use tkp_platform.Access.Checks.{scalar_one_or_none}
use tkp_platform.Documents.Storage.{Storage, build_object_key, persist_upload}
use tkp_platform.Documents.State.{Context, ApiDb}
use tkp_platform.Documents.Upload.{
  Services, NewRows, UploadRequest, UploadReply, same_source, next_version, first_version,
  put_document, new_version, job_request, source_uri,
}
use tkp_platform.Documents.Found.{All-filter, All-scalar}
use tkp_platform.Documents.Numbered.{IsFresh, All-map}
use tkp_platform.Documents.Effects.{enqueue-jobs}
use tkp_platform.Documents.Uploaded.{Uploaded, written_by}

persist_upload-key :
    (s : Storage) (t k d n : ℕ) (f content key : Text)
    → persist_upload s t k d n f content ≡ ok key
    → key ≡ build_object_key s t k d n f
unfolding persist_upload
persist_upload-key s t k d n f content key h =
    elim (Result-cases (s.put_bytes (build_object_key s t k d n f) content)) [
      | inl (u, e) ↦ sym (ok_inj (rw e at h))
      | inr (x, e) ↦ cc (rw e at h)
    ]

-- The document with the id, and the documents with other ids.
abbrev pub has_id : ℕ → Document → Bool
has_id id d = d.id == id

pub find-put :
    (row : Document) (ds : List Document)
    → any (has_id row.id) ds ≡ true
    → find (has_id row.id) (update_where (has_id row.id) (λ x. row) ds) ≡ some row
find-put row [] h = cc
find-put row (x ∷ xs) h = elim (Bool-cases (x.id == row.id)) [
  | inl t ↦ rw t (rw (==_refl row.id) refl)
  | inr f ↦ rw f (rw f (find-put row xs (rw f at h)))
]

pub others-put :
    (row : Document) (ds : List Document)
    → filter (λ x. not (has_id row.id x)) (update_where (has_id row.id) (λ x. row) ds)
      ≡ filter (λ x. not (has_id row.id x)) ds
others-put row [] = refl
others-put row (x ∷ xs) = elim (Bool-cases (x.id == row.id)) [
  | inl t ↦ rw t (rw (==_refl row.id) (others-put row xs))
  | inr f ↦ rw f (rw f (ap (λ (l : List Document). x ∷ l) (others-put row xs)))
]

no_row :
    (id : ℕ) (ds : List Document)
    → All (λ (d : Document). d.id ≢ id) ds
    → find (has_id id) ds ≡ none
no_row id [] all = refl
no_row id (d ∷ ds) all =
    let other : (d.id == id) ≡ false = ground (arith, all.0) in rw other (no_row id ds all.1)

-- The row is in the table with the others as they were.
abbrev pub StandsIn : Document → List Document → List Document → Type 0
StandsIn d before after =
    (find (has_id d.id) after ≡ some d)
    × (filter (λ x. not (has_id d.id x)) after ≡ filter (λ x. not (has_id d.id x)) before)

pub all_in_table : (ds : List Document) → All (λ (d : Document). any (has_id d.id) ds ≡ true) ds
all_in_table [] = tt
all_in_table (d ∷ ds) =
    (rw (==_refl d.id) refl, All-map _ _ ds (λ x h. rw h (ground arith)) (all_in_table ds))

module _ (s : Services) (ctx : Context) (ids : NewRows) (q : UploadRequest) where
  put_document-StandsIn :
      (kb : KnowledgeBase) (metadata : Text) (db : Database) (found : Option Document)
      → scalar_one_or_none (filter (same_source s ctx ids q kb) db.documents) ≡ ok found
      → IsFresh ids.document db
      → let (d, ds) = put_document s ctx ids q kb metadata found db.documents in
        StandsIn d db.documents ds
  unfolding next_version first_version
  put_document-StandsIn kb metadata db none h fresh =
      let d = first_version s ctx ids q kb metadata in
      (
        find-append_new (has_id d.id) d db.documents (no_row d.id db.documents fresh.1)
            (==_refl d.id),
        filter-append _ db.documents (d ∷ []) ∙ rw (==_refl d.id) (append-nil _),
      )
  put_document-StandsIn kb metadata db (some d) h fresh =
      let row = next_version s ctx ids q metadata d in
      (
        find-put row db.documents (
            All-scalar (λ (x : Document). any (has_id x.id) db.documents ≡ true)
              (filter (same_source s ctx ids q kb) db.documents) d h
              (All-filter _ (same_source s ctx ids q kb) db.documents (all_in_table db.documents))),
        others-put row db.documents,
      )

  -- What is known of a version that an upload has stored.
  pub record Stored (before : Database) (reply : UploadReply) (after : Database) : Type 0 where
    pub appended : after.versions ≡ before.versions ++ reply.version ∷ []
    pub tenant : reply.version.tenant_id ≡ ctx.tenant_id
    pub of_document : reply.version.document_id ≡ reply.document.id
    pub numbered : reply.version.version ≡ reply.document.current_version
    pub stands : StandsIn reply.document before.documents after.documents
    pub keyed :
        reply.version.object_key
        ≡ some (
            build_object_key s.files ctx.tenant_id q.kb_id reply.document.id
              reply.document.current_version
              (source_uri s ctx ids q))
    pub chunks : after.chunks ≡ before.chunks
    pub embeddings : after.embeddings ≡ before.embeddings

  written-Stored :
      (kb : KnowledgeBase) (metadata : Text) (found : Option Document) (key : Text) (db : Database)
      → scalar_one_or_none (filter (same_source s ctx ids q kb) db.documents) ≡ ok found
      → IsFresh ids.document db
      → let d = (put_document s ctx ids q kb metadata found db.documents).0 in
        persist_upload s.files ctx.tenant_id q.kb_id d.id d.current_version
            (source_uri s ctx ids q)
            q.content
          ≡ ok key
        → let r = written_by s ctx ids q kb metadata found key db in Stored db r.0 r.1
  unfolding new_version
  written-Stored kb metadata found key db h fresh stored =
      let (d, ds) = put_document s ctx ids q kb metadata found db.documents in
      let v = new_version s ctx ids q d key in
      let added : Database = record db { documents = ds; versions = db.versions ++ v ∷ [] } in
      let (jobs, same) =
        enqueue-jobs s.files.show_uuid s.sha256 ids.job ids.now s.max_attempts
          (job_request s ctx ids q kb d) added in
      record {
        appended = ap (λ (x : Database). x.versions) same;
        tenant = refl;
        of_document = refl;
        numbered = refl;
        stands =
            subst (λ (x : Database). StandsIn d db.documents x.documents) (sym same)
              (put_document-StandsIn kb metadata db found h fresh);
        keyed = ap some (
            persist_upload-key s.files ctx.tenant_id q.kb_id d.id d.current_version
              (source_uri s ctx ids q) q.content key stored);
        chunks = ap (λ (x : Database). x.chunks) same;
        embeddings = ap (λ (x : Database). x.embeddings) same;
      }

  pub Uploaded-Stored :
      (db : ApiDb) (reply : UploadReply) (db' : ApiDb)
      → IsFresh ids.document db.store
      → Uploaded s ctx ids q db reply db'
      → Stored db.store reply db'.store
  Uploaded-Stored db reply db' fresh u =
      let w = written_by s ctx ids q u.kb u.metadata u.found u.key db.store in
      subst (λ (r : UploadReply). Stored db.store r db'.store) (sym u.replied)
        (subst (λ (x : ApiDb). Stored db.store w.0 x.store) (sym u.result)
          (written-Stored u.kb u.metadata u.found u.key db.store u.searched fresh u.stored))
