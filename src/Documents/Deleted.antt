-- ===== src/Documents/Deleted.antt =====
-- What `delete_document` of services/api/src/tkp_api/api/documents.py leaves behind.
use tkp_platform.Base.{
  ℕ, ◌≡◌, refl, sym, ap, ◌∙◌, subst, inl, inr, Bool, true, false, not, ◌&&◌, some, List, [], ◌∷◌,
  ◌==◌, ==_refl, ==→eq, Bool-cases, any, contains, filter, find, map, arith,
}
use tkp_platform.Base.AnyLaws.{any-not, contains-map-filter}
use tkp_platform.Base.TableLaws.{find-passes, filter-all, filter_congr}
use tkp_platform.Base.Result.{ok, err, Result-cases, ok_inj}
use tkp_platform.Worker.Rows.{Document, DocumentVersion, DocumentChunk, IngestionJob, Database}
use tkp_platform.Access.Rows.{AccessTables}
use tkp_platform.Access.Checks.{
  Principal, not_found, document, find_document, ensure_document_read_access,
}
use tkp_platform.Documents.State.{
  Context, ApiDb, access_of, principal, document_delete, with_store, writable_document,
}
use tkp_platform.Documents.Change.{
  put_row, version_ids, chunk_ids, delete_chunks, delete_versions, deleted_row, erase,
  delete_document,
}
use tkp_platform.Documents.Found.{All-find, read_document-FoundDocument, writable_document-Granted}
use tkp_platform.Documents.Written.{has_id, find-put, others-put, all_in_table}

delete_chunks-chunks :
    (ids : List ℕ) (db : Database)
    → (delete_chunks ids db).chunks
      ≡ filter (λ (k : DocumentChunk). not (contains k.id ids)) db.chunks
delete_chunks-chunks [] db = sym (filter-all _ db.chunks (λ x. refl))
delete_chunks-chunks (c ∷ cs) db = refl

delete_chunks-versions :
    (ids : List ℕ) (db : Database) → (delete_chunks ids db).versions ≡ db.versions
delete_chunks-versions [] db = refl
delete_chunks-versions (c ∷ cs) db = refl

delete_chunks-documents :
    (ids : List ℕ) (db : Database) → (delete_chunks ids db).documents ≡ db.documents
delete_chunks-documents [] db = refl
delete_chunks-documents (c ∷ cs) db = refl

delete_versions-versions :
    (ids : List ℕ) (db : Database)
    → (delete_versions ids db).versions
      ≡ filter (λ (v : DocumentVersion). not (contains v.id ids)) db.versions
delete_versions-versions [] db = sym (filter-all _ db.versions (λ x. refl))
delete_versions-versions (v ∷ vs) db =
    ap (filter (λ (x : DocumentVersion). not (contains x.id (v ∷ vs))))
      (delete_chunks-versions (chunk_ids (v ∷ vs) db) db)

delete_versions-documents :
    (ids : List ℕ) (db : Database) → (delete_versions ids db).documents ≡ db.documents
delete_versions-documents [] db = refl
delete_versions-documents (v ∷ vs) db = delete_chunks-documents (chunk_ids (v ∷ vs) db) db

any-member {ℓ} :
    {A : Type ℓ} (f : A → ℕ) (p : A → Bool) (all xs : List A)
    → ((x : A) → any (λ y. f y == f x && p y) xs ≡ true → any (λ y. f y == f x && p y) all ≡ true)
    → any p (filter (λ x. not (any (λ y. f y == f x && p y) all)) xs) ≡ false
any-member f p all [] sub = refl
any-member f p all (x ∷ xs) sub =
    let rest = any-member f p all xs (λ y h. sub y (rw h (ground arith))) in
    elim (Bool-cases (p x)) [
      | inl t ↦
          let hit : any (λ y. f y == f x && p y) all ≡ true = sub x (rw (==_refl (f x), t) refl) in
          rw hit rest
      | inr n ↦ elim (Bool-cases (any (λ y. f y == f x && p y) all)) [
        | inl t ↦ rw t rest
        | inr m ↦ rw m (rw n rest)
      ]
    ]

-- No row that passes the test is left when the rows with the ids of such rows are deleted.
ids_gone {ℓ} :
    {A : Type ℓ} (f : A → ℕ) (p : A → Bool) (xs : List A)
    → any p (filter (λ x. not (contains (f x) (map f (filter p xs)))) xs) ≡ false
ids_gone f p xs =
    subst (λ l. any p l ≡ false)
      (sym (filter_congr _ _ xs (λ x. ap not (contains-map-filter f p (f x) xs))))
      (any-member f p xs xs (λ x h. h))

delete_versions-chunks :
    (ids : List ℕ) (db : Database)
    → any
        (λ (k : DocumentChunk). contains k.document_version_id ids)
        (delete_versions ids db).chunks
      ≡ false
delete_versions-chunks [] db = any-none db.chunks
  where
    any-none :
        (ks : List DocumentChunk)
        → any (λ (k : DocumentChunk). contains k.document_version_id []) ks ≡ false
    any-none [] = refl
    any-none (k ∷ ks) = any-none ks
delete_versions-chunks (v ∷ vs) db =
    subst
      (λ (ks : List DocumentChunk).
        any (λ (k : DocumentChunk). contains k.document_version_id (v ∷ vs)) ks ≡ false)
      (sym (delete_chunks-chunks (chunk_ids (v ∷ vs) db) db))
      (ids_gone (λ (k : DocumentChunk). k.id)
        (λ (k : DocumentChunk). contains k.document_version_id (v ∷ vs)) db.chunks)

-- No version, chunk or job of the document is left, and it is not found any more.
pub record IsGone (id : ℕ) (before after : Database) : Type 0 where
  pub versions : any (λ (v : DocumentVersion). v.document_id == id) after.versions ≡ false
  pub chunks :
      any
        (λ (k : DocumentChunk). contains k.document_version_id (version_ids id before))
        after.chunks
      ≡ false
  pub jobs : any (λ (j : IngestionJob). j.document_id == id) after.jobs ≡ false
  pub others :
      filter (λ x. not (has_id id x)) after.documents
      ≡ filter (λ x. not (has_id id x)) before.documents

erase-IsGone : (now : ℕ) (d : Document) (db : Database) → IsGone d.id db (erase now d db)
unfolding erase deleted_row
erase-IsGone now d db =
    let marked = put_row (deleted_row now d) db in
    let ids = version_ids d.id marked in
    record {
      versions =
          subst
            (λ (vs : List DocumentVersion).
              any (λ (v : DocumentVersion). v.document_id == d.id) vs ≡ false)
            (sym (delete_versions-versions ids marked))
            (ids_gone (λ (v : DocumentVersion). v.id)
              (λ (v : DocumentVersion). v.document_id == d.id) db.versions);
      chunks = delete_versions-chunks ids marked;
      jobs =
          any-not (λ (j : IngestionJob). j.document_id == d.id) _ (delete_versions ids marked).jobs
            (λ x h. h);
      others =
          ap (filter (λ x. not (has_id d.id x))) (delete_versions-documents ids marked)
          ∙ others-put (deleted_row now d) db.documents;
    }

erased_not_found :
    (now : ℕ) (d : Document) (db : Database) (t : AccessTables) (p : Principal)
    → any (has_id d.id) db.documents ≡ true
    → t.documents ≡ (erase now d db).documents
    → ensure_document_read_access t p d.id ≡ err (not_found document d.id)
unfolding erase deleted_row ensure_document_read_access find_document
erased_not_found now d db t p here same =
    let row = deleted_row now d in
    let marked = put_row row db in
    let found : find (has_id d.id) t.documents ≡ some row =
      subst (λ (ds : List Document). find (has_id d.id) ds ≡ some row)
        (sym (same ∙ delete_versions-documents (version_ids d.id marked) marked))
        (find-put row db.documents here) in
    elim (Bool-cases (d.tenant_id == p.tenant_id)) [
      | inl own ↦ rw (found, own) refl
      | inr foreign ↦ rw (found, foreign) refl
    ]

-- A document that has been deleted is gone: no version, chunk or job of it is left, the other rows
-- of the table of documents are as before, and no user of any tenant finds it, the one who deleted it included.
pub deleted_document-IsGone :
    (ctx : Context) (now id : ℕ) (db : ApiDb) (d : Document) (db' : ApiDb)
    → delete_document ctx now id db ≡ ok (d, db')
    → IsGone id db.store db'.store
      × ((p : Principal)
          → ensure_document_read_access (access_of db') p id ≡ err (not_found document id))
unfolding delete_document
deleted_document-IsGone ctx now id db d db' h =
    elim (Result-cases (writable_document ctx db document_delete id)) [
      | inr (e, refused) ↦ cc (rw refused at h)
      | inl ((old, kb), found) ↦
          let (_, read, _) = writable_document-Granted ctx db document_delete id (old, kb) found in
          let (row, _, _) =
            read_document-FoundDocument (access_of db) (principal ctx) id old kb read in
          let named : old.id ≡ id =
            ==→eq old.id id (find-passes (has_id id) db.store.documents old row) in
          let here =
            All-find (λ (x : Document). any (has_id x.id) db.store.documents ≡ true) (has_id id)
              db.store.documents old row (all_in_table db.store.documents) in
          let after = with_store db (erase now old db.store) in
          let gone : IsGone old.id db.store after.store = erase-IsGone now old db.store in
          let lost : (p : Principal)
              → ensure_document_read_access (access_of after) p old.id
                ≡ err (not_found document old.id) =
            λ p. erased_not_found now old db.store (access_of after) p here refl in
          subst
            (λ (x : ApiDb).
              IsGone id db.store x.store
              × ((p : Principal)
                  → ensure_document_read_access (access_of x) p id ≡ err (not_found document id)))
            (ap (λ (r : Document × ApiDb). r.1) (ok_inj (rw found at h)))
            (subst
              (λ i.
                IsGone i db.store after.store
                × ((p : Principal)
                    → ensure_document_read_access (access_of after) p i
                      ≡ err (not_found document i)))
              named (gone, lost))
    ]
