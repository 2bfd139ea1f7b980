-- ===== src/Documents/Change.antt =====
-- `update_document`, `reindex_document` and `delete_document` of services/api/src/tkp_api/api/documents.py.
use tkp_platform.Base.{
  ℕ, Bool, not, ◌&&◌, Option, none, some, List, [], ◌∷◌, ◌==◌, if◌then◌else◌, filter, map, contains,
  update_where,
}
use tkp_platform.Base.Result.{Result, ok, ◌>>=◌, map_err, or_raise}
use tkp_platform.Base.Text.{Text, codes, text_eq}
use tkp_platform.Worker.Rows.{
  DocumentStatus, Document, DocumentVersion, DocumentChunk, ChunkEmbedding, IngestionJob, Database,
}
use tkp_platform.Worker.Enqueue.{JobRequest, enqueue_ingestion_job}
use tkp_platform.Access.Rows.{KnowledgeBase}
use tkp_platform.Access.Checks.{scalar_one_or_none}
use tkp_platform.Documents.State.{
  Context, ApiDb, ApiError, access, version_missing, document_write, document_delete, with_store,
  writable_document,
}
use tkp_platform.Documents.Upload.{Services, NewRows}

-- `if payload.title is not None: document.title = payload.title`
abbrev pub or_old : Option Text → Text → Text
or_old none old = old
or_old (some new) old = new

-- The row is written, and `updated_at` with it, when a column is another than before.
unfoldable pub edited : ℕ → Option Text → Option Text → Document → Document
edited now title metadata d =
    if text_eq (or_old title d.title) d.title && text_eq (or_old metadata d.metadata) d.metadata
    then d
    else record d {
      title = or_old title d.title;
      metadata = or_old metadata d.metadata;
      updated_at = now;
    }

abbrev pub put_row : Document → Database → Database
put_row d db = record db {
  documents = update_where (λ (x : Document). x.id == d.id) (λ x. d) db.documents;
}

unfoldable pub update_document :
    Context → ℕ → Option Text → Option Text → ℕ → ApiDb → Result ApiError (Document × ApiDb)
update_document ctx now title metadata id db = do
  (d, kb) ← writable_document ctx db document_write id
  let row = edited now title metadata d
  ok (row, with_store db (put_row row db.store))

-- The WHERE clause of the search for the version that is indexed again.
abbrev pub is_current : Document → DocumentVersion → Bool
is_current d v = v.document_id == d.id && v.version == d.current_version

module _ (s : Services) (ctx : Context) (ids : NewRows) (client_key : Option Text) where
  unfoldable pub reindex_request : KnowledgeBase → Document → DocumentVersion → JobRequest
  reindex_request kb d v = record {
    tenant_id = ctx.tenant_id;
    workspace_id = kb.workspace_id;
    kb_id = d.kb_id;
    document_id = d.id;
    document_version_id = v.id;
    action = codes "reindex";
    client_idempotency_key = client_key;
  }

  abbrev pub answer_with : ApiDb → IngestionJob × Database → IngestionJob × ApiDb
  answer_with db r = (r.0, with_store db r.1)

  unfoldable pub reindex_document : ℕ → ApiDb → Result ApiError (IngestionJob × ApiDb)
  reindex_document id db = do
    (d, kb) ← writable_document ctx db document_write id
    found ← map_err access (scalar_one_or_none (filter (is_current d) db.store.versions))
    v ← or_raise found version_missing
    ok (
        answer_with db (
          enqueue_ingestion_job s.files.show_uuid s.sha256 ids.job ids.now s.max_attempts
            (reindex_request kb d v) db.store))

-- `select(DocumentVersion.id).where(DocumentVersion.document_id == document_id)`
abbrev pub version_ids : ℕ → Database → List ℕ
version_ids id db =
    map (λ (v : DocumentVersion). v.id)
      (filter (λ (v : DocumentVersion). v.document_id == id) db.versions)

abbrev pub chunk_ids : List ℕ → Database → List ℕ
chunk_ids versions db =
    map (λ (k : DocumentChunk). k.id)
      (filter (λ (k : DocumentChunk). contains k.document_version_id versions) db.chunks)

-- `if chunk_ids: ...`
abbrev pub delete_chunks : List ℕ → Database → Database
delete_chunks [] db = db
delete_chunks (c ∷ cs) db = record db {
  embeddings = filter (λ (e : ChunkEmbedding). not (contains e.chunk_id (c ∷ cs))) db.embeddings;
  chunks = filter (λ (k : DocumentChunk). not (contains k.id (c ∷ cs))) db.chunks;
}

-- `if version_ids: ...`
abbrev pub delete_versions : List ℕ → Database → Database
delete_versions [] db = db
delete_versions (v ∷ vs) db =
    let cleared = delete_chunks (chunk_ids (v ∷ vs) db) db in
    record cleared {
      versions = filter (λ (x : DocumentVersion). not (contains x.id (v ∷ vs))) cleared.versions;
    }

abbrev pub delete_jobs : ℕ → Database → Database
delete_jobs id db = record db {
  jobs = filter (λ (j : IngestionJob). not (j.document_id == id)) db.jobs;
}

unfoldable pub deleted_row : ℕ → Document → Document
deleted_row now d = record d { status = DocumentStatus.deleted; updated_at = now }

-- The statements of a deletion, once it is allowed.
unfoldable pub erase : ℕ → Document → Database → Database
erase now d db =
    let marked = put_row (deleted_row now d) db in
    delete_jobs d.id (delete_versions (version_ids d.id marked) marked)

unfoldable pub delete_document : Context → ℕ → ℕ → ApiDb → Result ApiError (Document × ApiDb)
delete_document ctx now id db = do
  (d, kb) ← writable_document ctx db document_delete id
  ok (deleted_row now d, with_store db (erase now d db.store))
