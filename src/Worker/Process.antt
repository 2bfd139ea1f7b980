-- ===== src/Worker/Process.antt =====
-- `_process_job_with_real_embeddings` of services/worker/src/tkp_worker/main.py. It runs inside one
-- transaction, so an exception, here `err` with its text, takes every change back.
use tkp_platform.Base.{
  ℕ, suc, not, Option, none, some, List, [], ◌∷◌, ◌++◌, ◌==◌, if◌then◌else◌, length, filter, find,
  contains, map,
}
use tkp_platform.Base.Decimal.{decimal}
use tkp_platform.Base.Result.{Result, ok, err, ◌>>=◌, ◌>>◌, raise_if, or_raise}
use tkp_platform.Base.Text.{Text, codes, join, strip}
use tkp_platform.Chunker.Chunks.{TextChunker, chunk_text}
use tkp_platform.Chunker.Split.{is_empty}
use tkp_platform.Worker.Rows.{
  Stage, DocumentStatus, ParseStatus, IngestionJob, Document, DocumentVersion, DocumentChunk,
  ChunkEmbedding, Database,
}
use tkp_platform.Worker.Claim.{ClaimedJob}
use tkp_platform.Worker.Outcome.{set_job, set_document_status, set_parse_status, touch_heartbeat}
use tkp_platform.Worker.Storage.{
  StorageSettings, ObjectStore, is_unset, text_or_empty, read_object_bytes,
}

-- What the worker is given: the storage, the parsers (the registry over the packages for PDF, Word
-- and so on), the embedding service, `uuid4` by the number of the call, and how a path and a UUID
-- are printed. A vector is the list of its numbers as `str` prints them. What may raise returns the
-- exception's text.
pub record Environment : Type 0 where
  pub store : ObjectStore
  pub storage : StorageSettings
  pub join_path : Text → Text → Text
  pub show_uuid : ℕ → Text
  pub parse : Text → Text → Result Text Text
  pub embed_batch : List Text → Result Text (List (List Text))
  pub count_tokens : Text → ℕ
  pub embedding_model : Text
  pub chunker : TextChunker
  pub fresh_uuid : ℕ → ℕ

-- `_extract_filename_from_key`: what stands behind the last "/".
unfoldable pub after_slash : Text → Text → Text
after_slash seen [] = seen
after_slash seen (c ∷ t) = after_slash (if c == b'/' then [] else seen ++ c ∷ []) t

unfoldable pub extract_filename_from_key : Text → Text
unfolding after_slash
extract_filename_from_key = after_slash []

-- COALESCE(NULLIF(d.source_uri, ''), d.title)
abbrev pub stored_filename : Document → Text
stored_filename d = if is_unset d.source_uri then d.title else text_or_empty d.source_uri

-- `filename or _extract_filename_from_key(object_key)`
unfoldable pub actual_filename : Document → Text → Text
unfolding extract_filename_from_key
actual_filename d key =
    if is_empty (stored_filename d) then extract_filename_from_key key else stored_filename d

-- The join of the version with its document.
abbrev pub document_of : DocumentVersion → List Document → Option (DocumentVersion × Document)
document_of v ds = elim (find (λ (d : Document). d.id == v.document_id) ds) [
  | none ↦ none
  | some d ↦ some (v, d)
]

unfoldable pub find_version : ℕ → Database → Option (DocumentVersion × Document)
find_version id db = elim (find (λ (v : DocumentVersion). v.id == id) db.versions) [
  | none ↦ none
  | some v ↦ document_of v db.documents
]

unfoldable pub staged : ℕ → Stage → ℕ → IngestionJob → IngestionJob
staged now stage progress j = record j {
  stage = stage;
  progress = progress;
  heartbeat_at = some now;
  updated_at = now;
}

unfoldable pub set_stage : ℕ → ℕ → Stage → ℕ → Database → Database
unfolding staged
set_stage now id stage progress = set_job id (staged now stage progress)

-- The ids of a version's chunks.
abbrev pub chunk_ids : ℕ → List DocumentChunk → List ℕ
chunk_ids version cs =
    map (λ (k : DocumentChunk). k.id) (filter (λ k. k.document_version_id == version) cs)

-- Step 5: the version's embeddings go first, then its chunks.
unfoldable pub clear_version : ℕ → Database → Database
clear_version version db = record db {
  embeddings =
      filter (λ (e : ChunkEmbedding). not (contains e.chunk_id (chunk_ids version db.chunks)))
        db.embeddings;
  chunks = filter (λ (k : DocumentChunk). not (k.document_version_id == version)) db.chunks;
}

-- "[" + ",".join(str(v) for v in embedding_vector) + "]"
unfoldable pub vector_text : List Text → Text
vector_text v = codes "[" ++ (join (codes ",") v ++ codes "]")

-- What the rows of one run share.
pub record Upload : Type 0 where
  pub document : Document
  pub document_id : ℕ
  pub document_version_id : ℕ
  pub filename : Text
  pub total : ℕ
  pub now : ℕ

module _ (env : Environment) (u : Upload) where
  unfoldable pub chunk_row : ℕ → Text → DocumentChunk
  chunk_row idx content = record {
    id = env.fresh_uuid idx;
    tenant_id = u.document.tenant_id;
    workspace_id = u.document.workspace_id;
    kb_id = u.document.kb_id;
    document_id = u.document_id;
    document_version_id = u.document_version_id;
    chunk_no = idx;
    content = content;
    token_count = env.count_tokens content;
    metadata = record { filename = u.filename; chunk_index = idx; total_chunks = u.total };
    created_at = u.now;
  }

  unfoldable pub embedding_row : ℕ → List Text → ChunkEmbedding
  unfolding vector_text
  embedding_row idx vector = record {
    chunk_id = env.fresh_uuid idx;
    tenant_id = u.document.tenant_id;
    kb_id = u.document.kb_id;
    embedding_model = env.embedding_model;
    vector = vector_text vector;
    created_at = u.now;
  }

  -- `for idx, (chunk_text, embedding_vector) in enumerate(zip(chunks, embeddings))`
  unfoldable pub insert_chunks : ℕ → List Text → List (List Text) → Database → Database
  unfolding chunk_row embedding_row
  insert_chunks idx [] vectors db = db
  insert_chunks idx (c ∷ cs) [] db = db
  insert_chunks idx (c ∷ cs) (v ∷ vs) db = insert_chunks (suc idx) cs vs (record db {
    chunks = db.chunks ++ chunk_row idx c ∷ [];
    embeddings = db.embeddings ++ embedding_row idx v ∷ [];
  })

-- `raise RuntimeError(f"Document parsing failed for {actual_filename}: {exc}") from exc`
abbrev pub parse_or_raise : Environment → Text → Text → Result Text Text
parse_or_raise env bytes filename = elim (env.parse bytes filename) [
  | ok content ↦ ok content
  | err e ↦ err (codes "Document parsing failed for " ++ (filename ++ (codes ": " ++ e)))
]

abbrev pub count_mismatch : ℕ → ℕ → Text
count_mismatch got expected =
    codes "Embedding count mismatch: got "
    ++ (decimal got ++ (codes ", expected " ++ decimal expected))

-- Steps 5 to 7, once the chunks and their vectors are there.
unfoldable pub index_chunks :
    Environment → ClaimedJob → Upload → List Text → List (List Text) → Database → Database
unfolding set_stage clear_version insert_chunks
index_chunks env job u chunks embeddings db =
    set_document_status u.now job.document_id DocumentStatus.ready (
      set_parse_status job.document_version_id ParseStatus.success (
        insert_chunks env u 0 chunks embeddings
          (set_stage u.now job.id Stage.indexing 80 (clear_version job.document_version_id db))))

-- The stages that only the job's row shows, up to the embeddings.
unfoldable pub advance_stages : ℕ → ClaimedJob → Text → Database → Database
unfolding set_stage touch_heartbeat
advance_stages now job worker_id db = set_stage now job.id Stage.embedding 60 (
    set_stage now job.id Stage.chunking 40 (
      set_stage now job.id Stage.parsing 20 (
        touch_heartbeat now job.id worker_id
          (set_document_status now job.document_id DocumentStatus.processing db))))

-- Steps 1 and 2: the text of the version's object.
unfoldable pub read_content : Environment → DocumentVersion → Document → Result Text Text
unfolding actual_filename
read_content env v d = do
  raise_if (is_unset v.object_key) (codes "document version object_key is empty")
  bytes ← read_object_bytes env.store env.storage env.join_path (text_or_empty v.object_key)
  content ← parse_or_raise env bytes (actual_filename d (text_or_empty v.object_key))
  raise_if (is_empty (strip content)) (codes "Document has no extractable text content")
  ok content

-- Steps 3 and 4: a vector for each chunk.
unfoldable pub embed_chunks : Environment → List Text → Result Text (List (List Text))
embed_chunks env chunks = do
  raise_if (length chunks == 0) (codes "Document chunking produced no chunks")
  embeddings ← env.embed_batch chunks
  raise_if (not (length embeddings == length chunks))
      (count_mismatch (length embeddings) (length chunks))
  ok embeddings

unfoldable pub upload_of : ClaimedJob → ℕ → DocumentVersion → Document → ℕ → Upload
upload_of job now v d total = record {
  document = d;
  document_id = job.document_id;
  document_version_id = job.document_version_id;
  filename = actual_filename d (text_or_empty v.object_key);
  total = total;
  now = now;
}

unfoldable pub process_job : Environment → ClaimedJob → ℕ → Text → Database → Result Text Database
unfolding find_version read_content embed_chunks upload_of index_chunks advance_stages
process_job env job now worker_id db = do
  (v, d) ←
      or_raise (find_version job.document_version_id db)
        (codes "document version not found: " ++ env.show_uuid job.document_version_id)
  content ← read_content env v d
  let chunks = chunk_text env.chunker content
  embeddings ← embed_chunks env chunks
  ok (
      index_chunks env job (upload_of job now v d (length chunks)) chunks embeddings
        (advance_stages now job worker_id db))
