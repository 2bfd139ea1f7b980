-- ===== src/Worker/Rows.antt =====
-- The rows of the tables that the ingestion worker reads and writes
-- (services/api/src/tkp_api/models/knowledge.py, models/enums.py). UUIDs are numbers, since they are
-- only compared; times are microseconds; a JSON value is the text that is stored.
use tkp_platform.Base.{ℕ, ◌*◌, Bool, true, false, Option, List}
use tkp_platform.Base.Text.{Text}

-- IngestionJobStatus
pub data JobStatus : Type 0 where
  queued processing retrying completed dead_letter : JobStatus

pub data Stage : Type 0 where
  queued loading parsing chunking embedding indexing completed failed : Stage

pub data DocumentStatus : Type 0 where
  pending processing ready failed deleted : DocumentStatus

pub data SourceType : Type 0 where
  upload url notion git : SourceType

pub data ParseStatus : Type 0 where
  pending success failed : ParseStatus

pub record IngestionJob : Type 0 where
  pub id : ℕ
  pub tenant_id : ℕ
  pub workspace_id : ℕ
  pub kb_id : ℕ
  pub document_id : ℕ
  pub document_version_id : ℕ
  pub idempotency_key : Text
  pub status : JobStatus
  pub stage : Stage
  pub progress : ℕ
  pub attempt_count : ℕ
  pub max_attempts : ℕ
  pub next_run_at : ℕ
  pub locked_at : Option ℕ
  pub locked_by : Option Text
  pub heartbeat_at : Option ℕ
  pub started_at : Option ℕ
  pub finished_at : Option ℕ
  pub error : Option Text
  pub created_at : ℕ
  pub updated_at : ℕ

pub record Document : Type 0 where
  pub id : ℕ
  pub tenant_id : ℕ
  pub workspace_id : ℕ
  pub kb_id : ℕ
  pub title : Text
  pub source_type : SourceType
  pub source_uri : Option Text
  pub current_version : ℕ
  pub status : DocumentStatus
  pub metadata : Text
  pub created_by : Option ℕ
  pub created_at : ℕ
  pub updated_at : ℕ

pub record DocumentVersion : Type 0 where
  pub id : ℕ
  pub tenant_id : ℕ
  pub document_id : ℕ
  pub version : ℕ
  pub object_key : Option Text
  pub parser_type : Option Text
  pub parse_status : ParseStatus
  pub checksum : Option Text

-- `metadata` of a chunk: the file's name, the chunk's index and the number of chunks; its key
-- `source` is the constant "worker".
pub record ChunkMetadata : Type 0 where
  pub filename : Text
  pub chunk_index : ℕ
  pub total_chunks : ℕ

pub record DocumentChunk : Type 0 where
  pub id : ℕ
  pub tenant_id : ℕ
  pub workspace_id : ℕ
  pub kb_id : ℕ
  pub document_id : ℕ
  pub document_version_id : ℕ
  pub chunk_no : ℕ
  pub content : Text
  pub token_count : ℕ
  pub metadata : ChunkMetadata
  pub created_at : ℕ

pub record ChunkEmbedding : Type 0 where
  pub chunk_id : ℕ
  pub tenant_id : ℕ
  pub kb_id : ℕ
  pub embedding_model : Text
  pub vector : Text
  pub created_at : ℕ

-- What one connection sees.
pub record Database : Type 0 where
  pub jobs : List IngestionJob
  pub documents : List Document
  pub versions : List DocumentVersion
  pub chunks : List DocumentChunk
  pub embeddings : List ChunkEmbedding

-- make_interval(secs => n)
abbrev pub seconds : ℕ → ℕ
seconds n = n * 1_000_000

-- status IN ('queued', 'retrying')
abbrev pub is_waiting : JobStatus → Bool
is_waiting JobStatus.queued = true
is_waiting JobStatus.retrying = true
is_waiting _ = false
