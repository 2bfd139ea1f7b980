-- ===== src/Documents/Versions.antt =====
-- `get_document_ingestion_status`, `list_document_versions`, `get_document_version` and
-- `list_document_chunks_by_version` of services/api/src/tkp_api/api/documents.py.
use tkp_platform.Base.{
  ℕ, min, Bool, true, false, ◌&&◌, Option, none, some, List, [], ◌∷◌, ◌==◌, leb, if◌then◌else◌,
  filter,
}
use tkp_platform.Base.Result.{Result, ok, ◌>>=◌, map_err, or_raise}
use tkp_platform.Base.Text.{Text}
use tkp_platform.Worker.Rows.{JobStatus, DocumentStatus, IngestionJob, DocumentVersion}
use tkp_platform.Access.Checks.{scalar_one_or_none}
use tkp_platform.Documents.State.{
  Context, ApiDb, ApiError, access, version_not_found, readable_document,
}
use tkp_platform.Documents.Read.{is_version, ChunkPage, list_document_chunks}

abbrev pub of_document : Context → ℕ → IngestionJob → Bool
of_document ctx id j = j.tenant_id == ctx.tenant_id && j.document_id == id

-- `order_by(IngestionJob.created_at.desc()).limit(1)`; of two jobs of one time the first is taken.
unfoldable pub latest_job : List IngestionJob → Option IngestionJob
latest_job [] = none
latest_job (j ∷ js) = elim (latest_job js) [
  | none ↦ some j
  | some k ↦ if leb k.created_at j.created_at then some j else some k
]

abbrev pub is_completed : JobStatus → Bool
is_completed JobStatus.completed = true
is_completed _ = false

pub record LatestJob : Type 0 where
  pub job_id : ℕ
  pub status : JobStatus
  pub progress : ℕ
  pub error_message : Option Text
  pub created_at : ℕ
  pub updated_at : Option ℕ

pub data IngestionStatus : Type 0 where
  no_job : (current_version : ℕ) → IngestionStatus
  with_job : DocumentStatus → (current_version : ℕ) → LatestJob → IngestionStatus

unfoldable pub shown_job : IngestionJob → LatestJob
shown_job j = record {
  job_id = j.id;
  status = j.status;
  progress = min 100 (if is_completed j.status then 100 else j.progress);
  error_message = j.error;
  created_at = j.created_at;
  updated_at = j.finished_at;
}

abbrev pub status_of : DocumentStatus → ℕ → Option IngestionJob → IngestionStatus
status_of status current none = no_job current
status_of status current (some j) = with_job status current (shown_job j)

unfoldable pub get_document_ingestion_status : Context → ℕ → ApiDb → Result ApiError IngestionStatus
get_document_ingestion_status ctx id db = do
  d ← readable_document ctx db id
  ok (status_of d.status d.current_version (latest_job (filter (of_document ctx id) db.store.jobs)))

-- `order_by(DocumentVersion.version.desc())`
abbrev pub insert_version : DocumentVersion → List DocumentVersion → List DocumentVersion
insert_version v [] = v ∷ []
insert_version v (w ∷ ws) = if leb w.version v.version then v ∷ w ∷ ws else w ∷ insert_version v ws

unfoldable pub newest_first : List DocumentVersion → List DocumentVersion
newest_first [] = []
newest_first (v ∷ vs) = insert_version v (newest_first vs)

abbrev pub version_of : Context → ℕ → DocumentVersion → Bool
version_of ctx id v = v.tenant_id == ctx.tenant_id && v.document_id == id

unfoldable pub list_document_versions : Context → ℕ → ApiDb → Result ApiError (List DocumentVersion)
list_document_versions ctx id db = do
  d ← readable_document ctx db id
  ok (newest_first (filter (version_of ctx id) db.store.versions))

unfoldable pub get_document_version : Context → ℕ → ℕ → ApiDb → Result ApiError DocumentVersion
get_document_version ctx id version db = do
  d ← readable_document ctx db id
  found ← map_err access (scalar_one_or_none (filter (is_version ctx id version) db.store.versions))
  or_raise found version_not_found

unfoldable pub list_document_chunks_by_version :
    Context → ℕ → ℕ → ℕ → ℕ → ApiDb → Result ApiError ChunkPage
list_document_chunks_by_version ctx id version offset limit db =
    list_document_chunks ctx id (some version) offset limit db
