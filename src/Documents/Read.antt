-- ===== src/Documents/Read.antt =====
-- `get_document`, `list_documents` and `list_document_chunks` of
-- services/api/src/tkp_api/api/documents.py.
use tkp_platform.Base.{
  ℕ, Bool, not, ◌&&◌, Option, none, some, List, [], ◌∷◌, ◌==◌, leb, if◌then◌else◌, filter, length,
  take, drop,
}
use tkp_platform.Base.Result.{Result, ok, ◌>>=◌, map_err, or_raise}
use tkp_platform.Worker.Rows.{Document, DocumentVersion, DocumentChunk, Database}
use tkp_platform.Access.Rows.{KnowledgeBase}
use tkp_platform.Access.Checks.{doc_is_deleted, scalar_one_or_none}
use tkp_platform.Documents.State.{
  Context, ApiDb, ApiError, access, version_not_found, readable_kb, readable_document,
}

unfoldable pub get_document : Context → ℕ → ApiDb → Result ApiError Document
get_document ctx id db = readable_document ctx db id

-- The WHERE clause of the list.
unfoldable pub is_listed : Context → KnowledgeBase → ℕ → Document → Bool
is_listed ctx kb kb_id d =
    d.tenant_id == ctx.tenant_id
    && (d.workspace_id == kb.workspace_id && (d.kb_id == kb_id && not (doc_is_deleted d.status)))

unfoldable pub list_documents : Context → ℕ → ApiDb → Result ApiError (List Document)
list_documents ctx kb_id db = do
  kb ← readable_kb ctx db kb_id
  ok (filter (is_listed ctx kb kb_id) db.store.documents)

-- `order_by(DocumentChunk.chunk_no.asc())`
abbrev pub insert_chunk : DocumentChunk → List DocumentChunk → List DocumentChunk
insert_chunk k [] = k ∷ []
insert_chunk k (x ∷ xs) = if leb k.chunk_no x.chunk_no then k ∷ x ∷ xs else x ∷ insert_chunk k xs

unfoldable pub by_chunk_no : List DocumentChunk → List DocumentChunk
by_chunk_no [] = []
by_chunk_no (k ∷ ks) = insert_chunk k (by_chunk_no ks)

abbrev pub version_or : Option ℕ → ℕ → ℕ
version_or none current = current
version_or (some v) current = v

-- The WHERE clause of both queries on the chunks.
abbrev pub of_version : Context → ℕ → ℕ → DocumentChunk → Bool
of_version ctx document version k =
    k.tenant_id == ctx.tenant_id && (k.document_id == document && k.document_version_id == version)

pub record ChunkPage : Type 0 where
  pub version : ℕ
  pub document_version_id : ℕ
  pub total : ℕ
  pub items : List DocumentChunk

abbrev pub is_version : Context → ℕ → ℕ → DocumentVersion → Bool
is_version ctx document version v =
    v.tenant_id == ctx.tenant_id && (v.document_id == document && v.version == version)

-- The two queries on the chunks.
unfoldable pub page_of : Context → ℕ → ℕ → ℕ → ℕ → DocumentVersion → Database → ChunkPage
page_of ctx document target offset limit v db = record {
  version = target;
  document_version_id = v.id;
  total = length (filter (of_version ctx document v.id) db.chunks);
  items = take limit (drop offset (by_chunk_no (filter (of_version ctx document v.id) db.chunks)));
}

-- The bounds on `offset` and `limit` are checked before the function is called.
unfoldable pub list_document_chunks :
    Context → ℕ → Option ℕ → ℕ → ℕ → ApiDb → Result ApiError ChunkPage
list_document_chunks ctx id version offset limit db = do
  d ← readable_document ctx db id
  let target = version_or version d.current_version
  found ← map_err access (scalar_one_or_none (filter (is_version ctx id target) db.store.versions))
  v ← or_raise found version_not_found
  ok (page_of ctx id target offset limit v db.store)
