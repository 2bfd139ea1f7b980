-- ===== src/Documents/Effects.antt =====
-- What the statements of services/api/src/tkp_api/api/documents.py do to the tables of documents, versions,
-- chunks and vectors.
use tkp_platform.Base.{
  ℕ, ◌≤◌, ◌≡◌, refl, sym, ◌∙◌, ◌++◌, inl, inr, true, false, not, Option, List, [], ◌∷◌, ◌==◌, All,
  Bool-cases, Option-cases, arith, filter, contains, find,
}
use tkp_platform.Base.Text.{Text, text_eq}
use tkp_platform.Worker.Rows.{
  Document, DocumentVersion, DocumentChunk, ChunkEmbedding, IngestionJob, Database,
}
use tkp_platform.Worker.Enqueue.{
  JobRequest, build_job_idempotency_key, new_job, has_idempotency_key, enqueue_ingestion_job,
}
use tkp_platform.Worker.Embeddings.{ids_of, HasChunk, NoOrphans}
use tkp_platform.Documents.Numbered.{Reached, IsNumbered, put_row-Reached, UniqueBy-filter, All-map}
use tkp_platform.Documents.Found.{All-filter}
use tkp_platform.Documents.Change.{
  edited, or_old, put_row, chunk_ids, delete_chunks, delete_versions, version_ids, deleted_row,
  erase,
}

-- What the requests keep of the tables: the numbers of the versions, and that each vector has its chunk.
abbrev pub IsSound : Database → Type 0
IsSound db = IsNumbered db × NoOrphans db

-- A change of jobs alone keeps it.
pub jobs-IsSound :
    (jobs : List IngestionJob) (db : Database) → IsSound db → IsSound (record db { jobs = jobs })
unfolding NoOrphans
jobs-IsSound jobs db (num, own) = (record { reached = num.reached; distinct = num.distinct }, own)

-- An enqueued request changes jobs alone.
pub enqueue-jobs :
    (show_id : ℕ → Text) (sha256 : Text → Text) (id now limit : ℕ) (q : JobRequest) (db : Database)
    → (jobs : List IngestionJob) × ((enqueue_ingestion_job show_id sha256 id now limit q db).1
        ≡ record db { jobs = jobs })
unfolding enqueue_ingestion_job
enqueue-jobs show_id sha256 id now limit q db =
    let same =
      has_idempotency_key show_id sha256 q.tenant_id (build_job_idempotency_key show_id sha256 q) in
    elim (Option-cases (find same db.jobs)) [
      | inl e ↦ (db.jobs ++ new_job show_id sha256 id now limit q ∷ [], rw e refl)
      | inr (j, e) ↦ (db.jobs, rw e refl)
    ]

-- A row that takes the place of a document that reaches what the versions ask of it.
pub put_row-IsSound :
    (d row : Document) (db : Database)
    → row.id ≡ d.id
    → row.current_version ≡ d.current_version
    → All
        (λ (v : DocumentVersion). d.id ≡ v.document_id → v.version ≤ d.current_version)
        db.versions
    → IsSound db
    → IsSound (put_row row db)
unfolding NoOrphans
put_row-IsSound d row db same number own (num, vectors) = (
  record {
    reached =
        put_row-Reached row row db.documents db.versions refl (omega arith)
          (All-map _ _ db.versions (λ v h e. omega (arith, h (sym same ∙ e), number)) own)
          num.reached;
    distinct = num.distinct;
  },
  vectors,
)

pub edited-id :
    (now : ℕ) (title metadata : Option Text) (d : Document)
    → ((edited now title metadata d).id ≡ d.id)
      × ((edited now title metadata d).current_version ≡ d.current_version)
unfolding edited
edited-id now title metadata d = elim (Bool-cases (text_eq (or_old title d.title) d.title)) [
  | inr f ↦ rw f (refl, refl)
  | inl t ↦ elim (Bool-cases (text_eq (or_old metadata d.metadata) d.metadata)) [
    | inl u ↦ rw (t, u) (refl, refl)
    | inr u ↦ rw (t, u) (refl, refl)
  ]
]

-- A chunk that is not deleted stays.
chunk_stays :
    (a : ℕ) (ids : List ℕ) (cs : List DocumentChunk)
    → contains a (ids_of cs) ≡ true
    → contains a ids ≡ false
    → contains a (ids_of (filter (λ (k : DocumentChunk). not (contains k.id ids)) cs)) ≡ true
chunk_stays a ids [] h n = h
chunk_stays a ids (c ∷ cs) h n = elim (Bool-cases (a == c.id)) [
  | inl e ↦ let kept : contains c.id ids ≡ false = ground (arith, e, n) in rw kept (rw e refl)
  | inr f ↦ elim (Bool-cases (contains c.id ids)) [
    | inl t ↦ rw t (chunk_stays a ids cs (rw f at h) n)
    | inr k ↦ rw k (rw f (chunk_stays a ids cs (rw f at h) n))
  ]
]

vectors_stay :
    (ids : List ℕ) (cs : List DocumentChunk) (es : List ChunkEmbedding)
    → All (HasChunk cs) es
    → All
        (HasChunk (filter (λ (k : DocumentChunk). not (contains k.id ids)) cs))
        (filter (λ (e : ChunkEmbedding). not (contains e.chunk_id ids)) es)
vectors_stay ids cs [] all = tt
vectors_stay ids cs (e ∷ es) all = elim (Bool-cases (contains e.chunk_id ids)) [
  | inl t ↦ rw t (vectors_stay ids cs es all.1)
  | inr f ↦ rw f (chunk_stays e.chunk_id ids cs all.0 f, vectors_stay ids cs es all.1)
]

delete_chunks-IsSound : (ids : List ℕ) (db : Database) → IsSound db → IsSound (delete_chunks ids db)
unfolding NoOrphans
delete_chunks-IsSound [] db sound = sound
delete_chunks-IsSound (c ∷ cs) db (num, vectors) = (
  record { reached = num.reached; distinct = num.distinct },
  vectors_stay (c ∷ cs) db.chunks db.embeddings vectors,
)

-- Versions go, and what is left is as before.
versions-IsSound :
    (ids : List ℕ) (db : Database)
    → IsSound db
    → IsSound (record db {
      versions = filter (λ (x : DocumentVersion). not (contains x.id ids)) db.versions;
    })
unfolding NoOrphans
versions-IsSound ids db (num, vectors) = (
  record {
    reached =
        All-filter (Reached db.documents) (λ (x : DocumentVersion). not (contains x.id ids))
          db.versions num.reached;
    distinct =
        UniqueBy-filter _ (λ (x : DocumentVersion). not (contains x.id ids)) db.versions
          num.distinct;
  },
  vectors,
)

delete_versions-IsSound :
    (ids : List ℕ) (db : Database) → IsSound db → IsSound (delete_versions ids db)
delete_versions-IsSound [] db sound = sound
delete_versions-IsSound (v ∷ vs) db sound =
    versions-IsSound (v ∷ vs) (delete_chunks (chunk_ids (v ∷ vs) db) db)
      (delete_chunks-IsSound (chunk_ids (v ∷ vs) db) db sound)

pub erase-IsSound :
    (now : ℕ) (d : Document) (db : Database)
    → All
        (λ (v : DocumentVersion). d.id ≡ v.document_id → v.version ≤ d.current_version)
        db.versions
    → IsSound db
    → IsSound (erase now d db)
unfolding erase deleted_row
erase-IsSound now d db own sound =
    let marked = put_row (deleted_row now d) db in
    let cleared = delete_versions (version_ids d.id marked) marked in
    jobs-IsSound _ cleared (
      delete_versions-IsSound (version_ids d.id marked) marked
        (put_row-IsSound d (deleted_row now d) db refl refl own sound))
