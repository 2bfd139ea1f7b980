-- ===== src/Worker/Embeddings.antt =====
-- The vectors that the worker writes beside the chunks (services/worker/src/tkp_worker/main.py).
use tkp_platform.Base.{
  ℕ, suc, ◌≡◌, refl, sym, subst, true, false, not, List, [], ◌∷◌, ◌++◌, arith, ◌==◌, map, filter,
  contains, All, All-append, Bool-cases, inl, inr,
}
use tkp_platform.Base.Result.{ok}
use tkp_platform.Base.Text.{Text}
use tkp_platform.Worker.Rows.{DocumentChunk, ChunkEmbedding, Database}
use tkp_platform.Worker.Claim.{ClaimedJob}
use tkp_platform.Worker.Process.{
  Environment, Upload, chunk_ids, clear_version, chunk_row, embedding_row, insert_chunks,
  index_chunks, advance_stages, process_job,
}
use tkp_platform.Worker.Ingest.{process-Ingested}

abbrev pub ids_of : List DocumentChunk → List ℕ
ids_of = map (λ (k : DocumentChunk). k.id)

abbrev pub HasChunk : List DocumentChunk → ChunkEmbedding → Type 0
HasChunk cs e = contains e.chunk_id (ids_of cs) ≡ true

-- Every vector belongs to a chunk.
unfoldable pub NoOrphans : Database → Type 0
NoOrphans db = All (HasChunk db.chunks) db.embeddings

contains-append_left :
    (a : ℕ) (cs ds : List DocumentChunk)
    → contains a (ids_of cs) ≡ true
    → contains a (ids_of (cs ++ ds)) ≡ true
contains-append_left a [] ds h = cc
contains-append_left a (c ∷ cs) ds h = ground (arith, contains-append_left a cs ds)

contains-append_last :
    (a : ℕ) (cs : List DocumentChunk) (d : DocumentChunk)
    → d.id ≡ a
    → contains a (ids_of (cs ++ d ∷ [])) ≡ true
contains-append_last a [] d h = ground arith
contains-append_last a (c ∷ cs) d h = ground (arith, contains-append_last a cs d h)

-- What is no chunk of the version stays among the other chunks.
contains-others :
    (a v : ℕ) (cs : List DocumentChunk)
    → contains a (ids_of cs) ≡ true
    → contains a (chunk_ids v cs) ≡ false
    → contains a (ids_of (filter (λ k. not (k.document_version_id == v)) cs)) ≡ true
contains-others a v [] h k = h
contains-others a v (c ∷ cs) h k = ground (arith, contains-others a v cs)

kept_have_chunks :
    (v : ℕ) (cs : List DocumentChunk) (es : List ChunkEmbedding)
    → All (HasChunk cs) es
    → All
        (HasChunk (filter (λ k. not (k.document_version_id == v)) cs))
        (filter (λ e. not (contains e.chunk_id (chunk_ids v cs))) es)
kept_have_chunks v cs [] h = tt
kept_have_chunks v cs (e ∷ es) h = elim (Bool-cases (contains e.chunk_id (chunk_ids v cs))) [
  | inl t ↦ rw t (kept_have_chunks v cs es h.1)
  | inr f ↦ rw f (contains-others e.chunk_id v cs h.0 f, kept_have_chunks v cs es h.1)
]

All-HasChunk-append :
    (cs ds : List DocumentChunk) (es : List ChunkEmbedding)
    → All (HasChunk cs) es
    → All (HasChunk (cs ++ ds)) es
All-HasChunk-append cs ds [] h = tt
All-HasChunk-append cs ds (e ∷ es) h =
    (contains-append_left e.chunk_id cs ds h.0, All-HasChunk-append cs ds es h.1)

insert_chunks-NoOrphans :
    (env : Environment) (u : Upload) (idx : ℕ) (cs : List Text) (vs : List (List Text))
    (db : Database)
    → NoOrphans db
    → NoOrphans (insert_chunks env u idx cs vs db)
unfolding insert_chunks NoOrphans chunk_row embedding_row
insert_chunks-NoOrphans env u idx [] vs db h = h
insert_chunks-NoOrphans env u idx (c ∷ cs) [] db h = h
insert_chunks-NoOrphans env u idx (c ∷ cs) (v ∷ vs) db h =
    insert_chunks-NoOrphans env u (suc idx) cs vs _ (
      All-append (HasChunk (db.chunks ++ chunk_row env u idx c ∷ [])) db.embeddings
        (embedding_row env u idx v ∷ [])
        (All-HasChunk-append db.chunks (chunk_row env u idx c ∷ []) db.embeddings h)
        (contains-append_last (env.fresh_uuid idx) db.chunks (chunk_row env u idx c) refl, tt))

clear_version-NoOrphans : (v : ℕ) (db : Database) → NoOrphans db → NoOrphans (clear_version v db)
unfolding clear_version NoOrphans
clear_version-NoOrphans v db h = kept_have_chunks v db.chunks db.embeddings h

index_chunks-NoOrphans :
    (env : Environment) (job : ClaimedJob) (u : Upload) (cs : List Text) (vs : List (List Text))
    (db : Database)
    → NoOrphans db
    → NoOrphans (index_chunks env job u cs vs db)
unfolding index_chunks NoOrphans
index_chunks-NoOrphans env job u cs vs db h =
    insert_chunks-NoOrphans env u 0 cs vs _ (clear_version-NoOrphans job.document_version_id db h)

-- A successful run leaves no vector without its chunk, if there was none before: the vectors of the
-- chunks that it deletes are deleted too, and each vector that it inserts has its chunk.
pub process-NoOrphans :
    (env : Environment) (job : ClaimedJob) (now : ℕ) (worker_id : Text) (db db' : Database)
    → process_job env job now worker_id db ≡ ok db'
    → NoOrphans db
    → NoOrphans db'
process-NoOrphans env job now worker_id db db' done h =
    let r = process-Ingested env job now worker_id db db' done in
    subst NoOrphans (sym r.result) (
      index_chunks-NoOrphans env job _ _ _ (advance_stages now job worker_id db)
        (unfold advance_stages NoOrphans in h))
