-- ===== src/Worker/Indexing.antt =====
-- The rows that the worker writes for a document version
-- (services/worker/src/tkp_worker/main.py, steps 5 to 7).
use tkp_platform.Base.{
  ℕ, suc, ◌≡◌, refl, sym, ap, ◌∙◌, Bool, not, some, List, [], ◌∷◌, ◌++◌, arith, ◌==◌, length, map,
  filter, append-nil, append_assoc, ==_refl,
}
use tkp_platform.Base.Result.{ok}
use tkp_platform.Base.TableLaws.{filter-append, filter-filter, filter-not}
use tkp_platform.Base.Text.{Text}
use tkp_platform.Chunker.Chunks.{chunk_text}
use tkp_platform.Worker.Rows.{Document, DocumentVersion, DocumentChunk, Database}
use tkp_platform.Worker.Claim.{ClaimedJob}
use tkp_platform.Worker.Process.{
  Environment, Upload, clear_version, chunk_row, insert_chunks, find_version, read_content,
  embed_chunks, index_chunks, advance_stages, upload_of, process_job,
}
use tkp_platform.Worker.Ingest.{Ingested, process-Ingested}

-- n, n + 1, ...: one number for each element.
abbrev pub count_from {ℓ} : {A : Type ℓ} → ℕ → List A → List ℕ
count_from n [] = []
count_from n (x ∷ xs) = n ∷ count_from (suc n) xs

abbrev pub is_own : ℕ → DocumentChunk → Bool
is_own version k = k.document_version_id == version

abbrev pub own_chunks : ℕ → Database → List DocumentChunk
own_chunks version db = filter (is_own version) db.chunks

abbrev pub other_chunks : ℕ → Database → List DocumentChunk
other_chunks version db = filter (λ k. not (is_own version k)) db.chunks

-- The rows for the chunks from a number on.
rows_from : Environment → Upload → ℕ → List Text → List DocumentChunk
rows_from env u idx [] = []
rows_from env u idx (c ∷ cs) = chunk_row env u idx c ∷ rows_from env u (suc idx) cs

module _ (env : Environment) (u : Upload) where
  insert_chunks-chunks :
      (idx : ℕ) (cs : List Text) (vs : List (List Text)) (db : Database)
      → length vs ≡ length cs
      → (insert_chunks env u idx cs vs db).chunks ≡ db.chunks ++ rows_from env u idx cs
  unfolding insert_chunks rows_from
  insert_chunks-chunks idx [] vs db h = sym (append-nil db.chunks)
  insert_chunks-chunks idx (c ∷ cs) [] db h = absurd (omega arith)
  insert_chunks-chunks idx (c ∷ cs) (v ∷ vs) db h =
      insert_chunks-chunks (suc idx) cs vs _ (omega arith)
      ∙ append_assoc db.chunks (chunk_row env u idx c ∷ []) (rows_from env u (suc idx) cs)

  own_rows :
      (idx : ℕ) (cs : List Text)
      → filter (is_own u.document_version_id) (rows_from env u idx cs) ≡ rows_from env u idx cs
  unfolding rows_from chunk_row
  own_rows idx [] = refl
  own_rows idx (c ∷ cs) =
      rw (==_refl u.document_version_id)
        (ap (λ (l : List DocumentChunk). chunk_row env u idx c ∷ l) (own_rows (suc idx) cs))

  no_other_rows :
      (idx : ℕ) (cs : List Text)
      → filter (λ k. not (is_own u.document_version_id k)) (rows_from env u idx cs) ≡ []
  unfolding rows_from chunk_row
  no_other_rows idx [] = refl
  no_other_rows idx (c ∷ cs) = rw (==_refl u.document_version_id) (no_other_rows (suc idx) cs)

  contents_of_rows :
      (idx : ℕ) (cs : List Text)
      → map (λ (k : DocumentChunk). k.content) (rows_from env u idx cs) ≡ cs
  unfolding rows_from chunk_row
  contents_of_rows idx [] = refl
  contents_of_rows idx (c ∷ cs) = ap (λ (l : List Text). c ∷ l) (contents_of_rows (suc idx) cs)

  numbers_of_rows :
      (idx : ℕ) (cs : List Text)
      → map (λ (k : DocumentChunk). k.chunk_no) (rows_from env u idx cs) ≡ count_from idx cs
  unfolding rows_from chunk_row
  numbers_of_rows idx [] = refl
  numbers_of_rows idx (c ∷ cs) = ap (λ (l : List ℕ). idx ∷ l) (numbers_of_rows (suc idx) cs)

module _ (env : Environment) (job : ClaimedJob) (u : Upload) (cs : List Text)
    (vs : List (List Text)) (db : Database) (same : length vs ≡ length cs) where
  index_chunks-chunks :
      (index_chunks env job u cs vs db).chunks
      ≡ other_chunks job.document_version_id db ++ rows_from env u 0 cs
  unfolding index_chunks clear_version
  index_chunks-chunks = insert_chunks-chunks env u 0 cs vs _ same

embed_chunks-length :
    (env : Environment) (cs : List Text) (vs : List (List Text))
    → embed_chunks env cs ≡ ok vs
    → length vs ≡ length cs
unfolding embed_chunks
embed_chunks-length env cs vs h = ground arith

advance_stages-chunks :
    (now : ℕ) (job : ClaimedJob) (worker_id : Text) (db : Database)
    → (advance_stages now job worker_id db).chunks ≡ db.chunks
unfolding advance_stages
advance_stages-chunks now job worker_id db = refl

module _ (env : Environment) (job : ClaimedJob) (now : ℕ) (worker_id : Text) (db db' : Database)
    (done : process_job env job now worker_id db ≡ ok db') where
  abbrev job_version : ℕ
  job_version = job.document_version_id

  -- The chunk table after a run, whose content is that of the version's object.
  process_chunks :
      (r : Ingested env job now worker_id db db')
      → let cs = chunk_text env.chunker r.content in
        db'.chunks
        ≡ other_chunks job_version db
          ++ rows_from env (upload_of job now r.version r.document (length cs)) 0 cs
  process_chunks r = rw (ap (λ (x : Database). x.chunks) r.result) (
      index_chunks-chunks env job _ _ _ (advance_stages now job worker_id db)
        (embed_chunks-length env _ _ r.embedded)
      ∙ rw advance_stages-chunks refl)

module _ (env : Environment) (u : Upload) (db : Database) (cs : List Text) where
  abbrev new_table : List DocumentChunk
  new_table = other_chunks u.document_version_id db ++ rows_from env u 0 cs

  own_of_table : filter (is_own u.document_version_id) new_table ≡ rows_from env u 0 cs
  own_of_table =
      filter-append (is_own u.document_version_id) (other_chunks u.document_version_id db)
        (rows_from env u 0 cs)
      ∙ rw (filter-not (is_own u.document_version_id) db.chunks) (own_rows env u 0 cs)

  others_of_table :
      filter (λ k. not (is_own u.document_version_id k)) new_table
      ≡ other_chunks u.document_version_id db
  others_of_table =
      filter-append (λ k. not (is_own u.document_version_id k))
        (other_chunks u.document_version_id db) (rows_from env u 0 cs)
      ∙ rw (no_other_rows env u 0 cs)
          (append-nil _ ∙ filter-filter (λ k. not (is_own u.document_version_id k)) db.chunks)

-- After a successful run the chunks of the job's version are, in order, those that the chunker makes
-- of the text of the version's object, numbered from 0, and nothing of an earlier run is left. The
-- chunks of the other versions are as they were.
pub process_replaces_chunks :
    (env : Environment) (job : ClaimedJob) (now : ℕ) (worker_id : Text) (db db' : Database)
    → process_job env job now worker_id db ≡ ok db'
    → (content : Text) × (v : DocumentVersion) × (d : Document) × (find_version
          job.document_version_id db
        ≡ some (v, d))
      × (read_content env v d ≡ ok content)
      × (map (λ (k : DocumentChunk). k.content) (own_chunks job.document_version_id db')
          ≡ chunk_text env.chunker content)
      × (map (λ (k : DocumentChunk). k.chunk_no) (own_chunks job.document_version_id db')
          ≡ count_from 0 (chunk_text env.chunker content))
      × (other_chunks job.document_version_id db' ≡ other_chunks job.document_version_id db)
process_replaces_chunks env job now worker_id db db' done =
    let r = process-Ingested env job now worker_id db db' done in
    let cs = chunk_text env.chunker r.content in
    let u = upload_of job now r.version r.document (length cs) in
    let own : own_chunks job.document_version_id db' ≡ rows_from env u 0 cs =
      rw (process_chunks env job now worker_id db db' done r)
        (unfold upload_of in own_of_table env u db cs) in
    (
      r.content,
      r.version,
      r.document,
      r.found,
      r.readable,
      ap (map (λ (k : DocumentChunk). k.content)) own ∙ contents_of_rows env u 0 cs,
      ap (map (λ (k : DocumentChunk). k.chunk_no)) own ∙ numbers_of_rows env u 0 cs,
      rw (process_chunks env job now worker_id db db' done r)
          (unfold upload_of in others_of_table env u db cs),
    )
