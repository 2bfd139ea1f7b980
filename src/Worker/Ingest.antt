-- ===== src/Worker/Ingest.antt =====
-- What a successful `process_job` has done (services/worker/src/tkp_worker/main.py).
use tkp_platform.Base.{ℕ, ◌≡◌, some, List, length, Option-cases, inl, inr}
use tkp_platform.Base.Result.{ok, Result-cases}
use tkp_platform.Base.Text.{Text}
use tkp_platform.Chunker.Chunks.{chunk_text}
use tkp_platform.Worker.Rows.{Document, DocumentVersion, Database}
use tkp_platform.Worker.Claim.{ClaimedJob}
use tkp_platform.Worker.Process.{
  Environment, find_version, read_content, embed_chunks, upload_of, index_chunks, advance_stages,
  process_job,
}

-- The values that a successful run has read and computed, each from the step that gave it.
pub record Ingested (env : Environment) (job : ClaimedJob) (now : ℕ) (worker_id : Text)
    (db db' : Database) : Type 0 where
  pub version : DocumentVersion
  pub document : Document
  pub content : Text
  pub embeddings : List (List Text)
  pub found : find_version job.document_version_id db ≡ some (version, document)
  pub readable : read_content env version document ≡ ok content
  pub embedded : embed_chunks env (chunk_text env.chunker content) ≡ ok embeddings
  pub result :
      db'
      ≡ index_chunks env job
          (upload_of job now version document (length (chunk_text env.chunker content)))
          (chunk_text env.chunker content)
          embeddings
          (advance_stages now job worker_id db)

module _ (env : Environment) (job : ClaimedJob) (now : ℕ) (worker_id : Text) (db db' : Database)
    (done : process_job env job now worker_id db ≡ ok db') where
  pub process-Ingested : Ingested env job now worker_id db db'
  unfolding process_job
  process-Ingested = elim (Option-cases (find_version job.document_version_id db)) [
    | inl e ↦ cc (rw e at done)
    | inr ((v, d), e) ↦ elim (Result-cases (read_content env v d)) [
      | inr (x, e') ↦ cc (rw (e, e') at done)
      | inl (content, e') ↦
          elim (Result-cases (embed_chunks env (chunk_text env.chunker content))) [
            | inr (x, e'') ↦ cc (rw (e, e', e'') at done)
            | inl (vs, e'') ↦ record {
              version = v;
              document = d;
              content = content;
              embeddings = vs;
              found = e;
              readable = e';
              embedded = e'';
              result = cc (rw (e, e', e'') at done);
            }
          ]
    ]
  ]
