-- ===== src/Worker/Tests.antt =====
-- A worker over a small database, with a storage and services that are written out.
use tkp_platform.Base.{
  ℕ, ◌+◌, ◌≡◌, ◌≢◌, refl, true, false, Bool, none, some, List, [], ◌∷◌, ◌++◌, arith, map, All,
}
use tkp_platform.Base.Result.{Result, ok, err}
use tkp_platform.Base.Text.{Text, codes, strip}
use tkp_platform.Chunker.Chunks.{chunk_text}
use tkp_platform.Worker.Rows.{
  SourceType, JobStatus, Stage, DocumentStatus, ParseStatus, IngestionJob, Document,
  DocumentVersion, Database, DocumentChunk, ChunkEmbedding,
}
use tkp_platform.Worker.Claim.{ClaimedJob, claimable, claim_next_job}
use tkp_platform.Worker.Claims.{NoEarlier, claim_takes_oldest, claim_exclusive, TakenIsProcessing}
use tkp_platform.Worker.Storage.{Backend, read_object_bytes}
use tkp_platform.Worker.Process.{Environment, process_job, find_version, read_content}
use tkp_platform.Worker.Indexing.{own_chunks, other_chunks, count_from, process_replaces_chunks}
use tkp_platform.Worker.Embeddings.{NoOrphans, process-NoOrphans}
use tkp_platform.Worker.Lifecycle.{UniqueIds}
use tkp_platform.Worker.Rounds.{AllConsistent, run_round-IsConsistent}
use tkp_platform.Worker.Abandoned.{abandoned_job_stays}
use tkp_platform.Worker.Loop.{Settings, Times, Round, run_round, run_rounds}

abbrev waiting : ℕ → ℕ → IngestionJob
waiting id created = record {
  id = id;
  tenant_id = 1;
  workspace_id = 2;
  kb_id = 3;
  document_id = 4;
  document_version_id = 5;
  status = JobStatus.queued;
  stage = Stage.queued;
  progress = 0;
  attempt_count = 0;
  max_attempts = 3;
  idempotency_key = [];
  next_run_at = 0;
  locked_at = none;
  locked_by = none;
  heartbeat_at = none;
  started_at = none;
  finished_at = none;
  error = none;
  created_at = created;
  updated_at = created;
}

abbrev document : Document
document = record {
  id = 4;
  tenant_id = 1;
  workspace_id = 2;
  kb_id = 3;
  title = codes "guide.txt";
  source_type = SourceType.upload;
  source_uri = none;
  current_version = 1;
  status = DocumentStatus.pending;
  metadata = codes "{}";
  created_by = none;
  created_at = 0;
  updated_at = 0;
}

abbrev version : DocumentVersion
version = record {
  id = 5;
  tenant_id = 1;
  document_id = 4;
  version = 1;
  object_key = some (codes "t/guide.txt");
  parser_type = none;
  parse_status = ParseStatus.pending;
  checksum = none;
}

abbrev old_chunk : ℕ → ℕ → DocumentChunk
old_chunk id v = record {
  id = id;
  tenant_id = 1;
  workspace_id = 2;
  kb_id = 3;
  document_id = 4;
  document_version_id = v;
  chunk_no = 0;
  content = codes "old";
  token_count = 1;
  metadata = record { filename = codes "guide.txt"; chunk_index = 0; total_chunks = 1 };
  created_at = 0;
}

abbrev old_embedding : ℕ → ChunkEmbedding
old_embedding id = record {
  chunk_id = id;
  tenant_id = 1;
  kb_id = 3;
  embedding_model = codes "m";
  vector = codes "[0]";
  created_at = 0;
}

-- Job 8 is older than job 7; chunk 90 is of an earlier run over version 5, chunk 91 of another one.
abbrev db : Database
db = record {
  jobs = waiting 7 20 ∷ waiting 8 10 ∷ [];
  documents = document ∷ [];
  versions = version ∷ [];
  chunks = old_chunk 90 5 ∷ old_chunk 91 6 ∷ [];
  embeddings = old_embedding 90 ∷ old_embedding 91 ∷ [];
}

abbrev env : Environment
env = record {
  store = record {
    read_file = λ root key. some (codes "one two");
    minio_object = λ endpoint bucket key. err (codes "no minio");
    oss_object = λ endpoint bucket key. err (codes "no oss");
  };
  storage = record {
    backend = Backend.local;
    storage_root = codes "/data";
    bucket_name = codes "b";
    endpoint = none;
    access_key = none;
    secret_key = none;
    secure = false;
  };
  join_path = λ root key. key;
  show_uuid = λ id. codes "id";
  parse = λ bytes filename. ok bytes;
  embed_batch = λ cs. ok (map (λ c. codes "0.5" ∷ codes "1.0" ∷ []) cs);
  count_tokens = λ c. 2;
  embedding_model = codes "m";
  chunker = record { chunk_size = 4; chunk_overlap = 1 };
  fresh_uuid = λ i. 100 + i;
}

abbrev failing_env : Environment
failing_env = record env { parse = λ bytes filename. err (codes "bad header") }

abbrev worker_id : Text
worker_id = codes "w1"

abbrev unheld : ℕ → Bool
unheld id = false

abbrev claimed : ClaimedJob
claimed = record {
  id = 8;
  tenant_id = 1;
  workspace_id = 2;
  kb_id = 3;
  document_id = 4;
  document_version_id = 5;
  attempt_count = 1;
  max_attempts = 3;
}

abbrev second : ClaimedJob
second = record claimed { id = 7 }

abbrev claim_db : Database
claim_db = (claim_next_job unheld 50 worker_id 300 db).1

claims_oldest : (claim_next_job unheld 50 worker_id 300 db).0 ≡ some claimed
unfolding claim_next_job
claims_oldest = refl

claims_next : (claim_next_job unheld 60 worker_id 300 claim_db).0 ≡ some second
unfolding claim_next_job
claims_next = refl

abbrev value_or : Result Text Database → Database → Database
value_or (ok d) other = d
value_or (err e) other = other

abbrev indexed_db : Database
indexed_db = value_or (process_job env claimed 60 worker_id claim_db) claim_db

job_done : process_job env claimed 60 worker_id claim_db ≡ ok indexed_db
unfolding process_job claim_next_job read_object_bytes strip chunk_text
job_done = refl

-- The last piece of the cut text repeats one character.
new_chunks :
    map (λ (k : DocumentChunk). k.content) (own_chunks 5 indexed_db)
    ≡ codes "one " ∷ codes " two" ∷ codes "o" ∷ []
unfolding process_job claim_next_job read_object_bytes strip chunk_text
new_chunks = refl

abbrev settings : Settings
settings = record {
  worker_id = worker_id;
  lock_timeout_seconds = 300;
  retry_base_seconds = 15;
  retry_max_seconds = 1800;
}

abbrev times : Times
times = record { claim = 50; work = 60; failure = 70 }

claim_takes_oldest_example :
    (j : IngestionJob) × (front : List IngestionJob) × (back : List IngestionJob) × (db.jobs
      ≡ front ++ j ∷ back)
    × (claimable unheld 50 300 j ≡ true)
    × NoEarlier (claimable unheld 50 300) j.created_at db.jobs
    × (8 ≡ j.id)
    × (1 ≡ j.attempt_count + 1)
claim_takes_oldest_example = claim_takes_oldest unheld 50 worker_id 300 db claimed claims_oldest

claim_exclusive_example : ◌≢◌ {A = ℕ} 8 7
claim_exclusive_example =
    claim_exclusive unheld unheld 50 60 worker_id worker_id 300 300 db claimed second claims_oldest
      claims_next

process_replaces_chunks_example :
    (content : Text) × (v : DocumentVersion) × (d : Document) × (find_version 5 claim_db
      ≡ some (v, d))
    × (read_content env v d ≡ ok content)
    × (map (λ (k : DocumentChunk). k.content) (own_chunks 5 indexed_db)
        ≡ chunk_text env.chunker content)
    × (map (λ (k : DocumentChunk). k.chunk_no) (own_chunks 5 indexed_db)
        ≡ count_from 0 (chunk_text env.chunker content))
    × (other_chunks 5 indexed_db ≡ other_chunks 5 claim_db)
process_replaces_chunks_example =
    process_replaces_chunks env claimed 60 worker_id claim_db indexed_db job_done

claim_db-NoOrphans : NoOrphans claim_db
unfolding NoOrphans claim_next_job
claim_db-NoOrphans = (refl, (refl, tt))

process-NoOrphans_example : NoOrphans indexed_db
process-NoOrphans_example =
    process-NoOrphans env claimed 60 worker_id claim_db indexed_db job_done claim_db-NoOrphans

db-UniqueIds : UniqueIds db.jobs
db-UniqueIds = ground arith

db-AllConsistent : AllConsistent db
db-AllConsistent = ground arith

run_round-IsConsistent_example : AllConsistent (run_round failing_env settings unheld times db)
run_round-IsConsistent_example =
    run_round-IsConsistent failing_env settings unheld times db db-UniqueIds db-AllConsistent

abbrev later_rounds : List Round
later_rounds =
    record { env = env; settings = settings; held = unheld; times = times }
    ∷ record {
      env = failing_env;
      settings = settings;
      held = unheld;
      times = record { claim = 9_000_000_000; work = 9_000_000_001; failure = 9_000_000_002 };
    }
    ∷ []

abandoned_job_stays_example : All (TakenIsProcessing 8) (run_rounds later_rounds claim_db).jobs
abandoned_job_stays_example =
    abandoned_job_stays unheld 50 worker_id 300 db claimed later_rounds claims_oldest
