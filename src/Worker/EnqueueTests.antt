-- ===== src/Worker/EnqueueTests.antt =====
-- Requests for a job (services/api/src/tkp_api/services/ingestion.py).
use tkp_platform.Base.{ℕ, ◌≡◌, refl, some, [], ◌∷◌}
use tkp_platform.Base.Text.{Text, codes}
use tkp_platform.Worker.Rows.{Database}
use tkp_platform.Worker.Enqueue.{JobRequest, build_job_idempotency_key}

abbrev printed : ℕ → Text
printed n = n ∷ []

abbrev hashed : Text → Text
hashed t = t

abbrev request : JobRequest
request = record {
  tenant_id = 1;
  workspace_id = 2;
  kb_id = 3;
  document_id = 4;
  document_version_id = 5;
  action = codes "upload";
  client_idempotency_key = some (codes "k");
}

abbrev empty_db : Database
empty_db = record { jobs = []; documents = []; versions = []; chunks = []; embeddings = [] }

key_of_request :
    build_job_idempotency_key printed hashed request
    ≡ 1 ∷ b':' ∷ 2 ∷ b':' ∷ 3 ∷ b':' ∷ 4 ∷ b':' ∷ 5 ∷ codes ":upload:k"
unfolding build_job_idempotency_key
key_of_request = refl
