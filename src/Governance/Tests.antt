-- ===== src/Governance/Tests.antt =====
-- A request to delete a document, from its creation to its proof.
use tkp_platform.Base.{ℕ, ◌≡◌, refl, true, false, none, some, [], ◌∷◌}
use tkp_platform.Base.Result.{ok, err}
use tkp_platform.Base.Text.{codes}
use tkp_platform.Base.Decimal.{decimal}
use tkp_platform.Worker.Rows.{
  SourceType, Document, DocumentStatus, ParseStatus, DocumentChunk, ChunkEmbedding, Database,
}
use tkp_platform.Worker.Embeddings.{NoOrphans}
use tkp_platform.Governance.Rows.{
  ResourceType, RequestStatus, DeletionRequest, DeletionProof, Tables, GovernanceDb,
}
use tkp_platform.Governance.Erase.{resource_exists, has_snapshot}
use tkp_platform.Governance.Deletion.{
  is_supported, type_eq, new_request, create_deletion_request, approve_deletion_request,
  approved_row, already_pending, Hashing, Run, execute_deletion,
}
use tkp_platform.Governance.History.{Call, perform_all, row_at, Later, requests_follow_lifecycle}
use tkp_platform.Governance.Execution.{Attested, execute_completes}

abbrev paper : Document
paper = record {
  id = 4;
  tenant_id = 1;
  workspace_id = 2;
  kb_id = 3;
  title = codes "paper";
  source_type = SourceType.upload;
  source_uri = none;
  current_version = 1;
  status = DocumentStatus.ready;
  metadata = codes "{}";
  created_by = none;
  created_at = 0;
  updated_at = 0;
}

abbrev part : ℕ → ℕ → DocumentChunk
part id version = record {
  id = id;
  tenant_id = 1;
  workspace_id = 2;
  kb_id = 3;
  document_id = 4;
  document_version_id = version;
  chunk_no = 0;
  content = codes "text";
  token_count = 1;
  metadata = record { filename = codes "paper"; chunk_index = 0; total_chunks = 1 };
  created_at = 0;
}

abbrev vector_of : ℕ → ChunkEmbedding
vector_of k = record {
  chunk_id = k;
  tenant_id = 1;
  kb_id = 3;
  embedding_model = codes "m";
  vector = codes "[1]";
  created_at = 0;
}

-- Chunk 91 is of another document.
abbrev documents_db : Database
documents_db = record {
  jobs = [];
  documents = paper ∷ [];
  versions =
      record {
        id = 5;
        tenant_id = 1;
        document_id = 4;
        version = 1;
        parser_type = none;
        checksum = none;
        object_key = none;
        parse_status = ParseStatus.success;
      }
      ∷ [];
  chunks = part 90 5 ∷ part 91 6 ∷ [];
  embeddings = vector_of 90 ∷ vector_of 91 ∷ [];
}

no_orphans : NoOrphans documents_db
unfolding NoOrphans
no_orphans = (refl, (refl, tt))

abbrev gov_tables : Tables
gov_tables = record {
  store = documents_db;
  conversations = [];
  messages = [];
  agent_runs = [];
  agent_recoveries = [];
  agent_checkpoints = [];
  user_feedbacks = [];
  feedback_replays = [];
  retrieval_logs = [];
  workspace_memberships = [];
  kb_memberships = [];
  tenant_memberships = [];
  users = [];
  user_credentials = [];
  user_mfa_totp = [];
}

abbrev empty_db : GovernanceDb
empty_db = record { requests = []; proofs = []; tables = gov_tables }

abbrev asked : DeletionRequest
asked = record {
  id = 8;
  tenant_id = 1;
  user_id = 5;
  resource_type = ResourceType.document;
  resource_id = 4;
  reason = codes "gdpr";
  status = RequestStatus.pending;
  requested_at = 100;
  approved_by = none;
  approved_at = none;
  rejected_by = none;
  rejected_at = none;
  reject_reason = none;
  executed_by = none;
  executed_at = none;
  proof_id = none;
  created_at = 100;
  updated_at = 100;
}

abbrev asked_db : GovernanceDb
asked_db = record empty_db { requests = asked ∷ [] }

creates :
    create_deletion_request 8 100 1 5 ResourceType.document 4 (codes "gdpr") empty_db ≡ ok asked_db
unfolding create_deletion_request is_supported resource_exists new_request
creates = refl

refuses_second :
    create_deletion_request 9 110 1 6 ResourceType.document 4 (codes "again") asked_db
    ≡ err already_pending
unfolding create_deletion_request is_supported resource_exists type_eq
refuses_second = refl

abbrev granted : DeletionRequest
granted = record asked {
  status = RequestStatus.approved;
  approved_by = some 7;
  approved_at = some 120;
  updated_at = 120;
}

abbrev granted_db : GovernanceDb
granted_db = record empty_db { requests = granted ∷ [] }

approves : approve_deletion_request 120 8 1 7 asked_db ≡ (true, granted_db)
unfolding approve_deletion_request approved_row
approves = refl

-- A digest that is the identity will do for a test.
abbrev plain : Hashing
plain = record {
  digest = λ t. t;
  show_id = decimal;
  iso = decimal;
  show_type = λ _. codes "document";
  snapshot_json = λ type id tenant t. codes "{}";
}

abbrev run_of : Run
run_of = record { now = 130; proof_id = 77; executed_by = 7; fails = false }

there : has_snapshot ResourceType.document 4 1 gov_tables ≡ true
unfolding has_snapshot
there = refl

execute_completes_example :
    (p : DeletionProof) × (db' : GovernanceDb) × (execute_deletion plain run_of 8 1 granted_db
      ≡ (some p, db'))
    × (p.resource_type ≡ ResourceType.document)
    × (p.resource_id ≡ 4)
    × (resource_exists ResourceType.document 4 1 db'.tables ≡ false)
    × Attested plain run_of 8 1 granted_db p db'
execute_completes_example =
    execute_completes plain run_of 8 1 granted_db granted refl there refl refl

requests_follow_lifecycle_example :
    (y : DeletionRequest) × (row_at 0
        (perform_all plain
          ((1, Call.approve_request 120 8 7) ∷ (1, Call.execute run_of 8) ∷ [])
          asked_db).requests
      ≡ some y)
    × Later asked y
requests_follow_lifecycle_example =
    requests_follow_lifecycle plain
      ((1, Call.approve_request 120 8 7) ∷ (1, Call.execute run_of 8) ∷ []) asked_db 0 asked refl
