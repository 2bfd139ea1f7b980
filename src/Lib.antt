-- ===== src/Lib.antt =====
-- tkp-platform: a verification of the core of the knowledge platform.
--
-- The platform lets the members of a tenant upload documents into knowledge bases and ask questions
-- about them. The API service (services/api) keeps the rows of the database and decides who may see
-- and change what; the worker service (services/worker) takes ingestion jobs from the table
-- `ingestion_jobs`, reads the uploaded object, parses it, cuts the text into chunks, has vectors
-- made for them and replaces the chunks of the document's version. The two meet in the database:
-- the API adds jobs and moves them by hand, the worker claims and finishes them.
--
-- Which file models what:
--   Base       shared names, tests, lists, tables as lists of rows, results of code that may raise,
--              texts as lists of character codes, with the lemmas about them.
--   Chunker    services/worker/src/tkp_worker/chunker.py, all of it. Split has the functions that
--              take a text apart (`_split_paragraphs`, the split at sentences, `_split_by_chars`),
--              Chunks the ones that put chunks together (`_split_long_paragraph`, `chunk_text`).
--   Worker     services/worker/src/tkp_worker/main.py. Rows has the tables of
--              services/api/src/tkp_api/models/knowledge.py that it uses; Claim is
--              `_claim_next_job`, Outcome `_touch_heartbeat`, `_mark_success` and `_mark_failure`,
--              Storage `_read_object_bytes_from_storage`, Process
--              `_process_job_with_real_embeddings`, Loop a round of `main`. Operator has
--              `retry_ingestion_job` and `dead_letter_ingestion_job` of
--              services/api/src/tkp_api/api/documents.py, and Enqueue is
--              services/api/src/tkp_api/services/ingestion.py, by which the API adds jobs. The other
--              children hold the theorems.
--   Access     services/api/src/tkp_api/services/authorization.py. Checks has the `ensure_*`
--              functions, Batch the two functions over many knowledge bases; Reading, Writing,
--              Granted and Ranges hold the theorems.
--   Members    services/api/src/tkp_api/services/membership_sync.py: Sync has its functions, Grants
--              and Synced what they let a user read, with counts of rows in Counted.
--   Quota      services/api/src/tkp_api/services/quota.py: Policies has `upsert_quota_policy`, Enforce
--              `_usage_in_window` and `enforce_quota`; Scopes and Limits hold the theorems.
--   Confirm    services/api/src/tkp_api/services/sensitive_operation.py: Service has its functions; Guard is
--              the decorator of services/api/src/tkp_api/middleware/sensitive_operation.py. OneTime and
--              Guarded have the theorems. Redis is a parameter with two laws.
--   Documents  services/api/src/tkp_api/api/documents.py and services/storage.py beside it: State has the
--              database and the checks, Storage the names of files, Upload, Change, Read, Versions and
--              Jobs the endpoints. They call the functions of Access, Permissions, Quota and Worker. The
--              other children have the theorems; Steps has the requests as a relation.
--   Governance services/api/src/tkp_api/governance/deletion.py: Rows has the tables, Erase the DELETE
--              statements, Deletion the operations of `DeletionService`; Lifecycle, History, Gone and
--              Execution have the theorems.
--   Permissions services/api/src/tkp_api/services/permissions.py: Codes has the permission codes, Sets
--              Python's `sorted({...})`, Actions the functions; Catalog and Assigned have the theorems.
--   Retention  services/api/src/tkp_api/governance/retention.py: Policies and Service have its classes,
--              Selected, Removal, Emptied and Archived the theorems.
--   Agents     services/api/src/tkp_api/agents: Guardrail is guardrail.py, Orchestrator orchestrator.py;
--              Window and Runs have the theorems. The language model and the tools are parameters.
--   Checkpoints services/api/src/tkp_api/services/agent_checkpoint.py: Service has its functions,
--              Numbering and Recoveries the theorems.
--   Tenants    services/api/src/tkp_api/api/tenants.py: Members has the endpoints on the members of a tenant;
--              Owners, Kept, Requests and Upserted have the theorems.
--
-- The database is a record of tables, a table a list of rows in an arbitrary order, and a
-- transaction a function from the database before it to the one after it; an exception is a result
-- `err`, and the database of a transaction that is rolled back is the one before it. Ids are
-- numbers, times are microseconds (seconds in Retention and Agents); `now()` is an argument, as are
-- the rows that other transactions hold locked. What stands outside the repository (the object
-- stores, the document parsers, the embedding service, the generator of ids, Redis, the language
-- model, the tools and executors of agents, JSON, SHA-256, the text of a UUID) is a field of
-- `Environment`, `ObjectStore`, `Redis`, `Orchestrator`, `Services` or `Storage`, or an argument.
--
-- Fuel: `split_blank`, `chars_from` and the like run on the length of the text, and each round
-- consumes a character at least; a run of an agent has the fuel that the code gives it, its
-- `max_iterations`. Numbers are unbounded, as in Python.
--
-- Not modelled: logging, the HTTP layer and its response models, the rows of the audit log but for
-- those of exceeded quotas, the limits on the length of columns, the parsers and the OCR, retrieval and chat services, the tools of
-- agents, the connections to Kafka and Elasticsearch. A `str()` of an exception's cause is part of the parser's
-- parameter.
pub mod Base
pub mod Worker
pub mod Chunker
pub mod Access
pub mod Members
pub mod Quota
pub mod Confirm
pub mod Documents
pub mod Governance
pub mod Permissions
pub mod Retention
pub mod Agents
pub mod Checkpoints
pub mod Tenants
