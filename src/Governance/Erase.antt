-- ===== src/Governance/Erase.antt =====
-- `_resource_exists_in_tenant` and `_delete_resource` of
-- services/api/src/tkp_api/governance/deletion.py: the DELETE statements in their order.
use tkp_platform.Base.{
  ℕ, Bool, false, not, ◌&&◌, Option, none, some, List, ◌==◌, if◌then◌else◌, any, contains, filter,
  map,
}
use tkp_platform.Worker.Rows.{
  Document, DocumentVersion, DocumentChunk, ChunkEmbedding, IngestionJob, Database,
}
use tkp_platform.Access.Rows.{TenantMembership, WorkspaceMembership, KbMembership}
use tkp_platform.Governance.Rows.{
  ResourceType, Conversation, AgentRun, Feedback, FeedbackReplay, MessageRow, OfRun, LogRow, User,
  Tables,
}

-- DELETE FROM xs WHERE p
abbrev pub delete_where {ℓ} : {A : Type ℓ} → (A → Bool) → List A → List A
delete_where p = filter (λ x. not (p x))

abbrev pub is_id : ℕ → Option ℕ → Bool
is_id a none = false
is_id a (some b) = b == a

unfoldable pub resource_exists : ResourceType → ℕ → ℕ → Tables → Bool
resource_exists ResourceType.document id tenant t =
    any (λ (d : Document). d.id == id && d.tenant_id == tenant) t.store.documents
resource_exists ResourceType.conversation id tenant t =
    any (λ (c : Conversation). c.id == id && c.tenant_id == tenant) t.conversations
resource_exists ResourceType.user id tenant t =
    any (λ (m : TenantMembership). m.user_id == id && m.tenant_id == tenant) t.tenant_memberships
resource_exists (ResourceType.other name) id tenant t = false

-- Whether `_get_resource_snapshot` finds a row: a user needs a row of its own besides the membership.
unfoldable pub has_snapshot : ResourceType → ℕ → ℕ → Tables → Bool
has_snapshot ResourceType.document id tenant t =
    any (λ (d : Document). d.id == id && d.tenant_id == tenant) t.store.documents
has_snapshot ResourceType.conversation id tenant t =
    any (λ (c : Conversation). c.id == id && c.tenant_id == tenant) t.conversations
has_snapshot ResourceType.user id tenant t =
    any
      (λ (u : User).
        u.id == id
        && any (λ (m : TenantMembership). m.user_id == u.id && m.tenant_id == tenant)
            t.tenant_memberships)
      t.users
has_snapshot (ResourceType.other name) id tenant t = false

module _ (id tenant : ℕ) where
  -- The ids of the document's versions, and of the chunks of those versions.
  abbrev pub version_ids : Database → List ℕ
  version_ids db =
      map (λ (v : DocumentVersion). v.id)
        (filter (λ (v : DocumentVersion). v.document_id == id) db.versions)

  abbrev pub version_chunk_ids : Database → List ℕ
  version_chunk_ids db =
      map (λ (k : DocumentChunk). k.id)
        (filter (λ (k : DocumentChunk). contains k.document_version_id (version_ids db)) db.chunks)

  unfoldable pub delete_document : Database → Database
  delete_document db = record {
    embeddings =
        delete_where (λ (e : ChunkEmbedding). contains e.chunk_id (version_chunk_ids db))
          db.embeddings;
    chunks =
        delete_where (λ (k : DocumentChunk). contains k.document_version_id (version_ids db))
          db.chunks;
    versions = delete_where (λ (v : DocumentVersion). v.document_id == id) db.versions;
    jobs =
        delete_where (λ (j : IngestionJob). j.tenant_id == tenant && j.document_id == id) db.jobs;
    documents = delete_where (λ (d : Document). d.id == id && d.tenant_id == tenant) db.documents;
  }

  abbrev pub feedback_ids : (Feedback → Bool) → Tables → List ℕ
  feedback_ids p t = map (λ (f : Feedback). f.id) (filter p t.user_feedbacks)

  abbrev pub run_ids : (AgentRun → Bool) → Tables → List ℕ
  run_ids p t = map (λ (r : AgentRun). r.id) (filter p t.agent_runs)

  -- What both of the following begin with: the feedbacks and the runs go with what refers to them.
  unfoldable pub delete_activity : (Feedback → Bool) → (AgentRun → Bool) → Tables → Tables
  delete_activity of_feedback of_run t = record t {
    feedback_replays =
        delete_where (λ (r : FeedbackReplay). contains r.feedback_id (feedback_ids of_feedback t))
          t.feedback_replays;
    user_feedbacks = delete_where of_feedback t.user_feedbacks;
    agent_recoveries =
        delete_where
          (λ (o : OfRun). o.tenant_id == tenant && contains o.agent_run_id (run_ids of_run t))
          t.agent_recoveries;
    agent_checkpoints =
        delete_where
          (λ (o : OfRun). o.tenant_id == tenant && contains o.agent_run_id (run_ids of_run t))
          t.agent_checkpoints;
    agent_runs = delete_where of_run t.agent_runs;
  }

  abbrev pub conversation_feedback : Feedback → Bool
  conversation_feedback f = f.tenant_id == tenant && is_id id f.conversation_id

  abbrev pub conversation_run : AgentRun → Bool
  conversation_run r = r.tenant_id == tenant && is_id id r.conversation_id

  unfoldable pub delete_conversation : Tables → Tables
  unfolding delete_activity
  delete_conversation t = record (delete_activity conversation_feedback conversation_run t) {
    messages =
        delete_where (λ (m : MessageRow). m.tenant_id == tenant && m.conversation_id == id)
          t.messages;
    conversations =
        delete_where (λ (c : Conversation). c.id == id && c.tenant_id == tenant) t.conversations;
  }

  abbrev pub user_feedback : Feedback → Bool
  user_feedback f = f.tenant_id == tenant && f.user_id == id

  abbrev pub user_run : AgentRun → Bool
  user_run r = r.tenant_id == tenant && r.user_id == id

  abbrev pub user_conversation : Conversation → Bool
  user_conversation c = c.tenant_id == tenant && c.user_id == id

  -- The rows of the user in the tenant.
  unfoldable pub delete_tenant_user : Tables → Tables
  unfolding delete_activity
  delete_tenant_user t =
      let own = map (λ (c : Conversation). c.id) (filter user_conversation t.conversations) in
      record (delete_activity user_feedback user_run t) {
        retrieval_logs =
            delete_where (λ (l : LogRow). l.tenant_id == tenant && l.user_id == id)
              t.retrieval_logs;
        messages =
            delete_where
              (λ (m : MessageRow). m.tenant_id == tenant && contains m.conversation_id own)
              t.messages;
        conversations = delete_where user_conversation t.conversations;
        workspace_memberships =
            delete_where (λ (m : WorkspaceMembership). m.tenant_id == tenant && m.user_id == id)
              t.workspace_memberships;
        kb_memberships =
            delete_where (λ (m : KbMembership). m.tenant_id == tenant && m.user_id == id)
              t.kb_memberships;
        tenant_memberships =
            delete_where (λ (m : TenantMembership). m.tenant_id == tenant && m.user_id == id)
              t.tenant_memberships;
      }

  -- What goes when the user is in no tenant any more.
  unfoldable pub purge_user : Tables → Tables
  purge_user t = record t {
    workspace_memberships =
        delete_where (λ (m : WorkspaceMembership). m.user_id == id) t.workspace_memberships;
    kb_memberships = delete_where (λ (m : KbMembership). m.user_id == id) t.kb_memberships;
    tenant_memberships =
        delete_where (λ (m : TenantMembership). m.user_id == id) t.tenant_memberships;
    user_credentials = delete_where (λ u. u == id) t.user_credentials;
    users = delete_where (λ (u : User). u.id == id) t.users;
  }

  unfoldable pub delete_user : Tables → Tables
  delete_user t =
      let rest = delete_tenant_user t in
      if any (λ (m : TenantMembership). m.user_id == id) rest.tenant_memberships
      then rest
      else purge_user rest

  -- The tables after the statements, or `none` for a type that has none.
  unfoldable pub delete_statements : ResourceType → Tables → Option Tables
  delete_statements ResourceType.document t = some (record t { store = delete_document t.store })
  delete_statements ResourceType.conversation t = some (delete_conversation t)
  delete_statements ResourceType.user t = some (delete_user t)
  delete_statements (ResourceType.other name) t = none
