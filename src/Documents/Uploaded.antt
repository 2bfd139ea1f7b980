-- ===== src/Documents/Uploaded.antt =====
-- What a successful `upload_document` has found and written, and what a failed one leaves
-- (services/api/src/tkp_api/api/documents.py).
use tkp_platform.Base.{
  ℕ, Option-cases, ◌≡◌, refl, ◌⊎◌, inl, inr, Option, some, ◌∷◌, [], ◌++◌, filter,
}
use tkp_platform.Base.Result.{Result, ok, err, Result-cases}
use tkp_platform.Base.Text.{Text}
use tkp_platform.Worker.Rows.{Document, Database}
use tkp_platform.Access.Rows.{KnowledgeBase}
use tkp_platform.Access.Checks.{scalar_one_or_none}
use tkp_platform.Quota.Policies.{QuotaError, quota_exceeded}
use tkp_platform.Quota.Rows.{Metric, Excess, QuotaDb}
use tkp_platform.Quota.Enforce.{enforce_quota, check_scopes, scope_pairs}
use tkp_platform.Documents.Storage.{persist_upload}
use tkp_platform.Documents.State.{
  Context, ApiDb, ApiError, quota, writable_kb, quota_of, with_store,
}
use tkp_platform.Documents.Upload.{
  Services, NewRows, UploadRequest, UploadReply, same_source, put_document, new_version, enqueued,
  reply_with, store_version, store_upload, checked_metadata, after_checks, upload_document,
  source_uri,
}

module _ (s : Services) (ctx : Context) (ids : NewRows) (q : UploadRequest) where
  -- What the body of the `try` writes, from the values that it has found and computed.
  abbrev pub written_by :
      KnowledgeBase → Text → Option Document → Text → Database → UploadReply × Database
  written_by kb metadata found key db =
      let (d, ds) = put_document s ctx ids q kb metadata found db.documents in
      let v = new_version s ctx ids q d key in
      reply_with s ctx ids q d v
        (enqueued s ctx ids q kb d (record db { documents = ds; versions = db.versions ++ v ∷ [] }))

  -- The values of a successful run, each from the step that gave it.
  pub record Uploaded (db : ApiDb) (reply : UploadReply) (db' : ApiDb) : Type 0 where
    pub kb : KnowledgeBase
    pub allowed : writable_kb ctx db q.kb_id ≡ ok kb
    pub charged : QuotaDb
    pub within :
        enforce_quota ids.now ctx.tenant_id Metric.document_uploads 1
          (quota_of db)
          (some kb.workspace_id)
        ≡ (charged, ok tt)
    pub metadata : Text
    pub checked : checked_metadata s ctx ids q ≡ ok metadata
    pub found : Option Document
    pub searched :
        scalar_one_or_none (filter (same_source s ctx ids q kb) db.store.documents) ≡ ok found
    pub key : Text
    pub stored :
        let d = (put_document s ctx ids q kb metadata found db.store.documents).0 in
        persist_upload s.files ctx.tenant_id q.kb_id d.id d.current_version
          (source_uri s ctx ids q)
          q.content
        ≡ ok key
    pub replied : reply ≡ (written_by kb metadata found key db.store).0
    pub result : db' ≡ with_store db (written_by kb metadata found key db.store).1

  -- A failed upload has changed nothing, but for the alert that goes with an exceeded quota.
  abbrev pub OnlyAlerts : ApiDb → ApiError → ApiDb → Type 0
  OnlyAlerts db e db' =
      (db' ≡ db)
      ⊎ ((x : Excess) × (e ≡ quota (quota_exceeded x))
          × (db' ≡ record db { quota = record db.quota { alerts = db.quota.alerts ++ x ∷ [] } }))

  abbrev pub UploadOutcome : ApiDb → Result ApiError UploadReply × ApiDb → Type 0
  UploadOutcome db r =
      ((reply : UploadReply) × (r.0 ≡ ok reply) × Uploaded db reply r.1)
      ⊎ ((e : ApiError) × (r.0 ≡ err e) × OnlyAlerts db e r.1)

  module _ (db : ApiDb) (kb : KnowledgeBase) (allowed : writable_kb ctx db q.kb_id ≡ ok kb)
      (charged : QuotaDb)
      (within : enforce_quota ids.now ctx.tenant_id Metric.document_uploads 1
          (quota_of db)
          (some kb.workspace_id)
        ≡ (charged, ok tt)) where
    after_checks-UploadOutcome :
        UploadOutcome db (after_checks s ctx ids q kb db (checked_metadata s ctx ids q))
    unfolding store_upload store_version
    after_checks-UploadOutcome = elim (Result-cases (checked_metadata s ctx ids q)) [
      | inr (e, refused) ↦ rw refused (inr (e, refl, inl refl))
      | inl (metadata, checked) ↦
          let look = scalar_one_or_none (filter (same_source s ctx ids q kb) db.store.documents) in
          elim (Result-cases look) [
            | inr (e, refused) ↦ rw (checked, refused) (inr (_, refl, inl refl))
            | inl (found, searched) ↦
                let d = (put_document s ctx ids q kb metadata found db.store.documents).0 in
                let put =
                  persist_upload s.files ctx.tenant_id q.kb_id d.id d.current_version
                    (source_uri s ctx ids q) q.content in
                elim (Result-cases put) [
                  | inr (e, refused) ↦ rw (checked, searched, refused) (inr (_, refl, inl refl))
                  | inl (key, stored) ↦
                      rw (checked, searched, stored)
                        (inl (
                          _,
                          refl,
                          record {
                            kb = kb;
                            allowed = allowed;
                            charged = charged;
                            within = within;
                            metadata = metadata;
                            checked = checked;
                            found = found;
                            searched = searched;
                            key = key;
                            stored = stored;
                            replied = refl;
                            result = refl;
                          },
                        ))
                ]
          ]
    ]

  -- The alert, if the check of the quota raises.
  abbrev Charged : QuotaDb → QuotaDb × Result QuotaError (Unit {0}) → Type 0
  Charged before c =
      ((after : QuotaDb) × (c ≡ (after, ok tt)))
      ⊎ ((after : QuotaDb) × (x : Excess) × (c ≡ (after, err (quota_exceeded x)))
          × (after.alerts ≡ before.alerts ++ x ∷ []))

  enforce_quota-Charged :
      (now tenant : ℕ) (before : QuotaDb) (workspace : Option ℕ)
      → Charged before (enforce_quota now tenant Metric.document_uploads 1 before workspace)
  unfolding enforce_quota
  enforce_quota-Charged now tenant before workspace =
      let found =
        check_scopes now tenant Metric.document_uploads 1 before
          (scope_pairs now tenant Metric.document_uploads 1 before workspace) in
      elim (Option-cases found) [
        | inl n ↦ rw n (inl (before, refl))
        | inr (x, f) ↦ rw f (inr (_, x, refl, refl))
      ]

  pub upload-UploadOutcome : (db : ApiDb) → UploadOutcome db (upload_document s ctx ids q db)
  unfolding upload_document
  upload-UploadOutcome db = elim (Result-cases (writable_kb ctx db q.kb_id)) [
    | inr (e, refused) ↦ rw refused (inr (e, refl, inl refl))
    | inl (kb, allowed) ↦
        elim (enforce_quota-Charged ids.now ctx.tenant_id (quota_of db) (some kb.workspace_id)) [
          | inr (after, x, raised, alert) ↦
              rw (allowed, raised) (inr (_, refl, inr (x, refl, rw alert refl)))
          | inl (after, within) ↦
              rw (allowed, within) (after_checks-UploadOutcome db kb allowed after within)
        ]
  ]
