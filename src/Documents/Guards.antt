-- ===== src/Documents/Guards.antt =====
-- What an upload that succeeds has been allowed
-- (services/api/src/tkp_api/api/documents.py).
use tkp_platform.Base.{
  ℕ, ◌<◌, ◌≤◌, ◌*◌, ◌≡◌, ap, subst, inl, inr, true, false, some, [], ◌∷◌, length, ltb, arith,
  Bool-cases,
}
use tkp_platform.Base.Result.{ok, Result-cases, ok_inj}
use tkp_platform.Base.Text.{Text, strip}
use tkp_platform.Chunker.Split.{is_empty}
use tkp_platform.Access.Rows.{KnowledgeBase}
use tkp_platform.Access.Checks.{ensure_kb_write_access}
use tkp_platform.Access.Granted.{MayWriteKb, write_kb-MayWriteKb}
use tkp_platform.Permissions.Sets.{has_code}
use tkp_platform.Permissions.Actions.{list_tenant_actions, require_tenant_action}
use tkp_platform.Quota.Rows.{Metric}
use tkp_platform.Quota.Limits.{HasRoom, enforce_quota_iff}
use tkp_platform.Documents.State.{
  Context, ApiDb, access_of, quota_of, principal, document_write, check_action, writable_kb,
}
use tkp_platform.Documents.Upload.{
  Services, NewRows, UploadRequest, UploadReply, filename_or, validate_upload_file, metadata_of,
  checked_metadata, upload_document, max_upload_bytes,
}
use tkp_platform.Documents.Uploads.{upload-Uploaded}

-- The role of the user has the action.
abbrev pub MayAct : Context → ApiDb → Text → Type 0
MayAct ctx db action =
    has_code action (list_tenant_actions ctx.tenant_id ctx.tenant_role db.role_permissions) ≡ true

check_action-MayAct :
    (ctx : Context) (db : ApiDb) (action : Text)
    → check_action ctx db action ≡ ok tt
    → MayAct ctx db action
unfolding check_action require_tenant_action
check_action-MayAct ctx db action h =
    elim (Bool-cases
      (has_code action (list_tenant_actions ctx.tenant_id ctx.tenant_role db.role_permissions))) [
        | inl t ↦ t
        | inr f ↦ cc (rw f at h)
      ]

-- The user has the action, and may write to the knowledge base with the id.
pub record MayWrite (ctx : Context) (db : ApiDb) (id : ℕ) (kb : KnowledgeBase) : Type 0 where
  pub action : MayAct ctx db document_write
  pub writes : MayWriteKb (access_of db) (principal ctx) id kb

writable_kb-MayWrite :
    (ctx : Context) (db : ApiDb) (id : ℕ) (kb : KnowledgeBase)
    → writable_kb ctx db id ≡ ok kb
    → MayWrite ctx db id kb
unfolding writable_kb
writable_kb-MayWrite ctx db id kb h = elim (Result-cases (check_action ctx db document_write)) [
  | inr (e, refused) ↦ cc (rw refused at h)
  | inl (u, acts) ↦ elim (Result-cases (ensure_kb_write_access (access_of db) (principal ctx) id)) [
    | inr (e, refused) ↦ cc (rw (acts, refused) at h)
    | inl ((k, wm, km), writes) ↦
        subst (MayWrite ctx db id) (ok_inj (rw (acts, writes) at h)) (record {
          action = check_action-MayAct ctx db document_write acts;
          writes = write_kb-MayWriteKb (access_of db) (principal ctx) id (k, wm, km) writes;
        })
  ]
]

-- What is asked of the file.
pub record IsAccepted (s : Services) (q : UploadRequest) : Type 0 where
  pub named : is_empty (strip (filename_or [] q.filename)) ≡ false
  pub filled : 0 < length q.content
  pub small : length q.content ≤ 50 * 1024 * 1024
  pub parsed : (value : Text) × (metadata_of s q.metadata ≡ ok value)

checked-IsAccepted :
    (s : Services) (ctx : Context) (ids : NewRows) (q : UploadRequest) (metadata : Text)
    → checked_metadata s ctx ids q ≡ ok metadata
    → IsAccepted s q
unfolding checked_metadata validate_upload_file
checked-IsAccepted s ctx ids q metadata h = elim (Result-cases (metadata_of s q.metadata)) [
  | inr (e, refused) ↦ cc (rw refused at h)
  | inl (value, parsed) ↦ elim (Bool-cases (is_empty (strip (filename_or [] q.filename)))) [
    | inl t ↦ cc (rw (parsed, t) at h)
    | inr named ↦ elim (Bool-cases (is_empty q.content)) [
      | inl t ↦ cc (rw (parsed, named, t) at h)
      | inr filled ↦ elim (Bool-cases (ltb max_upload_bytes (length q.content))) [
        | inl t ↦ cc (rw (parsed, named, filled, t) at h)
        | inr small ↦ record {
          named = named;
          filled = nonempty q.content filled;
          small = ground (arith, small);
          parsed = (value, parsed);
        }
      ]
    ]
  ]
]
  where
    nonempty : (t : Text) → is_empty t ≡ false → 0 < length t
    nonempty [] e = cc
    nonempty (c ∷ t) e = omega arith

-- An upload that succeeds was allowed to: the role of the user has the action; the knowledge base that the
-- request names is found, belongs to the tenant of the request, is not archived, stands in a workspace of the
-- tenant that is not archived and of which the user is an active member, and may be written to by the user with
-- a role there or in the knowledge base; the enabled policies of the tenant and of that workspace had room for
-- one more document; and the file has a name and a content of at most
-- 50 MB, with metadata that could be read, if there is any.
pub upload_guarded :
    (s : Services) (ctx : Context) (ids : NewRows) (q : UploadRequest) (db : ApiDb)
    (reply : UploadReply)
    → (upload_document s ctx ids q db).0 ≡ ok reply
    → (kb : KnowledgeBase) × MayWrite ctx db q.kb_id kb
      × HasRoom ids.now ctx.tenant_id Metric.document_uploads 1 (quota_of db) (some kb.workspace_id)
      × IsAccepted s q
upload_guarded s ctx ids q db reply h =
    let u = upload-Uploaded s ctx ids q db reply h in
    (
      u.kb,
      writable_kb-MayWrite ctx db q.kb_id u.kb u.allowed,
      (enforce_quota_iff ids.now ctx.tenant_id Metric.document_uploads 1 (quota_of db)
            (some u.kb.workspace_id) (omega arith)).0
          (ap (λ r. r.1) u.within),
      checked-IsAccepted s ctx ids q u.metadata u.checked,
    )
