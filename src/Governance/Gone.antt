-- ===== src/Governance/Gone.antt =====
-- What the DELETE statements leave behind (services/api/src/tkp_api/governance/deletion.py).
use tkp_platform.Base.{
  ℕ, ◌≡◌, subst, inl, inr, false, ◌&&◌, some, ◌==◌, any, arith, Bool-cases, some_inj,
}
use tkp_platform.Base.AnyLaws.{any-not}
use tkp_platform.Worker.Rows.{Document}
use tkp_platform.Access.Rows.{TenantMembership}
use tkp_platform.Governance.Rows.{ResourceType, Conversation, Tables}
use tkp_platform.Governance.Erase.{
  resource_exists, delete_document, delete_conversation, delete_tenant_user, purge_user,
  delete_user, delete_statements, delete_activity,
}

module _ (id tenant : ℕ) where
  document_gone :
      (t : Tables)
      → resource_exists ResourceType.document id tenant
          (record t { store = delete_document id tenant t.store })
        ≡ false
  unfolding resource_exists delete_document
  document_gone t =
      any-not (λ (d : Document). d.id == id && d.tenant_id == tenant) _ t.store.documents (λ x h. h)

  conversation_gone :
      (t : Tables)
      → resource_exists ResourceType.conversation id tenant (delete_conversation id tenant t)
        ≡ false
  unfolding resource_exists delete_conversation delete_activity
  conversation_gone t =
      any-not (λ (c : Conversation). c.id == id && c.tenant_id == tenant) _ t.conversations
        (λ x h. h)

  tenant_user_gone :
      (t : Tables)
      → resource_exists ResourceType.user id tenant (delete_tenant_user id tenant t) ≡ false
  unfolding resource_exists delete_tenant_user delete_activity
  tenant_user_gone t =
      any-not (λ (m : TenantMembership). m.user_id == id && m.tenant_id == tenant) _
        t.tenant_memberships (λ x h. ground arith)

  purged_user_gone :
      (t : Tables) → resource_exists ResourceType.user id tenant (purge_user id tenant t) ≡ false
  unfolding resource_exists purge_user
  purged_user_gone t =
      any-not (λ (m : TenantMembership). m.user_id == id && m.tenant_id == tenant) _
        t.tenant_memberships (λ x h. ground arith)

  user_gone :
      (t : Tables) → resource_exists ResourceType.user id tenant (delete_user id tenant t) ≡ false
  unfolding delete_user
  user_gone t =
      elim (Bool-cases (
        any (λ (m : TenantMembership). m.user_id == id)
          (delete_tenant_user id tenant t).tenant_memberships)) [
            | inl e ↦ rw e (tenant_user_gone t)
            | inr e ↦ rw e (purged_user_gone (delete_tenant_user id tenant t))
          ]

  pub statements_gone :
      (type : ResourceType) (t t' : Tables)
      → delete_statements id tenant type t ≡ some t'
      → resource_exists type id tenant t' ≡ false
  unfolding delete_statements
  statements_gone ResourceType.document t t' h =
      subst (λ u. resource_exists ResourceType.document id tenant u ≡ false) (some_inj h)
        (document_gone t)
  statements_gone ResourceType.conversation t t' h =
      subst (λ u. resource_exists ResourceType.conversation id tenant u ≡ false) (some_inj h)
        (conversation_gone t)
  statements_gone ResourceType.user t t' h =
      subst (λ u. resource_exists ResourceType.user id tenant u ≡ false) (some_inj h) (user_gone t)
  statements_gone (ResourceType.other name) t t' h = cc
