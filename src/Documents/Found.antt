-- ===== src/Documents/Found.antt =====
-- What the checks of services/api/src/tkp_api/api/documents.py have found when they pass.
use tkp_platform.Base.{
  ℕ, ◌≡◌, subst, inl, inr, Bool, false, none, ap, ◌∙◌, some, List, [], ◌∷◌, ◌==◌, All, Bool-cases,
  Option-cases, filter, find, some_inj, ==→eq,
}
use tkp_platform.Base.Result.{ok, Result-cases, ok_inj}
use tkp_platform.Base.Text.{Text}
use tkp_platform.Worker.Rows.{Document}
use tkp_platform.Access.Rows.{KnowledgeBase, WorkspaceMembership, KbMembership, AccessTables}
use tkp_platform.Access.Checks.{
  Principal, scalar_one_or_none, get_document, doc_is_deleted, find_document, ensure_kb_read_access,
  get_kb, find_kb, ensure_workspace_read_access, get_kb_membership, ensure_document_read_access,
  ensure_kb_write_access,
}
use tkp_platform.Access.Reading.{find_kb-ok}
use tkp_platform.Documents.State.{
  Context, ApiDb, access_of, principal, check_action, writable_document,
}

module _ {ℓ κ} {A : Type ℓ} (P : A → Type κ) (p : A → Bool) where
  pub All-find : (xs : List A) (a : A) → find p xs ≡ some a → All P xs → P a
  All-find [] a h all = cc
  All-find (x ∷ xs) a h all = elim (Bool-cases (p x)) [
    | inl t ↦ subst P (some_inj (rw t at h)) all.0
    | inr f ↦ All-find xs a (rw f at h) all.1
  ]

  pub All-filter : (xs : List A) → All P xs → All P (filter p xs)
  All-filter [] all = tt
  All-filter (x ∷ xs) all = elim (Bool-cases (p x)) [
    | inl t ↦ rw t (all.0, All-filter xs all.1)
    | inr f ↦ rw f (All-filter xs all.1)
  ]

-- The row of a query that has one row.
pub All-scalar {ℓ κ} :
    {A : Type ℓ} (P : A → Type κ) (xs : List A) (a : A)
    → scalar_one_or_none xs ≡ ok (some a)
    → All P xs
    → P a
unfolding scalar_one_or_none
All-scalar P [] a h all = cc
All-scalar P (x ∷ []) a h all = subst P (some_inj (ok_inj h)) all.0
All-scalar P (x ∷ y ∷ xs) a h all = cc

-- What is known of a document that a check has found.
abbrev pub FoundDocument : AccessTables → Principal → ℕ → Document → Type 0
FoundDocument db p id d =
    (get_document db p id ≡ some d)
    × (d.tenant_id ≡ p.tenant_id)
    × (doc_is_deleted d.status ≡ false)

module _ (db : AccessTables) (p : Principal) (id : ℕ) where
  find_document-FoundDocument :
      (d : Document) → find_document db p id ≡ ok d → FoundDocument db p id d
  unfolding find_document
  find_document-FoundDocument d h = elim (Option-cases (get_document db p id)) [
    | inl e ↦ cc (rw e at h)
    | inr (x, e) ↦ elim (Bool-cases (x.tenant_id == p.tenant_id)) [
      | inr f ↦ cc (rw (e, f) at h)
      | inl t ↦ elim (Bool-cases (doc_is_deleted x.status)) [
        | inl a ↦ cc (rw (e, t, a) at h)
        | inr a ↦
            subst (FoundDocument db p id) (ok_inj (rw (e, t, a) at h))
              (e, ==→eq x.tenant_id p.tenant_id t, a)
      ]
    ]
  ]

  pub read_document-FoundDocument :
      (d : Document) (kb : KnowledgeBase)
      → ensure_document_read_access db p id ≡ ok (d, kb)
      → FoundDocument db p id d
  unfolding ensure_document_read_access
  read_document-FoundDocument d kb h = elim (Result-cases (find_document db p id)) [
    | inr (x, e) ↦ cc (rw e at h)
    | inl (doc, e) ↦ elim (Result-cases (ensure_kb_read_access db p doc.kb_id)) [
      | inr (x, e') ↦ cc (rw (e, e') at h)
      | inl (r, e') ↦
          let same = ok_inj (rw (e, e') at h) in
          subst (λ (y : Document × KnowledgeBase). FoundDocument db p id y.0) same
            (find_document-FoundDocument doc e)
    ]
  ]

find_kb-row :
    (db : AccessTables) (p : Principal) (id : ℕ)
    (r : KnowledgeBase × WorkspaceMembership × KbMembership)
    → ensure_kb_read_access db p id ≡ ok r
    → get_kb db p id ≡ some r.0
unfolding ensure_kb_read_access
find_kb-row db p id r h = elim (Result-cases (find_kb db p id)) [
  | inr (x, e) ↦ cc (rw e at h)
  | inl (kb, e) ↦ elim (Result-cases (ensure_workspace_read_access db p kb.workspace_id)) [
    | inr (x, e') ↦ cc (rw (e, e') at h)
    | inl ((ws, wm), e') ↦ elim (Result-cases (get_kb_membership db p kb.id)) [
      | inr (x, e'') ↦ cc (rw (e, e', e'') at h)
      | inl (none, e'') ↦ cc (rw (e, e', e'') at h)
      | inl (some km, e'') ↦
          (find_kb-ok db p id kb e).0
          ∙ ap (λ (y : KnowledgeBase × WorkspaceMembership × KbMembership). some y.0)
              (ok_inj (rw (e, e', e'') at h))
    ]
  ]
]

-- The knowledge base that a check finds with a document is the one that it stands in.
pub read_document-kb :
    (db : AccessTables) (p : Principal) (id : ℕ) (d : Document) (kb : KnowledgeBase)
    → ensure_document_read_access db p id ≡ ok (d, kb)
    → get_kb db p d.kb_id ≡ some kb
unfolding ensure_document_read_access
read_document-kb db p id d kb h = elim (Result-cases (find_document db p id)) [
  | inr (x, e) ↦ cc (rw e at h)
  | inl (doc, e) ↦ elim (Result-cases (ensure_kb_read_access db p doc.kb_id)) [
    | inr (x, e') ↦ cc (rw (e, e') at h)
    | inl (r, e') ↦
        subst (λ (y : Document × KnowledgeBase). get_kb db p y.0.kb_id ≡ some y.1)
          (ok_inj (rw (e, e') at h)) (find_kb-row db p doc.kb_id r e')
  ]
]

-- A request that changes a document has found it, and passed each of its three checks.
abbrev pub Granted : Context → ApiDb → Text → ℕ → Document × KnowledgeBase → Type 0
Granted ctx db action id r =
    (check_action ctx db action ≡ ok tt)
    × (ensure_document_read_access (access_of db) (principal ctx) id ≡ ok r)
    × ((w : _) × (ensure_kb_write_access (access_of db) (principal ctx) r.1.id ≡ ok w))

module _ (ctx : Context) (db : ApiDb) (action : Text) (id : ℕ) where
  pub writable_document-Granted :
      (r : Document × KnowledgeBase)
      → writable_document ctx db action id ≡ ok r
      → Granted ctx db action id r
  unfolding writable_document
  writable_document-Granted r h = elim (Result-cases (check_action ctx db action)) [
    | inr (x, e) ↦ cc (rw e at h)
    | inl (u, e) ↦
        elim (Result-cases (ensure_document_read_access (access_of db) (principal ctx) id)) [
          | inr (x, e') ↦ cc (rw (e, e') at h)
          | inl ((d, kb), e') ↦
              elim (Result-cases (ensure_kb_write_access (access_of db) (principal ctx) kb.id)) [
                | inr (x, e'') ↦ cc (rw (e, e', e'') at h)
                | inl (w, e'') ↦
                    subst (Granted ctx db action id) (ok_inj (rw (e, e', e'') at h))
                      (e, e', (w, e''))
              ]
        ]
  ]

  -- The document is a row of the table.
  pub writable_document-All {κ} :
      (P : Document → Type κ) (r : Document × KnowledgeBase)
      → writable_document ctx db action id ≡ ok r
      → All P db.store.documents
      → P r.0
  writable_document-All P r h all =
      let (_, read, _) = writable_document-Granted r h in
      let (found, _, _) =
        read_document-FoundDocument (access_of db) (principal ctx) id r.0 r.1 read in
      All-find P (λ (x : Document). x.id == id) db.store.documents r.0 found all
