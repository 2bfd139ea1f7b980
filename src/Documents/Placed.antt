-- ===== src/Documents/Placed.antt =====
-- The number that an upload gives to a version, in
-- services/api/src/tkp_api/api/documents.py.
use tkp_platform.Base.{
  ℕ, ◌+◌, ◌≤◌, ◌≡◌, ◌≢◌, refl, sym, ◌∙◌, inl, inr, none, some, List, [], ◌∷◌, ◌++◌, ◌==◌, All,
  All-append, Bool-cases, arith, filter, update_where,
}
use tkp_platform.Base.Result.{ok}
use tkp_platform.Base.Text.{Text}
use tkp_platform.Worker.Rows.{Document, DocumentVersion, Database}
use tkp_platform.Access.Rows.{KnowledgeBase}
use tkp_platform.Access.Checks.{scalar_one_or_none}
use tkp_platform.Documents.Upload.{
  Services, UploadRequest, NewRows, same_source, next_version, first_version, put_document,
}
use tkp_platform.Documents.State.{Context}
use tkp_platform.Documents.Numbered.{
  Reached, IsNumbered, IsFresh, All-map, put_row-Reached, number_bounds,
}
use tkp_platform.Documents.Found.{All-filter, All-scalar}

-- The same of the document that a new version is of, old or new.
pub record Placed (d : Document) (ds : List Document) (vs : List DocumentVersion) : Type 0 where
  pub below : ℕ
  pub grown : below + 1 ≤ d.current_version
  pub beyond : All (λ (w : DocumentVersion). d.id ≡ w.document_id → w.version ≤ below) vs
  pub reached : All (Reached ds) vs
  pub own : All (λ (x : Document). x.id ≡ d.id → d.current_version ≤ x.current_version) ds

first-Placed :
    (d : Document) (db : Database)
    → d.current_version ≡ 1
    → IsFresh d.id db
    → IsNumbered db
    → Placed d (db.documents ++ d ∷ []) db.versions
first-Placed d db one fresh num = record {
  below = 0;
  grown = omega (arith, one);
  beyond = All-map _ _ db.versions (λ v f e. absurd (f (sym e))) fresh.0;
  reached = appended db.versions fresh.0 num.reached;
  own =
      All-append _ db.documents (d ∷ []) (All-map _ _ db.documents (λ x f e. absurd (f e)) fresh.1)
        (λ e. omega arith, tt);
}
  where
    appended :
        (vs : List DocumentVersion)
        → All (λ (v : DocumentVersion). v.document_id ≢ d.id) vs
        → All (Reached db.documents) vs
        → All (Reached (db.documents ++ d ∷ [])) vs
    appended [] f all = tt
    appended (v ∷ vs) f all = (
      All-append _ db.documents (d ∷ []) all.0 (λ e. absurd (f.0 (sym e)), tt),
      appended vs f.1 all.1,
    )

replaced-own :
    (d row : Document) (ds : List Document)
    → row.id ≡ d.id
    → All
        (λ (x : Document). x.id ≡ row.id → row.current_version ≤ x.current_version)
        (update_where (λ (x : Document). x.id == d.id) (λ x. row) ds)
replaced-own d row [] same = tt
replaced-own d row (x ∷ xs) same = elim (Bool-cases (x.id == d.id)) [
  | inl t ↦ rw t (λ e. omega arith, replaced-own d row xs same)
  | inr f ↦
      let other : x.id ≢ d.id = ground (arith, f) in
      rw f (λ e. absurd (other (e ∙ same)), replaced-own d row xs same)
]

next-Placed :
    (d row : Document) (db : Database)
    → row.id ≡ d.id
    → row.current_version ≡ d.current_version + 1
    → All
        (λ (v : DocumentVersion). d.id ≡ v.document_id → v.version ≤ d.current_version)
        db.versions
    → IsNumbered db
    → Placed row (update_where (λ (x : Document). x.id == d.id) (λ x. row) db.documents) db.versions
next-Placed d row db same next own num = record {
  below = d.current_version;
  grown = omega (arith, next);
  beyond = All-map _ _ db.versions (λ v h e. h (sym same ∙ e)) own;
  reached =
      put_row-Reached d row db.documents db.versions same (omega (arith, next)) own num.reached;
  own = replaced-own d row db.documents same;
}

module _ (s : Services) (ctx : Context) (ids : NewRows) (q : UploadRequest) (kb : KnowledgeBase)
    (metadata : Text) (db : Database) (num : IsNumbered db) where
  pub put_document-Placed :
      (found : _)
      → scalar_one_or_none (filter (same_source s ctx ids q kb) db.documents) ≡ ok found
      → IsFresh ids.document db
      → let (d, ds) = put_document s ctx ids q kb metadata found db.documents in
        Placed d ds db.versions
  unfolding next_version first_version
  put_document-Placed none h fresh =
      first-Placed (first_version s ctx ids q kb metadata) db refl fresh num
  put_document-Placed (some d) h fresh =
      next-Placed d (next_version s ctx ids q metadata d) db refl refl
        (All-scalar _ (filter (same_source s ctx ids q kb) db.documents) d h (
          All-filter _ (same_source s ctx ids q kb) db.documents
            (number_bounds db.documents db.versions num.reached)))
        num
