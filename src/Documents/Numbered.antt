-- ===== src/Documents/Numbered.antt =====
-- The numbers of a document's versions, through the requests of
-- services/api/src/tkp_api/api/documents.py.
use tkp_platform.Base.{
  ℕ, ◌+◌, ◌≤◌, ◌≡◌, ◌≢◌, refl, sym, ◌∙◌, inl, inr, Bool, false, ◌&&◌, List, [], ◌∷◌, ◌++◌, ◌==◌,
  All, All-append, Bool-cases, any, arith, filter, update_where, ==→eq,
}
use tkp_platform.Base.AnyLaws.{any-append, any-filter}
use tkp_platform.Base.TableLaws.{All-update_where}
use tkp_platform.Base.Unique.{UniqueBy}
use tkp_platform.Worker.Rows.{Document, DocumentVersion, IngestionJob, Database}

-- A version has a number that its document has reached.
abbrev pub Reached : List Document → DocumentVersion → Type 0
Reached ds v = All (λ (d : Document). d.id ≡ v.document_id → v.version ≤ d.current_version) ds

abbrev pub same_number : DocumentVersion → DocumentVersion → Bool
same_number v w = v.document_id == w.document_id && v.version == w.version

-- No document has two versions of one number, and none has a version beyond its `current_version`.
pub record IsNumbered (db : Database) : Type 0 where
  pub reached : All (Reached db.documents) db.versions
  pub distinct : UniqueBy same_number db.versions

-- The new id belongs to no document, and so to no version of one.
abbrev pub IsFresh : ℕ → Database → Type 0
IsFresh id db =
    All (λ (v : DocumentVersion). v.document_id ≢ id) db.versions
    × All (λ (d : Document). d.id ≢ id) db.documents

pub All-map {ℓ κ μ} :
    {A : Type ℓ} (P : A → Type κ) (Q : A → Type μ) (xs : List A)
    → ((a : A) → P a → Q a)
    → All P xs
    → All Q xs
All-map P Q [] f all = tt
All-map P Q (x ∷ xs) f all = (f x all.0, All-map P Q xs f all.1)

pub All-zip {ℓ κ μ} :
    {A : Type ℓ} (P : A → Type κ) (Q : A → Type μ) (xs : List A)
    → All P xs
    → All Q xs
    → All (λ x. P x × Q x) xs
All-zip P Q [] p q = tt
All-zip P Q (x ∷ xs) p q = ((p.0, q.0), All-zip P Q xs p.1 q.1)

UniqueBy-append {ℓ} :
    {A : Type ℓ} (same : A → A → Bool) (xs : List A) (a : A)
    → UniqueBy same xs
    → any (λ x. same x a) xs ≡ false
    → UniqueBy same (xs ++ a ∷ [])
UniqueBy-append same [] a u n = (refl, tt)
UniqueBy-append same (x ∷ xs) a u n = elim (Bool-cases (same x a)) [
  | inl t ↦ cc (rw t at n)
  | inr f ↦ (
    any-append (same x) xs (a ∷ []) ∙ rw (u.0, f) refl,
    UniqueBy-append same xs a u.1 (rw f at n),
  )
]

pub UniqueBy-filter {ℓ} :
    {A : Type ℓ} (same : A → A → Bool) (p : A → Bool) (xs : List A)
    → UniqueBy same xs
    → UniqueBy same (filter p xs)
UniqueBy-filter same p [] u = tt
UniqueBy-filter same p (x ∷ xs) u = elim (Bool-cases (p x)) [
  | inr f ↦ rw f (UniqueBy-filter same p xs u.1)
  | inl t ↦ elim (Bool-cases (any (same x) (filter p xs))) [
    | inl h ↦ let e = any-filter (same x) p xs h in cc (e, u.0)
    | inr n ↦ rw t (n, UniqueBy-filter same p xs u.1)
  ]
]

-- A row takes the place of one with its id, and reaches what that one reached.
pub put_row-Reached :
    (d row : Document) (ds : List Document) (vs : List DocumentVersion)
    → row.id ≡ d.id
    → d.current_version ≤ row.current_version
    → All (λ (v : DocumentVersion). d.id ≡ v.document_id → v.version ≤ d.current_version) vs
    → All (Reached ds) vs
    → All (Reached (update_where (λ (x : Document). x.id == d.id) (λ x. row) ds)) vs
put_row-Reached d row ds [] same le own all = tt
put_row-Reached d row ds (v ∷ vs) same le own all = (
  All-update_where (λ (x : Document). x.id ≡ v.document_id → v.version ≤ x.current_version)
      (λ (x : Document). x.id == d.id) (λ x. row) ds
      (λ x h t e. let b = own.0 (sym same ∙ e) in omega (arith, b, le)) all.0,
  put_row-Reached d row ds vs same le own.1 all.1,
)

-- What every version has reached, as a statement of one document of the table.
pub number_bounds :
    (ds : List Document) (vs : List DocumentVersion)
    → All (Reached ds) vs
    → All
        (λ (d : Document).
          All (λ (v : DocumentVersion). d.id ≡ v.document_id → v.version ≤ d.current_version) vs)
        ds
number_bounds [] vs all = tt
number_bounds (d ∷ ds) vs all = (
  All-map (Reached (d ∷ ds)) _ vs (λ v h. h.0) all,
  number_bounds ds vs (All-map (Reached (d ∷ ds)) (Reached ds) vs (λ v h. h.1) all),
)

-- A version with a number beyond the document's is the only one of its number.
beyond-new :
    (d n : ℕ) (v : DocumentVersion) (vs : List DocumentVersion)
    → v.document_id ≡ d
    → n + 1 ≤ v.version
    → All (λ (w : DocumentVersion). d ≡ w.document_id → w.version ≤ n) vs
    → any (λ w. same_number w v) vs ≡ false
beyond-new d n v [] e le all = refl
beyond-new d n v (w ∷ vs) e le all =
    let rest = beyond-new d n v vs e le all.1 in
    elim (Bool-cases (w.document_id == v.document_id)) [
      | inr f ↦ rw (f, rest) refl
      | inl t ↦
          let below = all.0 (sym e ∙ sym (==→eq w.document_id v.document_id t)) in
          let other : (w.version == v.version) ≡ false = ground (arith, below, le) in
          rw (t, other, rest) refl
    ]

-- A version is added whose number its document has just reached.
pub add_version-IsNumbered :
    (n : ℕ) (ds : List Document) (v : DocumentVersion) (db : Database)
    → All (Reached ds) db.versions
    → UniqueBy same_number db.versions
    → Reached ds v
    → n + 1 ≤ v.version
    → All (λ (w : DocumentVersion). v.document_id ≡ w.document_id → w.version ≤ n) db.versions
    → (jobs : List IngestionJob)
    → IsNumbered (record db { documents = ds; versions = db.versions ++ v ∷ []; jobs = jobs })
add_version-IsNumbered n ds v db reached distinct own le below jobs = record {
  reached = All-append (Reached ds) db.versions (v ∷ []) reached (own, tt);
  distinct =
      UniqueBy-append same_number db.versions v distinct
        (beyond-new v.document_id n v db.versions refl le below);
}
