-- ===== src/Documents/Pages.antt =====
-- The pages of `list_document_chunks` and the view of a job
-- (services/api/src/tkp_api/api/documents.py).
use tkp_platform.Base.{
  ℕ, zero, suc, ◌+◌, ◌*◌, ◌≤◌, ◌≡◌, refl, sym, ap, ◌∙◌, inl, inr, Bool, List, [], ◌∷◌, ◌++◌, leb,
  take, drop, length, filter, arith, Bool-cases,
}
use tkp_platform.Worker.Rows.{DocumentChunk, DocumentVersion, Database}
use tkp_platform.Documents.State.{Context}
use tkp_platform.Documents.Read.{by_chunk_no, insert_chunk, page_of, of_version}

-- Ascending by `chunk_no`.
abbrev pub IsSorted : List DocumentChunk → Type 0
IsSorted [] = Unit
IsSorted (k ∷ []) = Unit
IsSorted (k ∷ l ∷ ks) = (k.chunk_no ≤ l.chunk_no) × IsSorted (l ∷ ks)

insert_chunk-IsSorted :
    (k : DocumentChunk) (ks : List DocumentChunk) → IsSorted ks → IsSorted (insert_chunk k ks)
insert_chunk-IsSorted k [] h = tt
insert_chunk-IsSorted k (x ∷ []) h = elim (Bool-cases (leb k.chunk_no x.chunk_no)) [
  | inl t ↦ rw t (ground (arith, t), tt)
  | inr f ↦ rw f (ground (arith, f), tt)
]
insert_chunk-IsSorted k (x ∷ y ∷ ys) h = elim (Bool-cases (leb k.chunk_no x.chunk_no)) [
  | inl t ↦ rw t (ground (arith, t), h)
  | inr f ↦
      let rest = insert_chunk-IsSorted k (y ∷ ys) h.1 in
      rw f (elim (Bool-cases (leb k.chunk_no y.chunk_no)) [
        | inl t ↦ rw t (ground (arith, f), rw t at rest)
        | inr g ↦ rw g (h.0, rw g at rest)
      ])
]

by_chunk_no-IsSorted : (ks : List DocumentChunk) → IsSorted (by_chunk_no ks)
unfolding by_chunk_no
by_chunk_no-IsSorted [] = tt
by_chunk_no-IsSorted (k ∷ ks) = insert_chunk-IsSorted k (by_chunk_no ks) (by_chunk_no-IsSorted ks)

length-insert_chunk :
    (k : DocumentChunk) (ks : List DocumentChunk) → length (insert_chunk k ks) ≡ suc (length ks)
length-insert_chunk k [] = refl
length-insert_chunk k (x ∷ xs) = elim (Bool-cases (leb k.chunk_no x.chunk_no)) [
  | inl t ↦ rw t refl
  | inr f ↦ rw f (omega (arith, length-insert_chunk k xs))
]

length-by_chunk_no : (ks : List DocumentChunk) → length (by_chunk_no ks) ≡ length ks
unfolding by_chunk_no
length-by_chunk_no [] = refl
length-by_chunk_no (k ∷ ks) =
    omega (arith, length-insert_chunk k (by_chunk_no ks), length-by_chunk_no ks)

drop-nil {ℓ} : {A : Type ℓ} (n : ℕ) → drop {A = A} n [] ≡ []
drop-nil zero = refl
drop-nil (suc n) = refl

drop-drop {ℓ} : {A : Type ℓ} (m n : ℕ) (xs : List A) → drop n (drop m xs) ≡ drop (m + n) xs
drop-drop zero n xs = let e : zero + n ≡ n = omega arith in rw e refl
drop-drop (suc m) n [] = drop-nil n ∙ sym (drop-nil (suc m + n))
drop-drop (suc m) n (x ∷ xs) =
    let e : suc m + n ≡ suc (m + n) = omega arith in rw e (drop-drop m n xs)

take-add {ℓ} :
    {A : Type ℓ} (m n : ℕ) (xs : List A) → take m xs ++ take n (drop m xs) ≡ take (m + n) xs
take-add zero n xs = let e : zero + n ≡ n = omega arith in rw e refl
take-add (suc m) zero [] = let e : suc m + 0 ≡ suc (m + 0) = omega arith in rw e refl
take-add (suc m) (suc n) [] = let e : suc m + suc n ≡ suc (m + suc n) = omega arith in rw e refl
take-add (suc m) n (x ∷ xs) =
    let e : suc m + n ≡ suc (m + n) = omega arith in rw e (ap (λ l. x ∷ l) (take-add m n xs))

take-all {ℓ} : {A : Type ℓ} (n : ℕ) (xs : List A) → length xs ≤ n → take n xs ≡ xs
take-all zero [] h = refl
take-all zero (x ∷ xs) h = absurd (omega arith)
take-all (suc n) [] h = refl
take-all (suc n) (x ∷ xs) h = ap (λ l. x ∷ l) (take-all n xs (omega arith))

-- The pages of one size, one after the other from an offset.
abbrev pub pages : (ℕ → List DocumentChunk) → ℕ → ℕ → ℕ → List DocumentChunk
pages page limit offset zero = []
pages page limit offset (suc count) = page offset ++ pages page limit (offset + limit) count

pages-take :
    (xs : List DocumentChunk) (limit offset count : ℕ)
    → pages (λ o. take limit (drop o xs)) limit offset count ≡ take (count * limit) (drop offset xs)
pages-take xs limit offset zero = let e : zero * limit ≡ zero = omega arith in rw e refl
pages-take xs limit offset (suc count) =
    let e : suc count * limit ≡ limit + count * limit = omega arith in
    rw (e, pages-take xs limit (offset + limit) count, sym (drop-drop offset limit xs))
      (take-add limit (count * limit) (drop offset xs))

count-insert_chunk :
    (p : DocumentChunk → Bool) (k : DocumentChunk) (ks : List DocumentChunk)
    → length (filter p (insert_chunk k ks)) ≡ length (filter p (k ∷ ks))
count-insert_chunk p k [] = refl
count-insert_chunk p k (x ∷ xs) = elim (Bool-cases (leb k.chunk_no x.chunk_no)) [
  | inl t ↦ rw t refl
  | inr f ↦
      let rest = count-insert_chunk p k xs in
      rw f (elim (Bool-cases (p k)) [
        | inl a ↦ elim (Bool-cases (p x)) [
          | inl b ↦ rw (a, b) (let r = rw a at rest in omega (arith, r))
          | inr b ↦ rw (a, b) (let r = rw a at rest in omega (arith, r))
        ]
        | inr a ↦ elim (Bool-cases (p x)) [
          | inl b ↦ rw (a, b) (let r = rw a at rest in omega (arith, r))
          | inr b ↦ rw (a, b) (let r = rw a at rest in omega (arith, r))
        ]
      ])
]

count-by_chunk_no :
    (p : DocumentChunk → Bool) (ks : List DocumentChunk)
    → length (filter p (by_chunk_no ks)) ≡ length (filter p ks)
unfolding by_chunk_no
count-by_chunk_no p [] = refl
count-by_chunk_no p (k ∷ ks) = count-insert_chunk p k (by_chunk_no ks) ∙ elim (Bool-cases (p k)) [
  | inl t ↦ rw t (omega (arith, count-by_chunk_no p ks))
  | inr f ↦ rw f (count-by_chunk_no p ks)
]

-- The pages of the chunks of a version, of any one size, read one after the other until they reach the total
-- that each page shows, are together the chunks of that version: each of them as often as the table has it, in
-- the order of their numbers, and as many as the total says.
pub pages_cover_version :
    (ctx : Context) (document target limit count : ℕ) (v : DocumentVersion) (db : Database)
    → (page_of ctx document target 0 limit v db).total ≤ count * limit
    → let all =
        pages (λ offset. (page_of ctx document target offset limit v db).items) limit 0 count in
      IsSorted all
      × (length all ≡ (page_of ctx document target 0 limit v db).total)
      × ((p : DocumentChunk → Bool)
          → length (filter p all)
            ≡ length (filter p (filter (of_version ctx document v.id) db.chunks)))
unfolding page_of
pages_cover_version ctx document target limit count v db enough =
    let own = filter (of_version ctx document v.id) db.chunks in
    let sorted = by_chunk_no own in
    let whole : pages (λ o. take limit (drop o sorted)) limit 0 count ≡ sorted =
      pages-take sorted limit 0 count
      ∙ take-all (count * limit) sorted (omega (arith, length-by_chunk_no own, enough)) in
    rw whole (by_chunk_no-IsSorted own, length-by_chunk_no own, λ p. count-by_chunk_no p own)
