-- ===== src/Base/Unique.antt =====
-- Tables under a uniqueness constraint: a query on its key has one row at most.
use tkp_platform.Base.{
  ◌≡◌, refl, ap, ◌⊎◌, inl, inr, Bool, true, false, List, [], ◌∷◌, arith, Bool-cases, any, filter,
}

-- No two rows agree on the key.
abbrev pub UniqueBy {ℓ} : {A : Type ℓ} → (A → A → Bool) → List A → Type 0
UniqueBy same [] = Unit
UniqueBy same (x ∷ xs) = (any (same x) xs ≡ false) × UniqueBy same xs

module _ {ℓ} {A : Type ℓ} (same : A → A → Bool) (p : A → Bool)
    (fixes : (x y : A) → p x ≡ true → p y ≡ true → same x y ≡ true) where
  filter-rest : (x : A) (xs : List A) → p x ≡ true → any (same x) xs ≡ false → filter p xs ≡ []
  filter-rest x [] px h = refl
  filter-rest x (y ∷ ys) px h = elim (Bool-cases (p y)) [
    | inl py ↦ let e : same x y ≡ true = fixes x y px py in cc (rw e at h)
    | inr ny ↦ rw ny (filter-rest x ys px (ground arith))
  ]

  -- The rows that the test selects: none, or one.
  pub unique-filter :
      (xs : List A)
      → UniqueBy same xs
      → ((filter p xs ≡ []) × (any p xs ≡ false))
        ⊎ ((a : A) × (filter p xs ≡ a ∷ []) × (p a ≡ true) × (any p xs ≡ true))
  unique-filter [] u = inl (refl, refl)
  unique-filter (x ∷ xs) u = elim (Bool-cases (p x)) [
    | inl px ↦ inr (x, rw px (ap (λ (l : List A). x ∷ l) (filter-rest x xs px u.0)), px, rw px refl)
    | inr nx ↦ elim (unique-filter xs u.1) [
      | inl (e, n) ↦ inl (rw nx e, rw nx n)
      | inr (a, e, pa, n) ↦ inr (a, rw nx e, pa, rw nx n)
    ]
  ]
