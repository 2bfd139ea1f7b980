-- ===== src/Members/Counted.antt =====
-- How many rows a query finds, for the queries of
-- services/api/src/tkp_api/services/membership_sync.py.
use tkp_platform.Base.{
  ◌≤◌, ◌≡◌, ◌⊎◌, refl, ap, inl, inr, Bool, true, false, List, [], ◌∷◌, arith, any, filter, length,
  update_where, Bool-cases,
}

module _ {ℓ} {A : Type ℓ} where
  -- A narrower test selects no more rows.
  pub length-filter_le :
      (p q : A → Bool) (xs : List A)
      → ((x : A) → p x ≡ true → q x ≡ true)
      → length (filter p xs) ≤ length (filter q xs)
  length-filter_le p q [] h = omega arith
  length-filter_le p q (x ∷ xs) h =
      let rest = length-filter_le p q xs h in
      elim (Bool-cases (p x)) [
        | inl t ↦ rw (t, h x t) (omega (arith, rest))
        | inr f ↦ elim (Bool-cases (q x)) [
          | inl t ↦ rw (f, t) (omega (arith, rest))
          | inr n ↦ rw (f, n) rest
        ]
      ]

  -- An update that keeps the test keeps how many rows pass it.
  pub length-filter_update :
      (p q : A → Bool) (f : A → A) (xs : List A)
      → ((x : A) → p (f x) ≡ p x)
      → length (filter p (update_where q f xs)) ≡ length (filter p xs)
  length-filter_update p q f [] same = refl
  length-filter_update p q f (x ∷ xs) same =
      let rest = length-filter_update p q f xs same in
      elim (Bool-cases (q x)) [
        | inl t ↦ elim (Bool-cases (p x)) [
          | inl px ↦ rw (t, same x, px) (omega (arith, rest))
          | inr px ↦ rw (t, same x, px) rest
        ]
        | inr n ↦ elim (Bool-cases (p x)) [
          | inl px ↦ rw (n, px) (omega (arith, rest))
          | inr px ↦ rw (n, px) rest
        ]
      ]

  -- If a test finds nothing among the rows of a wider query, it finds nothing.
  pub filter-beyond :
      (p q : A → Bool) (xs : List A)
      → ((x : A) → p x ≡ true → q x ≡ true)
      → any p (filter q xs) ≡ false
      → filter p xs ≡ []
  filter-beyond p q [] h e = refl
  filter-beyond p q (x ∷ xs) h e = elim (Bool-cases (p x)) [
    | inl t ↦ let found = rw (h x t) at e in cc (t, rw t at found)
    | inr f ↦ elim (Bool-cases (q x)) [
      | inl t ↦ rw f (filter-beyond p q xs h (rw (t, f) at e))
      | inr n ↦ rw f (filter-beyond p q xs h (rw n at e))
    ]
  ]

  -- A test that a row passes, but not two, selects one row.
  pub filter-single :
      (p : A → Bool) (xs : List A)
      → any p xs ≡ true
      → length (filter p xs) ≤ 1
      → (a : A) × (filter p xs ≡ a ∷ [])
  filter-single p xs some_row few = elim (filter_cases p xs) [
    | inl (e, n) ↦ cc (some_row, n)
    | inr (inl found) ↦ found
    | inr (inr many) ↦ absurd (omega (arith, few, many))
  ]
    where
      filter_cases :
          (p : A → Bool) (xs : List A)
          → ((filter p xs ≡ []) × (any p xs ≡ false))
            ⊎ (((a : A) × (filter p xs ≡ a ∷ [])) ⊎ (2 ≤ length (filter p xs)))
      filter_cases p [] = inl (refl, refl)
      filter_cases p (x ∷ xs) = elim (Bool-cases (p x)) [
        | inr f ↦ rw f (filter_cases p xs)
        | inl t ↦ elim (filter_cases p xs) [
          | inl (e, n) ↦ inr (inl (x, rw t (ap (λ l. x ∷ l) e)))
          | inr (inl (a, e)) ↦ inr (inr (rw (t, e) (omega arith)))
          | inr (inr many) ↦ inr (inr (rw t (omega (arith, many))))
        ]
      ]
