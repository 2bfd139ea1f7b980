-- ===== src/Tenants/Survivors.antt =====
-- Rows that an update leaves alone; what the members of a tenant
-- (services/api/src/tkp_api/api/tenants.py) are counted with.
use tkp_platform.Base.{
  suc, ◌≤◌, ◌≡◌, refl, ◌∙◌, inl, inr, Bool, true, false, not, ◌&&◌, List, [], ◌∷◌, arith, any,
  filter, length, update_where, Bool-cases,
}

module _ {ℓ} {A : Type ℓ} (p key : A → Bool) where
  -- Rows that pass one test, outside the rows of another.
  pub any-outside :
      (xs : List A)
      → suc (length (filter key xs)) ≤ length (filter p xs)
      → any (λ x. p x && not (key x)) xs ≡ true
  any-outside [] h = absurd (omega arith)
  any-outside (x ∷ xs) h = elim (Bool-cases (p x)) [
    | inl t ↦ elim (Bool-cases (key x)) [
      | inl k ↦
          let less = rw (t, k) at h in
          let rest = any-outside xs (omega (arith, less)) in rw (t, k, rest) refl
      | inr k ↦ rw (t, k) refl
    ]
    | inr f ↦ elim (Bool-cases (key x)) [
      | inl k ↦
          let less = rw (f, k) at h in
          let rest = any-outside xs (omega (arith, less)) in rw (f, rest) refl
      | inr k ↦ let less = rw (f, k) at h in rw (f, any-outside xs less) refl
    ]
  ]

  pub outside-stays :
      (f : A → A) (xs : List A)
      → any (λ x. p x && not (key x)) xs ≡ true
      → any p (update_where key f xs) ≡ true
  outside-stays f [] h = cc
  outside-stays f (x ∷ xs) h = elim (Bool-cases (key x)) [
    | inl k ↦
        let rest : any p (update_where key f xs) ≡ true =
          outside-stays f xs (let r = rw k at h in ground (arith, r)) in
        rw (k, rest) (ground arith)
    | inr n ↦ elim (Bool-cases (p x)) [
      | inl t ↦ rw (n, t) refl
      | inr f' ↦ rw (n, f') (outside-stays f xs (rw (n, f') at h))
    ]
  ]

  -- The only row with the key fails the test, so that another one passes it.
  pub any-not_key :
      (m : A) (xs : List A)
      → filter key xs ≡ m ∷ []
      → p m ≡ false
      → any p xs ≡ true
      → any (λ x. p x && not (key x)) xs ≡ true
  any-not_key m xs only fails h = other xs (all_fail xs only) h
    where
      all_fail : (ys : List A) → filter key ys ≡ m ∷ [] → any (λ x. p x && key x) ys ≡ false
      all_fail ys e = any-and-filter ys ∙ rw (e, fails) refl
        where
          any-and-filter : (zs : List A) → any (λ x. p x && key x) zs ≡ any p (filter key zs)
          any-and-filter [] = refl
          any-and-filter (z ∷ zs) = elim (Bool-cases (key z)) [
            | inl t ↦ rw (t, any-and-filter zs) (ground arith)
            | inr n ↦ rw (n, any-and-filter zs) (ground arith)
          ]

      other :
          (ys : List A)
          → any (λ x. p x && key x) ys ≡ false
          → any p ys ≡ true
          → any (λ x. p x && not (key x)) ys ≡ true
      other [] n t = cc
      other (y ∷ ys) n t = ground (arith, other ys)
