-- ===== src/Base/AnyLaws.antt =====
-- What a membership test on the ids of a query says of the rows.
use tkp_platform.Base.{
  ℕ, ◌≡◌, refl, inl, inr, Bool, true, false, not, ◌&&◌, List, [], ◌∷◌, ◌==◌, arith, Bool-cases, any,
  contains, filter, map, find, update_where, ◌++◌, ◌||◌, some, some_inj, ap,
}

module _ {ℓ} {A : Type ℓ} where
  pub any_congr : (p q : A → Bool) (xs : List A) → ((x : A) → p x ≡ q x) → any p xs ≡ any q xs
  any_congr p q [] h = refl
  any_congr p q (x ∷ xs) h = rw (h x, any_congr p q xs h) refl

  pub any-false : (p : A → Bool) (xs : List A) → ((x : A) → p x ≡ false) → any p xs ≡ false
  any-false p [] h = refl
  any-false p (x ∷ xs) h = rw (h x) (any-false p xs h)

  pub contains-map-filter :
      (f : A → ℕ) (p : A → Bool) (k : ℕ) (xs : List A)
      → contains k (map f (filter p xs)) ≡ any (λ x. f x == k && p x) xs
  contains-map-filter f p k [] = refl
  contains-map-filter f p k (x ∷ xs) = elim (Bool-cases (p x)) [
    | inl t ↦ rw (t, contains-map-filter f p k xs) (ground arith)
    | inr n ↦ rw (n, contains-map-filter f p k xs) (ground arith)
  ]

  pub any-and_const :
      (p : A → Bool) (c : Bool) (xs : List A) → any (λ x. p x && c) xs ≡ (any p xs && c)
  any-and_const p c [] = refl
  any-and_const p c (x ∷ xs) = rw (any-and_const p c xs) (ground arith)

pub map_congr_on {ℓ} :
    {B : Type ℓ} (f g : ℕ → B) (ids : List ℕ)
    → ((k : ℕ) → contains k ids ≡ true → f k ≡ g k)
    → map f ids ≡ map g ids
map_congr_on f g [] h = refl
map_congr_on f g (a ∷ ids) h =
    let e : f a ≡ g a = h a (ground arith) in
    rw (e, map_congr_on f g ids (λ k c. h k (ground arith))) refl

-- The row that a search finds passes any further test that it is known to pass.
pub any-find {ℓ} :
    {A : Type ℓ} (p q : A → Bool) (a : A) (xs : List A)
    → find p xs ≡ some a
    → q a ≡ true
    → any (λ x. p x && q x) xs ≡ true
any-find p q a [] h qa = cc
any-find p q a (x ∷ xs) h qa = elim (Bool-cases (p x)) [
  | inl t ↦ let same : x ≡ a = some_inj (rw t at h) in rw (t, ap q same, qa) refl
  | inr f ↦ rw (f, any-find p q a xs (rw f at h) qa) refl
]

module _ {ℓ} {A : Type ℓ} (p : A → Bool) where
  pub any-append : (xs ys : List A) → any p (xs ++ ys) ≡ (any p xs || any p ys)
  any-append [] ys = refl
  any-append (x ∷ xs) ys = rw (any-append xs ys) (ground arith)

  -- An update that no row fails the test by leaves a row that passes it.
  pub any-update_keep :
      (q : A → Bool) (f : A → A) (xs : List A)
      → ((x : A) → p x ≡ true → p (f x) ≡ true)
      → any p xs ≡ true
      → any p (update_where q f xs) ≡ true
  any-update_keep q f [] keep h = h
  any-update_keep q f (x ∷ xs) keep h = elim (Bool-cases (p x)) [
    | inl t ↦ elim (Bool-cases (q x)) [ inl u ↦ rw (u, keep x t) refl | inr u ↦ rw (u, t) refl ]
    | inr n ↦
        let e : any p (update_where q f xs) ≡ true = any-update_keep q f xs keep (rw n at h) in
        rw e (ground arith)
  ]

  -- An update of a row that is there yields a row that passes the test.
  pub any-update_hit :
      (q : A → Bool) (f : A → A) (xs : List A)
      → ((x : A) → q x ≡ true → p (f x) ≡ true)
      → any q xs ≡ true
      → any p (update_where q f xs) ≡ true
  any-update_hit q f [] hit h = cc
  any-update_hit q f (x ∷ xs) hit h = elim (Bool-cases (q x)) [
    | inl u ↦ rw (u, hit x u) refl
    | inr u ↦
        let e : any p (update_where q f xs) ≡ true = any-update_hit q f xs hit (rw u at h) in
        rw (u, e) (ground arith)
  ]

  -- A row among the selected ones is among all of them.
  pub any-filter : (q : A → Bool) (xs : List A) → any p (filter q xs) ≡ true → any p xs ≡ true
  any-filter q [] h = h
  any-filter q (x ∷ xs) h = elim (Bool-cases (q x)) [
    | inr n ↦ rw (any-filter q xs (rw n at h)) (ground arith)
    | inl t ↦ elim (Bool-cases (p x)) [
      | inl u ↦ rw u refl
      | inr u ↦ rw (any-filter q xs (rw (t, u) at h)) (ground arith)
    ]
  ]

-- No row passes a test that is among the rows that fail it.
pub any-not {ℓ} :
    {A : Type ℓ} (p q : A → Bool) (xs : List A)
    → ((x : A) → p x ≡ true → q x ≡ true)
    → any p (filter (λ x. not (q x)) xs) ≡ false
any-not p q [] h = refl
any-not p q (x ∷ xs) h = elim (Bool-cases (q x)) [
  | inl t ↦ rw t (any-not p q xs h)
  | inr n ↦ elim (Bool-cases (p x)) [
    | inl t ↦ let e = h x t in cc (e, n)
    | inr m ↦ rw n (rw m (any-not p q xs h))
  ]
]

pub any-and_filter {ℓ} :
    {A : Type ℓ} (q p : A → Bool) (xs : List A) → any (λ x. p x && q x) xs ≡ any q (filter p xs)
any-and_filter q p [] = refl
any-and_filter q p (x ∷ xs) = elim (Bool-cases (p x)) [
  | inl t ↦ rw t (ap (λ b. q x || b) (any-and_filter q p xs))
  | inr n ↦ rw n (any-and_filter q p xs)
]
