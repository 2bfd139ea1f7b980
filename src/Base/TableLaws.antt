-- ===== src/Base/TableLaws.antt =====
-- What the queries of `Base.Table` find and leave alone.
use tkp_platform.Base.{
  ◌≡◌, refl, inl, inr, Bool, true, false, not, some, none, some_inj, List, [], ◌∷◌, ◌++◌, arith,
  Bool-cases, ap, All, any, length, filter, find, map, update_where,
}

module _ {ℓ} {A : Type ℓ} where
  -- A row that a search returns passes its test.
  pub find-passes : (p : A → Bool) (xs : List A) (a : A) → find p xs ≡ some a → p a ≡ true
  find-passes p [] a h = cc
  find-passes p (x ∷ xs) a h = elim (Bool-cases (p x)) [
    | inl t ↦ let e : some x ≡ some a = rw t at h in ground (arith)
    | inr f ↦ find-passes p xs a (rw f at h)
  ]

  pub filter-append :
      (p : A → Bool) (xs ys : List A) → filter p (xs ++ ys) ≡ filter p xs ++ filter p ys
  filter-append p [] ys = refl
  filter-append p (x ∷ xs) ys = elim (Bool-cases (p x)) [
    | inl t ↦ rw t (ap (λ (l : List A). x ∷ l) (filter-append p xs ys))
    | inr f ↦ rw f (filter-append p xs ys)
  ]

  pub filter-filter : (p : A → Bool) (xs : List A) → filter p (filter p xs) ≡ filter p xs
  filter-filter p [] = refl
  filter-filter p (x ∷ xs) = elim (Bool-cases (p x)) [
    | inl t ↦ rw t (rw t (ap (λ (l : List A). x ∷ l) (filter-filter p xs)))
    | inr f ↦ rw f (filter-filter p xs)
  ]

  pub filter-not : (p : A → Bool) (xs : List A) → filter p (filter (λ x. not (p x)) xs) ≡ []
  filter-not p [] = refl
  filter-not p (x ∷ xs) = elim (Bool-cases (p x)) [
    | inl t ↦ rw t (filter-not p xs)
    | inr f ↦ rw f (rw f (filter-not p xs))
  ]

  pub length-update_where :
      (p : A → Bool) (f : A → A) (xs : List A) → length (update_where p f xs) ≡ length xs
  length-update_where p f [] = refl
  length-update_where p f (x ∷ xs) = omega (arith, length-update_where p f xs)

  pub All-update_where {κ} :
      (P : A → Type κ) (p : A → Bool) (f : A → A) (xs : List A)
      → ((x : A) → P x → p x ≡ true → P (f x))
      → All P xs
      → All P (update_where p f xs)
  All-update_where P p f [] keep h = tt
  All-update_where P p f (x ∷ xs) keep h = elim (Bool-cases (p x)) [
    | inl t ↦ rw t (keep x h.0 t, All-update_where P p f xs keep h.1)
    | inr e ↦ rw e (h.0, All-update_where P p f xs keep h.1)
  ]

  -- An update turns one statement of every row into another.
  pub All-update_to {κ μ} :
      (P : A → Type κ) (Q : A → Type μ) (p : A → Bool) (f : A → A) (xs : List A)
      → ((x : A) → P x → p x ≡ true → Q (f x))
      → ((x : A) → P x → p x ≡ false → Q x)
      → All P xs
      → All Q (update_where p f xs)
  All-update_to P Q p f [] hit miss h = tt
  All-update_to P Q p f (x ∷ xs) hit miss h = elim (Bool-cases (p x)) [
    | inl t ↦ rw t (hit x h.0 t, All-update_to P Q p f xs hit miss h.1)
    | inr e ↦ rw e (miss x h.0 e, All-update_to P Q p f xs hit miss h.1)
  ]

  -- An update that leaves a field alone leaves the list of that field alone.
  pub map-update_where {κ} :
      {B : Type κ} (g : A → B) (p : A → Bool) (f : A → A) (xs : List A)
      → ((x : A) → g (f x) ≡ g x)
      → map g (update_where p f xs) ≡ map g xs
  map-update_where g p f [] h = refl
  map-update_where {B} g p f (x ∷ xs) h = elim (Bool-cases (p x)) [
    | inl t ↦ rw t (rw h (ap (λ (l : List B). g x ∷ l) (map-update_where g p f xs h)))
    | inr e ↦ rw e (ap (λ (l : List B). g x ∷ l) (map-update_where g p f xs h))
  ]

pub filter-none {ℓ} :
    {A : Type ℓ} (p : A → Bool) (xs : List A) → any p xs ≡ false → filter p xs ≡ []
filter-none p [] h = refl
filter-none p (x ∷ xs) h = elim (Bool-cases (p x)) [
  | inl px ↦ cc (rw px at h)
  | inr nx ↦ rw nx (filter-none p xs (rw nx at h))
]

-- An update of rows that a query does not select, before and after, leaves its answer alone.
pub filter-update_where {ℓ} :
    {A : Type ℓ} (p q : A → Bool) (f : A → A) (xs : List A)
    → ((x : A) → q x ≡ true → (p x ≡ false) × (p (f x) ≡ false))
    → filter p (update_where q f xs) ≡ filter p xs
filter-update_where p q f [] miss = refl
filter-update_where p q f (x ∷ xs) miss = elim (Bool-cases (q x)) [
  | inl u ↦
      let (before, after) = miss x u in rw (u, before, after) (filter-update_where p q f xs miss)
  | inr u ↦ rw (u, filter-update_where p q f xs miss) refl
]

-- A search finds a row that is appended, if nothing before it passes the test.
pub find-append_new {ℓ} :
    {A : Type ℓ} (p : A → Bool) (a : A) (xs : List A)
    → find p xs ≡ none
    → p a ≡ true
    → find p (xs ++ a ∷ []) ≡ some a
find-append_new p a [] n h = rw h refl
find-append_new p a (x ∷ xs) n h = elim (Bool-cases (p x)) [
  | inl t ↦ cc (rw t at n)
  | inr f ↦ rw f (find-append_new p a xs (rw f at n) h)
]

-- A search finds the row as it is after the update, if the update keeps what the test reads.
pub find-update_where {ℓ} :
    {A : Type ℓ} (p : A → Bool) (f : A → A) (a : A) (xs : List A)
    → ((x : A) → p (f x) ≡ p x)
    → find p xs ≡ some a
    → find p (update_where p f xs) ≡ some (f a)
find-update_where p f a [] keep h = cc
find-update_where p f a (x ∷ xs) keep h = elim (Bool-cases (p x)) [
  | inl t ↦ let same : x ≡ a = some_inj (rw t at h) in rw (t, keep x, t, same) refl
  | inr n ↦ rw (n, n) (find-update_where p f a xs keep (rw n at h))
]

-- A query is not affected by the deletion of rows that it does not select.
pub filter-outside {ℓ} :
    {A : Type ℓ} (p q : A → Bool) (xs : List A)
    → ((x : A) → p x ≡ true → q x ≡ false)
    → filter p (filter (λ x. not (q x)) xs) ≡ filter p xs
filter-outside p q [] h = refl
filter-outside p q (x ∷ xs) h = elim (Bool-cases (p x)) [
  | inl t ↦ rw (h x t, t) (ap (λ l. x ∷ l) (filter-outside p q xs h))
  | inr n ↦ elim (Bool-cases (q x)) [
    | inl u ↦ rw (u, n) (filter-outside p q xs h)
    | inr u ↦ rw (u, n) (filter-outside p q xs h)
  ]
]

pub filter-all {ℓ} :
    {A : Type ℓ} (p : A → Bool) (xs : List A) → ((x : A) → p x ≡ true) → filter p xs ≡ xs
filter-all p [] h = refl
filter-all p (x ∷ xs) h = rw (h x) (ap (λ l. x ∷ l) (filter-all p xs h))

pub filter_congr {ℓ} :
    {A : Type ℓ} (p q : A → Bool) (xs : List A) → ((x : A) → p x ≡ q x) → filter p xs ≡ filter q xs
filter_congr p q [] e = refl
filter_congr p q (x ∷ xs) e = elim (Bool-cases (q x)) [
  | inl t ↦ rw (e x, t) (ap (λ l. x ∷ l) (filter_congr p q xs e))
  | inr n ↦ rw (e x, n) (filter_congr p q xs e)
]
