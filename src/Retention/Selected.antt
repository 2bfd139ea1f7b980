-- ===== src/Retention/Selected.antt =====
-- Which rows a search for expired ones yields (services/api/src/tkp_api/governance/retention.py).
use tkp_platform.Base.{
  ℕ, zero, suc, ◌≤◌, ◌≡◌, refl, sym, ap, ◌∙◌, subst, inl, inr, Bool, true, false, not, ◌&&◌, ◌||◌,
  Option, List, [], ◌∷◌, ◌==◌, leb, any, contains, filter, map, take, length, arith, Bool-cases,
  ==_refl,
}
use tkp_platform.Base.AnyLaws.{contains-map-filter}
use tkp_platform.Retention.Service.{Row, is_expired, insert_row, by_age, select_expired, with_ids}

abbrev pub ids_of : List Row → List ℕ
ids_of = map (λ (row : Row). row.id)

contains-insert_row :
    (k : ℕ) (r : Row) (xs : List Row)
    → contains k (ids_of (insert_row r xs)) ≡ contains k (ids_of (r ∷ xs))
unfolding insert_row
contains-insert_row k r [] = refl
contains-insert_row k r (x ∷ xs) = elim (Bool-cases (leb r.created_at x.created_at)) [
  | inl t ↦ rw t refl
  | inr n ↦ rw n (rw (contains-insert_row k r xs) (ground arith))
]

contains-by_age : (k : ℕ) (xs : List Row) → contains k (ids_of (by_age xs)) ≡ contains k (ids_of xs)
unfolding by_age
contains-by_age k [] = refl
contains-by_age k (x ∷ xs) =
    contains-insert_row k x (by_age xs) ∙ ap (λ b. k == x.id || b) (contains-by_age k xs)

length-insert_row : (r : Row) (xs : List Row) → length (insert_row r xs) ≡ suc (length xs)
unfolding insert_row
length-insert_row r [] = refl
length-insert_row r (x ∷ xs) = elim (Bool-cases (leb r.created_at x.created_at)) [
  | inl t ↦ rw t refl
  | inr n ↦ rw n (ap suc (length-insert_row r xs))
]

length-by_age : (xs : List Row) → length (by_age xs) ≡ length xs
unfolding by_age
length-by_age [] = refl
length-by_age (x ∷ xs) = length-insert_row x (by_age xs) ∙ ap suc (length-by_age xs)

contains-take :
    (k n : ℕ) (xs : List Row)
    → contains k (ids_of (take n xs)) ≡ true
    → contains k (ids_of xs) ≡ true
contains-take k zero xs h = cc
contains-take k (suc n) [] h = cc
contains-take k (suc n) (x ∷ xs) h = elim (Bool-cases (k == x.id)) [
  | inl t ↦ rw t refl
  | inr m ↦ rw m (contains-take k n xs (rw m at h))
]

take-all : (n : ℕ) (xs : List Row) → length xs ≤ n → take n xs ≡ xs
take-all zero [] h = refl
take-all zero (x ∷ xs) h = ground (arith, h)
take-all (suc n) [] h = refl
take-all (suc n) (x ∷ xs) h = ap (λ l. x ∷ l) (take-all n xs (omega (arith, h)))

module _ (tenant : Option ℕ) (now days : ℕ) where
  -- An id is selected only if an expired row has it.
  pub selected-expired :
      (k : ℕ) (rows : List Row)
      → contains k (ids_of (select_expired tenant now days rows)) ≡ true
      → any (λ r. r.id == k && is_expired tenant now days r) rows ≡ true
  unfolding select_expired
  selected-expired k rows h =
      let expired = filter (is_expired tenant now days) rows in
      sym (contains-map-filter (λ (r : Row). r.id) (is_expired tenant now days) k rows)
      ∙ sym (contains-by_age k expired)
      ∙ contains-take k 1000 (by_age expired) h

  -- If they are not more than one query yields, the id of every expired row is selected.
  pub expired-selected :
      (k : ℕ) (rows : List Row)
      → length (filter (is_expired tenant now days) rows) ≤ 1000
      → any (λ r. r.id == k && is_expired tenant now days r) rows ≡ true
      → contains k (ids_of (select_expired tenant now days rows)) ≡ true
  unfolding select_expired
  expired-selected k rows few h =
      let expired = filter (is_expired tenant now days) rows in
      ap (λ l. contains k (ids_of l))
        (take-all 1000 (by_age expired) (subst (λ n. n ≤ 1000) (sym (length-by_age expired)) few))
      ∙ contains-by_age k expired
      ∙ contains-map-filter (λ (r : Row). r.id) (is_expired tenant now days) k rows
      ∙ h

-- A test that is passed by rows of listed ids only is passed by no row that is left.
pub none_left :
    (p : Row → Bool) (ids : List ℕ) (rows : List Row)
    → ((k : ℕ) → any (λ r. r.id == k && p r) rows ≡ true → contains k ids ≡ true)
    → any p (filter (λ r. not (with_ids ids r)) rows) ≡ false
none_left p ids [] h = refl
none_left p ids (x ∷ xs) h =
    let later = none_left p ids xs (λ k e. h k (ground (arith, e))) in
    elim (Bool-cases (p x)) [
      | inl t ↦ rw (h x.id (rw (==_refl x.id, t) refl)) later
      | inr n ↦ elim (Bool-cases (with_ids ids x)) [
        | inl y ↦ rw y later
        | inr m ↦ rw m (rw n later)
      ]
    ]
