-- ===== src/Base/TextLaws.antt =====
-- Laws of texts that several components use.
use mathlib.Core.List.{map-append}
use tkp_platform.Base.{
  ==→eq, inr, inl, Bool-cases, ◌∙◌, ◌==◌, ==_refl, zero, suc, ◌-◌, ◌≤◌, ◌≡◌, refl, ap, ℕ, Bool,
  true, List, [], ◌∷◌, ◌++◌, arith, append-nil, any, length, take,
}
use tkp_platform.Base.Text.{Text, text_eq, starts_with, is_infix, lower}

pub starts_with-append : (s t r : Text) → starts_with s t ≡ true → starts_with s (t ++ r) ≡ true
unfolding starts_with
starts_with-append [] t r h = refl
starts_with-append (a ∷ s) [] r h = cc
starts_with-append (a ∷ s) (b ∷ t) r h = ground (arith, starts_with-append s t r)

-- What stands in a text stands in any text round it.
pub is_infix-append_right : (s t r : Text) → is_infix s t ≡ true → is_infix s (t ++ r) ≡ true
unfolding is_infix
is_infix-append_right [] [] [] h = refl
is_infix-append_right [] [] (c ∷ r) h = refl
is_infix-append_right (a ∷ s) [] r h = cc
is_infix-append_right s (b ∷ t) r h =
    ground (arith, starts_with-append s (b ∷ t) r, is_infix-append_right s t r)

pub is_infix-append_left : (s t r : Text) → is_infix s t ≡ true → is_infix s (r ++ t) ≡ true
unfolding is_infix
is_infix-append_left s t [] h = h
is_infix-append_left s t (c ∷ r) h = ground (arith, is_infix-append_left s t r)

pub lower-append : (s t : Text) → lower (s ++ t) ≡ lower s ++ lower t
unfolding lower
lower-append s t = map-append _ s t

pub any_mono :
    (p q : Text → Bool) (ms : List Text)
    → ((m : Text) → p m ≡ true → q m ≡ true)
    → any p ms ≡ true
    → any q ms ≡ true
any_mono p q [] h e = e
any_mono p q (m ∷ ms) h e = ground (arith, h m, any_mono p q ms h)

pub take-append : (n : ℕ) (s t : Text) → length s ≤ n → take n (s ++ t) ≡ s ++ take (n - length s) t
take-append n [] t h = let e : n - 0 ≡ n = omega arith in rw e
take-append zero (a ∷ s) t h = absurd (omega arith)
take-append (suc n) (a ∷ s) t h =
    let e : suc n - suc (length s) ≡ n - length s = omega arith in
    rw e (ap (λ (l : Text). a ∷ l) (take-append n s t (omega arith)))

pub starts_with_self : (s t : Text) → starts_with s (s ++ t) ≡ true
unfolding starts_with
starts_with_self [] t = refl
starts_with_self (a ∷ s) t = ground (arith, starts_with_self s t)

pub is_infix_self : (s : Text) → is_infix s s ≡ true
unfolding is_infix
is_infix_self [] = refl
is_infix_self (a ∷ s) = ground (arith, starts_with_self (a ∷ s) [], append-nil s)

pub text_eq_refl : (t : Text) → text_eq t t ≡ true
text_eq_refl [] = refl
text_eq_refl (c ∷ t) = rw (==_refl c, text_eq_refl t) refl

pub text_eq→eq : (s t : Text) → text_eq s t ≡ true → s ≡ t
text_eq→eq [] [] h = refl
text_eq→eq [] (b ∷ t) h = cc
text_eq→eq (a ∷ s) [] h = cc
text_eq→eq (a ∷ s) (b ∷ t) h = elim (Bool-cases (a == b)) [
  | inl e ↦
      let tail = text_eq→eq s t (rw e at h) in
      ap (λ c. c ∷ s) (==→eq a b e) ∙ ap (λ (r : Text). b ∷ r) tail
  | inr n ↦ cc (rw n at h)
]
