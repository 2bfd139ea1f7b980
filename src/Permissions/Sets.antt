-- ===== src/Permissions/Sets.antt =====
-- `sorted({...})` of texts: in ascending order of the code points, each text once.
use tkp_platform.Base.{
  ◌≡◌, refl, ap, ◌∙◌, inl, inr, Bool, true, false, ◌&&◌, ◌||◌, List, [], ◌∷◌, ◌==◌, if◌then◌else◌,
  ltb, any, arith, Bool-cases,
}
use tkp_platform.Base.Text.{Text, text_eq}
use tkp_platform.Base.TextLaws.{text_eq→eq}

-- `s < t`
abbrev pub text_lt : Text → Text → Bool
text_lt s [] = false
text_lt [] (b ∷ t) = true
text_lt (a ∷ s) (b ∷ t) = ltb a b || (a == b && text_lt s t)

abbrev pub has_code : Text → List Text → Bool
has_code c = any (text_eq c)

unfoldable pub insert : Text → List Text → List Text
insert c [] = c ∷ []
insert c (d ∷ ds) =
    let later = insert c ds in
    if text_eq c d then d ∷ ds else if text_lt c d then c ∷ d ∷ ds else d ∷ later

unfoldable pub sorted_set : List Text → List Text
sorted_set [] = []
sorted_set (c ∷ cs) = insert c (sorted_set cs)

has-insert :
    (x c : Text) (ds : List Text) → has_code x (insert c ds) ≡ (text_eq x c || has_code x ds)
unfolding insert
has-insert x c [] = refl
has-insert x c (d ∷ ds) = elim (Bool-cases (text_eq c d)) [
  | inl e ↦ rw e (rw (text_eq→eq c d e) (ground arith))
  | inr n ↦ elim (Bool-cases (text_lt c d)) [
    | inl l ↦ rw (n, l) refl
    | inr l ↦ rw (n, l) (rw (has-insert x c ds) (ground arith))
  ]
]

-- The set has the elements of the list.
pub has-sorted_set : (x : Text) (cs : List Text) → has_code x (sorted_set cs) ≡ has_code x cs
unfolding sorted_set
has-sorted_set x [] = refl
has-sorted_set x (c ∷ cs) =
    has-insert x c (sorted_set cs) ∙ ap (λ b. text_eq x c || b) (has-sorted_set x cs)
