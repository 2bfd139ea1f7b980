-- ===== src/Chunker/Pieces.antt =====
-- What cutting a text by characters and at the ends of sentences keeps
-- (services/worker/src/tkp_worker/chunker.py).
use mathlib.Core.List.{flatten}
use tkp_platform.Base.{
  ℕ, zero, suc, ◌-◌, ◌≤◌, ◌<◌, ◌≡◌, refl, ap, ◌∙◌, Option, none, some, [], ◌∷◌, ◌++◌, arith,
  append-nil, append_assoc, Bool-cases, inl, inr, map, length, take, drop, take-append-drop,
  length-take, length-drop, All,
}
use tkp_platform.Base.Text.{Text}
use tkp_platform.Chunker.Split.{is_stop, split_stops, full_sentences, chars_from, split_by_chars}

-- Each piece has at most `size` characters.
chars_from-bound :
    (f size step : ℕ) (t : Text) → All (λ (s : Text). length s ≤ size) (chars_from f size step t)
unfolding chars_from
chars_from-bound zero size step t = tt
chars_from-bound (suc f) size step [] = tt
chars_from-bound (suc f) size step (c ∷ t) =
    (omega (arith, length-take size (c ∷ t)), chars_from-bound f size step (drop step (c ∷ t)))

take-take : (n m : ℕ) (t : Text) → n ≤ m → take n (take m t) ≡ take n t
take-take zero m t h = refl
take-take (suc n) zero t h = absurd (omega arith)
take-take (suc n) (suc m) [] h = refl
take-take (suc n) (suc m) (c ∷ t) h = ap (λ (l : Text). c ∷ l) (take-take n m t (omega arith))

-- The first `step` characters of the pieces, one after the other, are the text.
chars_from-cover :
    (f size step : ℕ) (t : Text)
    → length t ≤ f
    → 0 < step
    → step ≤ size
    → flatten (map (take step) (chars_from f size step t)) ≡ t
unfolding chars_from flatten
chars_from-cover zero size step [] h p q = refl
chars_from-cover zero size step (c ∷ t) h p q = absurd (omega arith)
chars_from-cover (suc f) size step [] h p q = refl
chars_from-cover (suc f) size step (c ∷ t) h p q =
    rw
      (
        take-take step size (c ∷ t) q,
        chars_from-cover f size step (drop step (c ∷ t)) (omega (arith, length-drop step (c ∷ t))) p
            q,
      )
      (take-append-drop step (c ∷ t))

-- Cutting by characters yields pieces of at most `size` characters, and their beginnings, without
-- the overlaps, are together the whole text, if the overlap is below the size.
pub split_by_chars_covers :
    (size overlap : ℕ) (t : Text)
    → overlap < size
    → All (λ (s : Text). length s ≤ size) (split_by_chars size overlap t)
      × (flatten (map (take (size - overlap)) (split_by_chars size overlap t)) ≡ t)
unfolding split_by_chars
split_by_chars_covers size overlap t h = (
  chars_from-bound (length t) size (size - overlap) t,
  chars_from-cover (length t) size (size - overlap) t (omega arith) (omega arith) (omega arith),
)

abbrev run_text : Option Text → Text
run_text none = []
run_text (some run) = run

split_stops-flatten :
    (cur : Text) (run : Option Text) (t : Text)
    → flatten (full_sentences (split_stops cur run t)) ≡ cur ++ (run_text run ++ t)
unfolding split_stops full_sentences flatten
split_stops-flatten cur none [] = append-nil (cur ++ [])
split_stops-flatten cur (some run) [] = append_assoc cur run []
split_stops-flatten cur none (c ∷ t) = elim (Bool-cases (is_stop c)) [
  | inl stop ↦ rw stop (split_stops-flatten cur (some (c ∷ [])) t)
  | inr more ↦ rw more (split_stops-flatten (cur ++ c ∷ []) none t ∙ append_assoc cur (c ∷ []) t)
]
split_stops-flatten cur (some run) (c ∷ t) = elim (Bool-cases (is_stop c)) [
  | inl stop ↦ rw stop (
      split_stops-flatten cur (some (run ++ c ∷ [])) t
      ∙ ap (λ (l : Text). cur ++ l) (append_assoc run (c ∷ []) t))
  | inr more ↦ rw more (
      ap (λ (l : Text). (cur ++ run) ++ l) (split_stops-flatten (c ∷ []) none t)
      ∙ append_assoc cur run (c ∷ t))
]

-- The sentences of a paragraph, each with the stops behind it, are together the paragraph.
full_sentences_cover :
    (paragraph : Text) → flatten (full_sentences (split_stops [] none paragraph)) ≡ paragraph
full_sentences_cover paragraph = split_stops-flatten [] none paragraph
