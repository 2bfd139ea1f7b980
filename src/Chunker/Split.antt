-- ===== src/Chunker/Split.antt =====
-- How `TextChunker` of services/worker/src/tkp_worker/chunker.py takes a text apart: at blank
-- lines, at the ends of sentences, and by characters. The regular expressions are written out.
use tkp_platform.Base.{
  ℕ, zero, suc, ◌-◌, Bool, true, false, not, ◌||◌, Option, none, some, List, [], ◌∷◌, ◌++◌, ◌==◌,
  if◌then◌else◌, length, take, drop, filter, map,
}
use tkp_platform.Base.Text.{Text, is_space, strip}

abbrev pub newline : ℕ
newline = 10

-- The text behind the longest match of `\s*\n` at the front.
unfoldable pub blank_rest : Text → Option Text
unfolding is_space
blank_rest [] = none
blank_rest (c ∷ t) =
    if is_space c
    then elim (blank_rest t) [ some r ↦ some r | none ↦ if c == newline then some t else none ]
    else none

-- `\n\s*\n` at the front.
unfoldable pub match_blank : Text → Option Text
unfolding blank_rest
match_blank [] = none
match_blank (c ∷ t) = if c == newline then blank_rest t else none

-- re.split(r"\n\s*\n", text): `cur` is the piece that is being read. Each round reads a character at
-- least, so a fuel above the length is enough.
unfoldable pub split_blank : ℕ → Text → Text → List Text
split_blank zero cur t = cur ∷ []
split_blank (suc f) cur [] = cur ∷ []
split_blank (suc f) cur (c ∷ t) = elim (match_blank (c ∷ t)) [
  | some r ↦ cur ∷ split_blank f [] r
  | none ↦ split_blank f (cur ++ c ∷ []) t
]

abbrev pub is_empty : Text → Bool
is_empty [] = true
is_empty (_ ∷ _) = false

-- `_split_paragraphs`
unfoldable pub split_paragraphs : Text → List Text
unfolding split_blank match_blank strip
split_paragraphs text =
    map strip (filter (λ p. not (is_empty (strip p))) (split_blank (suc (length text)) [] text))

-- The class `[。！？.!?]`.
unfoldable pub is_stop : ℕ → Bool
is_stop c = c == 12290 || c == 65281 || c == 65311 || c == 46 || c == 33 || c == 63

-- re.split(r"([。！？.!?]+)", paragraph): pieces of text and runs of stops by turns, a piece first.
-- `run` is the run of stops that is being read, if one is.
unfoldable pub split_stops : Text → Option Text → Text → List Text
split_stops cur none [] = cur ∷ []
split_stops cur (some run) [] = cur ∷ run ∷ [] ∷ []
split_stops cur none (c ∷ t) =
    let stop = split_stops cur (some (c ∷ [])) t in
    let more = split_stops (cur ++ c ∷ []) none t in if is_stop c then stop else more
split_stops cur (some run) (c ∷ t) =
    let stop = split_stops cur (some (run ++ c ∷ [])) t in
    let more = cur ∷ run ∷ split_stops (c ∷ []) none t in if is_stop c then stop else more

-- `for i in range(0, len(sentences), 2)`: each piece with the run behind it.
unfoldable pub full_sentences : List Text → List Text
full_sentences [] = []
full_sentences (s ∷ []) = (s ++ []) ∷ []
full_sentences (s ∷ p ∷ rest) = (s ++ p) ∷ full_sentences rest

-- `text[i : i + size]` for `i` from 0 by `size - overlap`; enough fuel is the length.
unfoldable pub chars_from : ℕ → ℕ → ℕ → Text → List Text
chars_from zero size step t = []
chars_from (suc f) size step [] = []
chars_from (suc f) size step (c ∷ t) =
    take size (c ∷ t) ∷ chars_from f size step (drop step (c ∷ t))

-- `_split_by_chars`
unfoldable pub split_by_chars : ℕ → ℕ → Text → List Text
unfolding chars_from
split_by_chars size overlap t = chars_from (length t) size (size - overlap) t
