-- ===== src/Chunker/Coverage.antt =====
-- No paragraph is lost between `_split_paragraphs` and the chunks
-- (services/worker/src/tkp_worker/chunker.py).
use mathlib.Core.List.{reverse}
use tkp_platform.Base.{
  ℕ, ◌+◌, ◌≤◌, ◌≡◌, refl, sym, subst, true, false, List, [], ◌∷◌, ◌++◌, arith, Bool-cases, inl, inr,
  ltb, any, length, All,
}
use tkp_platform.Base.Text.{Text, is_infix, join, strip}
use tkp_platform.Base.TextLaws.{is_infix_self, is_infix-append_left, is_infix-append_right}
use tkp_platform.Chunker.Chunks.{
  TextChunker, separator, saved, total_length, take_overlap, split_long_paragraph,
  gather_paragraphs, chunk_text,
}
use tkp_platform.Chunker.Split.{is_empty, split_paragraphs}

-- Some chunk holds the paragraph in one piece.
abbrev pub InSome : List Text → Text → Type 0
InSome chunks p = any (is_infix p) chunks ≡ true

InSome-left : (xs ys : List Text) (p : Text) → InSome xs p → InSome (xs ++ ys) p
InSome-left [] ys p h = cc
InSome-left (x ∷ xs) ys p h = ground (arith, InSome-left xs ys p)

InSome-right : (xs ys : List Text) (p : Text) → InSome ys p → InSome (xs ++ ys) p
InSome-right [] ys p h = h
InSome-right (x ∷ xs) ys p h = ground (arith, InSome-right xs ys p h)

All-left : (ps : List Text) (xs ys : List Text) → All (InSome xs) ps → All (InSome (xs ++ ys)) ps
All-left [] xs ys h = tt
All-left (p ∷ ps) xs ys h = (InSome-left xs ys p h.0, All-left ps xs ys h.1)

-- A joined chunk holds each of its paragraphs.
abbrev InJoin : List Text → Text → Type 0
InJoin ps p = is_infix p (join separator ps) ≡ true

InJoin-cons :
    (q r : Text) (ps qs : List Text) → All (InJoin (r ∷ qs)) ps → All (InJoin (q ∷ r ∷ qs)) ps
unfolding join
InJoin-cons q r [] qs h = tt
InJoin-cons q r (p ∷ ps) qs h =
    let later = join separator (r ∷ qs) in
    (
      is_infix-append_left p (separator ++ later) q (is_infix-append_left p later separator h.0),
      InJoin-cons q r ps qs h.1,
    )

join_holds : (ps : List Text) → All (InJoin ps) ps
unfolding join
join_holds [] = tt
join_holds (p ∷ []) = (is_infix_self p, tt)
join_holds (p ∷ q ∷ ps) = (
  is_infix-append_right p p (separator ++ join separator (q ∷ ps)) (is_infix_self p),
  InJoin-cons p q (q ∷ ps) ps (join_holds (q ∷ ps)),
)

InJoin-InSome : (qs ps : List Text) → All (InJoin qs) ps → All (InSome (join separator qs ∷ [])) ps
InJoin-InSome qs [] h = tt
InJoin-InSome qs (p ∷ ps) h = (rw h.0 refl, InJoin-InSome qs ps h.1)

saved_holds : (ps : List Text) → All (InSome (saved ps)) ps
saved_holds [] = tt
saved_holds (p ∷ ps) = InJoin-InSome (p ∷ ps) (p ∷ ps) (join_holds (p ∷ ps))

-- What is asked of the paragraphs that are still to come: those that fit into a chunk are in one.
abbrev ShortInSome : ℕ → List Text → Text → Type 0
ShortInSome size chunks p = length p ≤ size → InSome chunks p

Short-right :
    (size : ℕ) (ps : List Text) (xs ys : List Text)
    → All (ShortInSome size ys) ps
    → All (ShortInSome size (xs ++ ys)) ps
Short-right size [] xs ys h = tt
Short-right size (p ∷ ps) xs ys h =
    (λ short. InSome-right xs ys p (h.0 short), Short-right size ps xs ys h.1)

module _ (P : Text → Type 0) where
  front : (xs ys : List Text) → All P (xs ++ ys) → All P xs
  front [] ys h = tt
  front (x ∷ xs) ys h = (h.0, front xs ys h.1)

  last : (xs : List Text) (y : Text) → All P (xs ++ y ∷ []) → P y
  last [] y h = h.0
  last (x ∷ xs) y h = last xs y h.1

abbrev Holds : TextChunker → List Text → List Text → List Text → Type 0
Holds c current rest out = All (InSome out) current × All (ShortInSome c.chunk_size out) rest

module _ (c : TextChunker) (current : List Text) (n : ℕ) (para : Text) (rest : List Text) where
  abbrev next_chunk : List Text
  next_chunk = take_overlap c.chunk_overlap 0 [] (reverse current) ++ para ∷ []

  gather-long :
      ltb c.chunk_size (length para) ≡ true
      → gather_paragraphs c current n (para ∷ rest)
        ≡ saved current ++ (split_long_paragraph c para ++ gather_paragraphs c [] 0 rest)
  unfolding gather_paragraphs
  gather-long long = rw long

  gather-full :
      ltb c.chunk_size (length para) ≡ false
      → ltb c.chunk_size (n + length para) ≡ true
      → gather_paragraphs c current n (para ∷ rest)
        ≡ saved current ++ gather_paragraphs c next_chunk (total_length next_chunk) rest
  unfolding gather_paragraphs
  gather-full short full = rw (short, full)

  gather-room :
      ltb c.chunk_size (length para) ≡ false
      → ltb c.chunk_size (n + length para) ≡ false
      → gather_paragraphs c current n (para ∷ rest)
        ≡ gather_paragraphs c (current ++ para ∷ []) (n + length para) rest
  unfolding gather_paragraphs
  gather-room short room = rw (short, room)

gather-Holds :
    (c : TextChunker) (current : List Text) (n : ℕ) (rest : List Text)
    → Holds c current rest (gather_paragraphs c current n rest)
gather-Holds c current n [] = (unfold gather_paragraphs in saved_holds current, tt)
gather-Holds c current n (para ∷ rest) = elim (Bool-cases (ltb c.chunk_size (length para))) [
  | inl long ↦
      let after = gather_paragraphs c [] 0 rest in
      let pieces = split_long_paragraph c para in
      let ih = (gather-Holds c [] 0 rest).1 in
      subst (Holds c current (para ∷ rest)) (sym (gather-long c current n para rest long)) (
        All-left current (saved current) (pieces ++ after) (saved_holds current),
        (
          λ short. absurd (ground arith),
          Short-right c.chunk_size rest (saved current) (pieces ++ after)
              (Short-right c.chunk_size rest pieces after ih),
        ),
      )
  | inr short ↦ elim (Bool-cases (ltb c.chunk_size (n + length para))) [
    | inl full ↦
        let overlap = take_overlap c.chunk_overlap 0 [] (reverse current) in
        let next = overlap ++ para ∷ [] in
        let after = gather_paragraphs c next (total_length next) rest in
        let ih = gather-Holds c next (total_length next) rest in
        subst (Holds c current (para ∷ rest)) (sym (gather-full c current n para rest short full)) (
          All-left current (saved current) after (saved_holds current),
          (
            λ _. InSome-right (saved current) after para (last (InSome after) overlap para ih.0),
            Short-right c.chunk_size rest (saved current) after ih.1,
          ),
        )
    | inr room ↦
        let after = gather_paragraphs c (current ++ para ∷ []) (n + length para) rest in
        let ih = gather-Holds c (current ++ para ∷ []) (n + length para) rest in
        subst (Holds c current (para ∷ rest)) (sym (gather-room c current n para rest short room)) (
          front (InSome after) current (para ∷ []) ih.0,
          (λ _. last (InSome after) current para ih.0, ih.1),
        )
  ]
]

-- Of a text that is not blank, every paragraph that is no longer than a chunk stands in one piece in some chunk.
pub chunk_text_keeps_paragraphs :
    (c : TextChunker) (text : Text)
    → is_empty (strip text) ≡ false
    → All (λ p. length p ≤ c.chunk_size → InSome (chunk_text c text) p) (split_paragraphs text)
unfolding chunk_text
chunk_text_keeps_paragraphs c text h = rw h (gather-Holds c [] 0 (split_paragraphs text)).1
