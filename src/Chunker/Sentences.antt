-- ===== src/Chunker/Sentences.antt =====
-- Where `_split_long_paragraph` of services/worker/src/tkp_worker/chunker.py leaves its size.
use tkp_platform.Base.{
  ℕ, ◌+◌, ◌≤◌, ◌<◌, ◌≡◌, refl, ◌∙◌, false, none, [], ◌∷◌, ◌++◌, arith, append-nil, append_assoc,
  length, length-append, All,
}
use tkp_platform.Base.Text.{Text}
use tkp_platform.Chunker.Split.{is_stop, split_stops, full_sentences, split_by_chars}
use tkp_platform.Chunker.Chunks.{TextChunker, last_chars, gather_sentences, split_long_paragraph}

-- A sentence that does not fit behind the text before it is put whole into the next piece, behind
-- the overlap, however long it is: only a sentence with nothing before it is cut by characters.
long_sentence_stays_whole :
    (c : TextChunker) (first long : Text)
    → length first ≤ c.chunk_size
    → c.chunk_size < length first + length long
    → (piece : Text) × (gather_sentences c false [] (first ∷ long ∷ []) ≡ first ∷ piece ∷ [])
      × (length long ≤ length piece)
unfolding gather_sentences
long_sentence_stays_whole c first long fits over = (
  last_chars c.chunk_overlap first ++ long,
  ground arith,
  omega (arith, length-append (last_chars c.chunk_overlap first) long),
)

-- With no overlap the slice `[-0:]` is the whole text, so a piece is repeated in full by the next.
zero_overlap_repeats :
    (c : TextChunker) (first second : Text)
    → c.chunk_overlap ≡ 0
    → length first ≤ c.chunk_size
    → c.chunk_size < length first + length second
    → gather_sentences c false [] (first ∷ second ∷ []) ≡ first ∷ (first ++ second) ∷ []
unfolding gather_sentences last_chars
zero_overlap_repeats c first second none_kept fits over = ground arith

one_sentence :
    (cur body : Text)
    → All (λ (ch : ℕ). is_stop ch ≡ false) body
    → split_stops cur none (body ++ 46 ∷ []) ≡ (cur ++ body) ∷ (46 ∷ []) ∷ [] ∷ []
unfolding split_stops
one_sentence cur [] h = unfold is_stop in rw (append-nil cur) refl
one_sentence cur (ch ∷ body) h =
    rw h.0 (one_sentence (cur ++ ch ∷ []) body h.1 ∙ rw (append_assoc cur (ch ∷ []) body) refl)

-- A paragraph that is one sentence, longer than a chunk and closed by a full stop, yields an empty
-- piece after the pieces that its characters are cut into.
long_sentence_leaves_empty :
    (c : TextChunker) (body : Text)
    → All (λ (ch : ℕ). is_stop ch ≡ false) body
    → c.chunk_size ≤ length body
    → split_long_paragraph c (body ++ 46 ∷ [])
      ≡ split_by_chars c.chunk_size c.chunk_overlap (body ++ 46 ∷ []) ++ [] ∷ []
unfolding split_long_paragraph full_sentences gather_sentences
long_sentence_leaves_empty c body plain long =
    rw (one_sentence [] body plain) (ground (arith, length-append body (46 ∷ [])))
