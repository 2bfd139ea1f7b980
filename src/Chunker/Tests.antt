-- ===== src/Chunker/Tests.antt =====
-- The chunker at small texts.
use mathlib.Core.List.{flatten}
use tkp_platform.Base.{ℕ, ◌-◌, ◌≤◌, ◌≡◌, refl, false, [], ◌∷◌, map, take, length, All, arith}
use tkp_platform.Base.Result.{err}
use tkp_platform.Base.Text.{Text, codes, strip}
use tkp_platform.Chunker.Split.{is_stop, is_empty, split_paragraphs, split_by_chars}
use tkp_platform.Chunker.Chunks.{TextChunker, overlap_too_large, create_chunker, chunk_text}
use tkp_platform.Chunker.Pieces.{split_by_chars_covers}
use tkp_platform.Chunker.Coverage.{InSome, chunk_text_keeps_paragraphs}

abbrev chunker : TextChunker
chunker = record { chunk_size = 6; chunk_overlap = 2 }

abbrev no_overlap : TextChunker
no_overlap = record { chunk_size = 6; chunk_overlap = 0 }

rejects_overlap : create_chunker 6 6 ≡ err overlap_too_large
unfolding create_chunker
rejects_overlap = refl

-- Blank lines, with spaces in them, part the paragraphs; single newlines do not.
abbrev sample : Text
sample = codes "ab\n \n\ncd\ne\n\n  longer. text!\n"

paragraphs_of_sample :
    split_paragraphs sample ≡ codes "ab" ∷ codes "cd\ne" ∷ codes "longer. text!" ∷ []
unfolding split_paragraphs
paragraphs_of_sample = refl

chunks_of_sample :
    chunk_text chunker sample
    ≡ codes "ab\n\ncd\ne" ∷ codes "longer" ∷ codes "er." ∷ codes " text!" ∷ []
unfolding chunk_text
chunks_of_sample = refl

split_by_chars_covers_example :
    All (λ (s : Text). length s ≤ 6) (split_by_chars 6 2 (codes "abcdefgh"))
    × (flatten (map (take (6 - 2)) (split_by_chars 6 2 (codes "abcdefgh"))) ≡ codes "abcdefgh")
split_by_chars_covers_example = split_by_chars_covers 6 2 (codes "abcdefgh") (omega arith)

abbrev body : Text
body = codes "no stop at all"

body_plain : All (λ (ch : ℕ). is_stop ch ≡ false) body
unfolding is_stop
body_plain = ground arith

sample_not_blank : is_empty (strip sample) ≡ false
unfolding strip
sample_not_blank = refl

chunk_text_keeps_paragraphs_example :
    All (λ p. length p ≤ 6 → InSome (chunk_text chunker sample) p) (split_paragraphs sample)
chunk_text_keeps_paragraphs_example = chunk_text_keeps_paragraphs chunker sample sample_not_blank
