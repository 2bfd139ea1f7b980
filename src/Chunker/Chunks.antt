-- ===== src/Chunker/Chunks.antt =====
-- `TextChunker` of services/worker/src/tkp_worker/chunker.py: pieces are gathered into chunks. The
-- generators are lists, and `chunk_size` and `chunk_overlap` are arguments.
use mathlib.Core.List.{reverse}
use tkp_platform.Base.{
  ℕ, ◌+◌, ◌-◌, Bool, true, false, none, List, [], ◌∷◌, ◌++◌, ltb, leb, ◌==◌, if◌then◌else◌, length,
  drop,
}
use tkp_platform.Base.Result.{Result, ok, err}
use tkp_platform.Base.Text.{Text, strip, join}
use tkp_platform.Chunker.Split.{
  newline, is_empty, split_paragraphs, is_stop, split_stops, full_sentences, split_by_chars,
}

pub record TextChunker : Type 0 where
  pub chunk_size : ℕ
  pub chunk_overlap : ℕ

pub data ChunkerError : Type 0 where
  overlap_too_large : ChunkerError

-- `TextChunker.__init__`, and `create_chunker`
unfoldable pub create_chunker : ℕ → ℕ → Result ChunkerError TextChunker
create_chunker chunk_size chunk_overlap =
    if leb chunk_size chunk_overlap
    then err overlap_too_large
    else ok (record { chunk_size = chunk_size; chunk_overlap = chunk_overlap })

-- `s[-n:]`: all of `s` where `n` is 0.
unfoldable pub last_chars : ℕ → Text → Text
last_chars n s = if n == 0 then s else drop (length s - n) s

-- The loop of `_split_long_paragraph` over the full sentences: `current` is "".join(current), whose
-- length `current_length` is; `has` tells whether the list `current` has an element.
unfoldable pub gather_sentences : TextChunker → Bool → Text → List Text → List Text
unfolding split_by_chars last_chars
gather_sentences c has current [] = if has then current ∷ [] else []
gather_sentences c has current (s ∷ rest) =
    let cut = split_by_chars c.chunk_size c.chunk_overlap s ++ gather_sentences c false [] rest in
    let flush = current ∷ gather_sentences c true (last_chars c.chunk_overlap current ++ s) rest in
    let more = gather_sentences c true (current ++ s) rest in
    if ltb c.chunk_size (length current + length s) then (if has then flush else cut) else more

-- `_split_long_paragraph`
unfoldable pub split_long_paragraph : TextChunker → Text → List Text
unfolding gather_sentences split_stops is_stop full_sentences
split_long_paragraph c paragraph =
    gather_sentences c false [] (full_sentences (split_stops [] none paragraph))

-- `sum(len(p) for p in ps)`
abbrev pub total_length : List Text → ℕ
total_length [] = 0
total_length (p ∷ ps) = length p + total_length ps

-- The loop over `reversed(current_chunk)`, which stops at the first paragraph that does not fit.
unfoldable pub take_overlap : ℕ → ℕ → List Text → List Text → List Text
take_overlap limit used overlap [] = overlap
take_overlap limit used overlap (p ∷ ps) =
    let more = take_overlap limit (used + length p) (p ∷ overlap) ps in
    if leb (used + length p) limit then more else overlap

abbrev pub separator : Text
separator = newline ∷ newline ∷ []

-- "\n\n".join(current_chunk), if there is a current chunk.
abbrev pub saved : List Text → List Text
saved [] = []
saved (p ∷ ps) = join separator (p ∷ ps) ∷ []

-- The loop of `chunk_text` over the paragraphs. It yields the chunks in order. `current_length` is
-- an argument of its own, as in the code.
unfoldable pub gather_paragraphs : TextChunker → List Text → ℕ → List Text → List Text
unfolding split_long_paragraph take_overlap join
gather_paragraphs c current current_length [] = saved current
gather_paragraphs c current current_length (para ∷ rest) =
    let long = saved current ++ (split_long_paragraph c para ++ gather_paragraphs c [] 0 rest) in
    let next = take_overlap c.chunk_overlap 0 [] (reverse current) ++ para ∷ [] in
    let flush = saved current ++ gather_paragraphs c next (total_length next) rest in
    let more = gather_paragraphs c (current ++ para ∷ []) (current_length + length para) rest in
    if ltb c.chunk_size (length para)
    then long
    else if ltb c.chunk_size (current_length + length para)
    then flush
    else more

-- `chunk_text`
unfoldable pub chunk_text : TextChunker → Text → List Text
unfolding gather_paragraphs split_paragraphs strip
chunk_text c text =
    if is_empty (strip text) then [] else gather_paragraphs c [] 0 (split_paragraphs text)
