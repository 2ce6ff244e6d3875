-- ===== src/Rag/Chunking.antt =====
-- modules/ai/rag/chunkMarkdown.ts: how the text of one section is cut.
pub mod Splitting
pub mod Packing
mod Tests
use notes_md_app_be.Prelude.{
  ℕ, zero, suc, ◌+◌, ◌-◌, max, Bool, true, false, not, ◌&&◌, ◌||◌, List, [], ◌∷◌, ◌++◌, ltb, leb,
  ◌==◌, if◌then◌else◌, length, take, drop, keep,
}
use notes_md_app_be.Text.{Text, newline, is_nonempty, trim}

pub record ChunkOptions : Type 0 where
  pub chunk_size : ℕ
  pub chunk_overlap : ℕ

-- The loop of `hardSplit` from a start on, with fuel: the text behind the start is not empty.
unfoldable pub hard_from : ℕ → ℕ → ℕ → Text → List Text
hard_from size step zero rest = []
hard_from size step (suc fuel) rest =
    let more = hard_from size step fuel (drop step rest) in
    if is_nonempty rest then take size rest ∷ (if leb (length rest) size then [] else more) else []

unfoldable pub hard_split : Text → ℕ → ℕ → List Text
hard_split text size overlap =
    if leb (length text) size
    then text ∷ []
    else hard_from size (max 1 (size - overlap)) (length text) text

abbrev pub newlines : ℕ → Text
newlines zero = []
newlines (suc n) = newline ∷ newlines n

-- `text.split(/\n{2,}/)`: `run` newlines stand behind the paragraph `current`.
unfoldable pub paragraphs_from : Text → ℕ → Text → List Text
paragraphs_from current run [] =
    if leb 2 run then current ∷ [] ∷ [] else (current ++ newlines run) ∷ []
paragraphs_from current run (c ∷ cs) =
    let ends = leb 2 run && not (c == newline) in
    let next =
      if c == newline
      then current
      else if ends
      then c ∷ []
      else current ++ (newlines run ++ c ∷ []) in
    let rest = paragraphs_from next (if c == newline then run + 1 else 0) cs in
    if ends then current ∷ rest else rest

-- The pieces that are packed into chunks, none of them empty.
unfoldable pub pieces_of : ChunkOptions → List Text → List Text
pieces_of opts [] = []
pieces_of opts (p ∷ ps) =
    hard_split (trim p) opts.chunk_size opts.chunk_overlap ++ pieces_of opts ps

abbrev pub pieces : ChunkOptions → Text → List Text
pieces opts text = keep is_nonempty (pieces_of opts (paragraphs_from [] 0 text))

-- `${a}\n\n${b}`
abbrev pub joined : Text → Text → Text
joined a b = a ++ newline ∷ newline ∷ b

-- `current.slice(-overlap)`, or nothing without overlap
abbrev pub tail_of : ℕ → Text → Text
tail_of overlap current = if overlap == 0 then [] else drop (length current - overlap) current

-- A new chunk for a piece that does not fit behind `current`.
unfoldable pub start_chunk : ChunkOptions → Text → Text → Text
start_chunk opts current piece =
    let tail = tail_of opts.chunk_overlap current in
    if is_nonempty tail && leb (length tail + 2 + length piece) opts.chunk_size
    then joined tail piece
    else piece

unfoldable pub pack : ChunkOptions → Text → List Text → List Text
pack opts current [] = if is_nonempty current then current ∷ [] else []
pack opts current (piece ∷ ps) =
    let full = is_nonempty current && ltb opts.chunk_size (length current + 2 + length piece) in
    let next =
      if full
      then start_chunk opts current piece
      else if is_nonempty current
      then joined current piece
      else piece in
    let rest = pack opts next ps in if full then current ∷ rest else rest

unfoldable pub split_text : Text → ChunkOptions → List Text
split_text text opts =
    if leb (length text) opts.chunk_size then text ∷ [] else pack opts [] (pieces opts text)
