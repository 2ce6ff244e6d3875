-- ===== src/Rag/Chunking/Tests.antt =====
-- Sections at concrete inputs.
use notes_md_app_be.Prelude.{◌≤◌, ◌-◌, max, ◌≡◌, refl, [], ◌∷◌, length, All, arith}
use notes_md_app_be.Text.{Text, trim_start, trim_end}
use notes_md_app_be.Rag.Chunking.{
  ChunkOptions, hard_split, hard_from, split_text, pack, pieces, pieces_of, paragraphs_from,
  start_chunk,
}
use notes_md_app_be.Rag.Chunking.Splitting.{rejoin, rejoin-hard_split}
use notes_md_app_be.Rag.Chunking.Packing.{IsChunk, IsIn, split_text-IsChunk, split_text-IsIn}

abbrev word : Text
word = 97 ∷ 98 ∷ 99 ∷ 100 ∷ 101 ∷ []

rejoin-hard_split_example :
    All (λ p. length p ≤ 3) (hard_split word 3 1)
    × (rejoin (max 1 (3 - 1)) (hard_split word 3 1) ≡ word)
rejoin-hard_split_example = rejoin-hard_split word 3 1 (omega arith)

abbrev opts : ChunkOptions
opts = record { chunk_size = 6; chunk_overlap = 2 }

-- "ab", an empty line, "cd", an empty line, "efg"
abbrev text : Text
text = 97 ∷ 98 ∷ 10 ∷ 10 ∷ 99 ∷ 100 ∷ 10 ∷ 10 ∷ 101 ∷ 102 ∷ 103 ∷ []

two_chunks :
    split_text text opts ≡ (97 ∷ 98 ∷ 10 ∷ 10 ∷ 99 ∷ 100 ∷ []) ∷ (101 ∷ 102 ∷ 103 ∷ []) ∷ []
unfolding split_text pack pieces_of paragraphs_from trim_start trim_end hard_split hard_from
    start_chunk
two_chunks = refl

split_text-IsChunk_example : All (IsChunk 6) (split_text text opts)
split_text-IsChunk_example = split_text-IsChunk text opts (omega arith) refl

split_text-IsIn_example : All (λ p. IsIn p (split_text text opts)) (pieces opts text)
split_text-IsIn_example = split_text-IsIn text opts (omega arith)
