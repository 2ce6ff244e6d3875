-- ===== src/Rag/Chunking/Packing.antt =====
-- The chunks of a section: none is too long, none is empty, and every piece is in one.
use notes_md_app_be.Prelude.{
  ℕ, ◌+◌, ◌≤◌, ◌<◌, ◌≡◌, refl, sym, ap, subst, Bool, true, false, ◌&&◌, List, [], ◌∷◌, ◌++◌, ltb,
  leb, length, keep, All, All-append, All-keep, All-zip, arith, length-append, Bool-cases, inl, inr,
  ◌⊎◌, if_either, ◌∙◌,
}
use notes_md_app_be.Text.{Text, is_nonempty, trim}
use notes_md_app_be.Rag.Chunking.{
  ChunkOptions, hard_split, pieces_of, pieces, joined, tail_of, start_chunk, pack, split_text,
  paragraphs_from,
}
use notes_md_app_be.Rag.Chunking.Splitting.{rejoin-hard_split}

-- A chunk that may be stored.
abbrev pub IsChunk : ℕ → Text → Type 0
IsChunk size c = (length c ≤ size) × (is_nonempty c ≡ true)

length-joined : (a b : Text) → length (joined a b) ≡ length a + 2 + length b
length-joined a b = omega (arith, length-append a (10 ∷ 10 ∷ b))

nonempty-joined : (a b : Text) → is_nonempty (joined a b) ≡ true
nonempty-joined [] b = refl
nonempty-joined (c ∷ cs) b = refl

start_chunk-IsChunk :
    (opts : ChunkOptions) (current piece : Text)
    → IsChunk opts.chunk_size piece
    → IsChunk opts.chunk_size (start_chunk opts current piece)
unfolding start_chunk
start_chunk-IsChunk opts current piece (l, n) =
    elim (Bool-cases
      (leb (length (tail_of opts.chunk_overlap current) + 2 + length piece) opts.chunk_size)) [
        | inl fits ↦
            if_either (IsChunk opts.chunk_size) _
              (
                ground (arith, length-joined (tail_of opts.chunk_overlap current) piece, fits),
                nonempty-joined (tail_of opts.chunk_overlap current) piece,
              )
              (l, n)
        | inr over ↦ elim (Bool-cases (is_nonempty (tail_of opts.chunk_overlap current))) [
          | inl some_tail ↦ rw (some_tail, over) (l, n)
          | inr no_tail ↦ rw no_tail (l, n)
        ]
      ]

-- Nothing is in hand yet, or what may be stored.
abbrev IsCurrent : ℕ → Text → Type 0
IsCurrent size c = (length c ≤ size)

pack-IsChunk :
    (opts : ChunkOptions) (current : Text) (ps : List Text)
    → IsCurrent opts.chunk_size current
    → All (IsChunk opts.chunk_size) ps
    → All (IsChunk opts.chunk_size) (pack opts current ps)
unfolding pack
pack-IsChunk opts [] [] h a = tt
pack-IsChunk opts (c ∷ cs) [] h a = ((h, refl), tt)
pack-IsChunk opts [] (p ∷ ps) h (q, a) = pack-IsChunk opts p ps q.0 a
pack-IsChunk opts (c ∷ cs) (p ∷ ps) h (q, a) =
    elim (Bool-cases (ltb opts.chunk_size (length (c ∷ cs) + 2 + length p))) [
      | inl full ↦ rw full (
        (h, refl),
        pack-IsChunk opts (start_chunk opts (c ∷ cs) p) ps (start_chunk-IsChunk opts (c ∷ cs) p q).0
            a,
      )
      | inr room ↦ rw room (
          pack-IsChunk opts (joined (c ∷ cs) p) ps (ground (arith, room, length-joined (c ∷ cs) p))
            a)
    ]

-- The piece stands in one of the chunks.
abbrev pub IsIn : Text → List Text → Type 0
IsIn p [] = ⊥
IsIn p (c ∷ cs) = ((a : Text) × ((b : Text) × (c ≡ a ++ (p ++ b)))) ⊎ IsIn p cs

append_assoc : (a b c : Text) → (a ++ b) ++ c ≡ a ++ (b ++ c)
append_assoc [] b c = refl
append_assoc (x ∷ a) b c = ap (λ ys. x ∷ ys) (append_assoc a b c)

append_nil : (a : Text) → a ++ [] ≡ a
append_nil [] = refl
append_nil (x ∷ a) = ap (λ ys. x ∷ ys) (append_nil a)

-- What is in hand comes first in the next chunk.
pack-first :
    (opts : ChunkOptions) (current : Text) (ps : List Text)
    → is_nonempty current ≡ true
    → (b : Text) × ((rest : List Text) × (pack opts current ps ≡ (current ++ b) ∷ rest))
unfolding pack
pack-first opts [] ps h = ground (arith, h)
pack-first opts (c ∷ cs) [] h = ([], ([], ap (λ x. x ∷ []) (sym (append_nil (c ∷ cs)))))
pack-first opts (c ∷ cs) (p ∷ ps) h =
    elim (Bool-cases (ltb opts.chunk_size (length (c ∷ cs) + 2 + length p))) [
      | inl full ↦ (
        [],
        (
          pack opts (start_chunk opts (c ∷ cs) p) ps,
          rw full (
              ap (λ x. x ∷ pack opts (start_chunk opts (c ∷ cs) p) ps) (sym (append_nil (c ∷ cs)))),
        ),
      )
      | inr room ↦
          let (b, (rest, e)) = pack-first opts (joined (c ∷ cs) p) ps refl in
          (
            10 ∷ 10 ∷ p ++ b,
            (rest, rw room (e ∙ ap (λ x. x ∷ rest) (append_assoc (c ∷ cs) (10 ∷ 10 ∷ p) b))),
          )
    ]

-- A chunk that ends in the piece when it is taken in hand keeps it.
IsIn-current :
    (opts : ChunkOptions) (a p : Text) (ps : List Text)
    → is_nonempty (a ++ p) ≡ true
    → IsIn p (pack opts (a ++ p) ps)
IsIn-current opts a p ps h =
    let (b, (rest, e)) = pack-first opts (a ++ p) ps h in rw e (inl (a, (b, append_assoc a p b)))

start_chunk-ends :
    (opts : ChunkOptions) (current piece : Text)
    → (a : Text) × (start_chunk opts current piece ≡ a ++ piece)
unfolding start_chunk
start_chunk-ends opts current piece =
    if_either (λ x. (a : Text) × (x ≡ a ++ piece))
      (is_nonempty (tail_of opts.chunk_overlap current)
        && leb (length (tail_of opts.chunk_overlap current) + 2 + length piece) opts.chunk_size)
      (
        tail_of opts.chunk_overlap current ++ 10 ∷ 10 ∷ [],
        sym (append_assoc (tail_of opts.chunk_overlap current) (10 ∷ 10 ∷ []) piece),
      )
      ([], refl)

nonempty-append : (a p : Text) → is_nonempty p ≡ true → is_nonempty (a ++ p) ≡ true
nonempty-append [] p h = h
nonempty-append (x ∷ a) p h = refl

abbrev is_full : ChunkOptions → Text → Text → Bool
is_full opts c p = ltb opts.chunk_size (length c + 2 + length p)

pack-full :
    (opts : ChunkOptions) (x : ℕ) (c p : Text) (ps : List Text)
    → is_full opts (x ∷ c) p ≡ true
    → pack opts (x ∷ c) (p ∷ ps) ≡ (x ∷ c) ∷ pack opts (start_chunk opts (x ∷ c) p) ps
unfolding pack
pack-full opts x c p ps h = rw (h, pack) refl

pack-room :
    (opts : ChunkOptions) (x : ℕ) (c p : Text) (ps : List Text)
    → is_full opts (x ∷ c) p ≡ false
    → pack opts (x ∷ c) (p ∷ ps) ≡ pack opts (joined (x ∷ c) p) ps
unfolding pack
pack-room opts x c p ps h = rw (h, pack) refl

pack-IsIn :
    (opts : ChunkOptions) (current : Text) (ps : List Text)
    → All (λ p. is_nonempty p ≡ true) ps
    → All (λ p. IsIn p (pack opts current ps)) ps
unfolding pack
pack-IsIn opts current [] h = tt
pack-IsIn opts [] (p ∷ ps) (n, h) = (IsIn-current opts [] p ps n, pack-IsIn opts p ps h)
pack-IsIn opts (c ∷ cs) (p ∷ ps) (n, h) = elim (Bool-cases (is_full opts (c ∷ cs) p)) [
  | inl full ↦
      let (a, e) = start_chunk-ends opts (c ∷ cs) p in
      let later = pack-IsIn opts (start_chunk opts (c ∷ cs) p) ps h in
      subst (λ chunks. All (λ q. IsIn q chunks) (p ∷ ps)) (sym (pack-full opts c cs p ps full))
        (
          inr (
              subst (λ x. IsIn p (pack opts x ps)) (sym e)
                (IsIn-current opts a p ps (nonempty-append a p n))),
          All-zip {P = λ q. IsIn q (pack opts (start_chunk opts (c ∷ cs) p) ps)}
              {Q = λ q. IsIn q (pack opts (start_chunk opts (c ∷ cs) p) ps)} (λ q y z. inr y) ps
              later later,
        )
  | inr room ↦
      subst (λ chunks. All (λ q. IsIn q chunks) (p ∷ ps)) (sym (pack-room opts c cs p ps room))
        (
          subst (λ x. IsIn p (pack opts x ps)) (append_assoc (c ∷ cs) (10 ∷ 10 ∷ []) p)
              (IsIn-current opts ((c ∷ cs) ++ 10 ∷ 10 ∷ []) p ps refl),
          pack-IsIn opts (joined (c ∷ cs) p) ps h,
        )
]

keep_nonempty : (ps : List Text) → All (λ p. is_nonempty p ≡ true) (keep is_nonempty ps)
keep_nonempty [] = tt
keep_nonempty ([] ∷ ps) = keep_nonempty ps
keep_nonempty ((c ∷ cs) ∷ ps) = (refl, keep_nonempty ps)

length-pieces_of :
    (opts : ChunkOptions) (ps : List Text)
    → 1 ≤ opts.chunk_size
    → All (λ p. length p ≤ opts.chunk_size) (pieces_of opts ps)
unfolding pieces_of
length-pieces_of opts [] h = tt
length-pieces_of opts (p ∷ ps) h =
    All-append (λ q. length q ≤ opts.chunk_size)
      (hard_split (trim p) opts.chunk_size opts.chunk_overlap) (pieces_of opts ps)
      (rejoin-hard_split (trim p) opts.chunk_size opts.chunk_overlap h).0
      (length-pieces_of opts ps h)

pieces-IsChunk :
    (opts : ChunkOptions) (text : Text)
    → 1 ≤ opts.chunk_size
    → All (IsChunk opts.chunk_size) (pieces opts text)
pieces-IsChunk opts text h =
    let all = pieces_of opts (paragraphs_from [] 0 text) in
    All-zip {P = λ p. length p ≤ opts.chunk_size} {Q = λ p. is_nonempty p ≡ true} (λ p l n. (l, n))
      (keep is_nonempty all)
      (All-keep (λ p. length p ≤ opts.chunk_size) is_nonempty all
        (length-pieces_of opts (paragraphs_from [] 0 text) h))
      (keep_nonempty all)

-- For a positive chunk size, every chunk of a section that has text is at most that long, and none
-- is empty.
pub split_text-IsChunk :
    (text : Text) (opts : ChunkOptions)
    → 1 ≤ opts.chunk_size
    → is_nonempty text ≡ true
    → All (IsChunk opts.chunk_size) (split_text text opts)
unfolding split_text
split_text-IsChunk text opts h n = elim (Bool-cases (leb (length text) opts.chunk_size)) [
  | inl short ↦ rw short ((ground (arith, short), n), tt)
  | inr long ↦
      rw long
        (pack-IsChunk opts [] (pieces opts text) (omega (arith, h)) (pieces-IsChunk opts text h))
]

-- Every piece of a section that is too long for one chunk (the parts of its trimmed paragraphs)
-- stands whole in one of the chunks.
pub split_text-IsIn :
    (text : Text) (opts : ChunkOptions)
    → opts.chunk_size < length text
    → All (λ p. IsIn p (split_text text opts)) (pieces opts text)
unfolding split_text
split_text-IsIn text opts h =
    let long : leb (length text) opts.chunk_size ≡ false = ground (arith, h) in
    subst (λ chunks. All (λ p. IsIn p chunks) (pieces opts text)) (rw long refl)
      (pack-IsIn opts [] (pieces opts text)
        (keep_nonempty (pieces_of opts (paragraphs_from [] 0 text))))
