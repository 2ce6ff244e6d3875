-- ===== src/Rag/Chunking/Splitting.antt =====
-- The parts of a text that is too long are short enough, and nothing of the text is lost.
use notes_md_app_be.Prelude.{
  ℕ, zero, suc, ◌-◌, ◌≤◌, max, ◌≡◌, ◌≢◌, refl, ap, List, [], ◌∷◌, ◌++◌, leb, length, take, drop,
  All, arith, length-take, length-drop, take-append-drop, Bool-cases, inl, inr, if_either, ◌∙◌,
}
use notes_md_app_be.Text.{Text}
use notes_md_app_be.Rag.Chunking.{hard_from, hard_split}

-- The text of which these are the parts, each but the last one starting a step before the next.
abbrev pub rejoin : ℕ → List Text → Text
rejoin step [] = []
rejoin step (p ∷ []) = p
rejoin step (p ∷ q ∷ qs) = take step p ++ rejoin step (q ∷ qs)

rejoin-cons :
    (step : ℕ) (p : Text) (ps : List Text)
    → ps ≢ []
    → rejoin step (p ∷ ps) ≡ take step p ++ rejoin step ps
rejoin-cons step p [] h = elim (h refl) [ ]
rejoin-cons step p (q ∷ qs) h = refl

take-take : (n m : ℕ) (xs : Text) → n ≤ m → take n (take m xs) ≡ take n xs
take-take zero m xs h = refl
take-take (suc n) zero xs h = ground (arith, h)
take-take (suc n) (suc m) [] h = refl
take-take (suc n) (suc m) (x ∷ xs) h = ap (λ ys. x ∷ ys) (take-take n m xs (omega (arith, h)))

take_all : (n : ℕ) (xs : Text) → length xs ≤ n → take n xs ≡ xs
take_all zero [] h = refl
take_all zero (x ∷ xs) h = ground (arith, h)
take_all (suc n) [] h = refl
take_all (suc n) (x ∷ xs) h = ap (λ ys. x ∷ ys) (take_all n xs (omega (arith, h)))

hard_from-nonempty :
    (size step fuel : ℕ) (rest : Text)
    → 1 ≤ fuel
    → 1 ≤ length rest
    → hard_from size step fuel rest ≢ []
unfolding hard_from
hard_from-nonempty size step zero rest f h = ground (arith, f)
hard_from-nonempty size step (suc fuel) [] f h = ground (arith, h)
hard_from-nonempty size step (suc fuel) (c ∷ cs) f h = λ e. ground (arith, e)

rejoin-hard_from :
    (size step fuel : ℕ) (rest : Text)
    → 1 ≤ step
    → step ≤ size
    → length rest ≤ fuel
    → rejoin step (hard_from size step fuel rest) ≡ rest
unfolding hard_from
rejoin-hard_from size step zero [] h k f = refl
rejoin-hard_from size step zero (c ∷ cs) h k f = ground (arith, f)
rejoin-hard_from size step (suc fuel) [] h k f = refl
rejoin-hard_from size step (suc fuel) (c ∷ cs) h k f =
    elim (Bool-cases (leb (length (c ∷ cs)) size)) [
      | inl short ↦ rw short (take_all size (c ∷ cs) (ground (arith, short)))
      | inr long ↦
          let much : 1 ≤ fuel = ground (arith, long, h, k, f) in
          let left : 1 ≤ length (drop step (c ∷ cs)) =
            ground (arith, long, h, k, length-drop step (c ∷ cs)) in
          let enough : length (drop step (c ∷ cs)) ≤ fuel =
            ground (arith, h, f, length-drop step (c ∷ cs)) in
          rw long (
            rejoin-cons step (take size (c ∷ cs)) (hard_from size step fuel (drop step (c ∷ cs)))
              (hard_from-nonempty size step fuel (drop step (c ∷ cs)) much left)
            ∙ rw
                (
                  take-take step size (c ∷ cs) k,
                  rejoin-hard_from size step fuel (drop step (c ∷ cs)) h k enough,
                )
                (take-append-drop step (c ∷ cs)))
    ]

length-hard_from :
    (size step fuel : ℕ) (rest : Text) → All (λ p. length p ≤ size) (hard_from size step fuel rest)
unfolding hard_from
length-hard_from size step zero rest = tt
length-hard_from size step (suc fuel) [] = tt
length-hard_from size step (suc fuel) (c ∷ cs) = (
  omega (arith, length-take size (c ∷ cs)),
  if_either (All (λ p. length p ≤ size)) (leb (length (c ∷ cs)) size) tt
      (length-hard_from size step fuel (drop step (c ∷ cs))),
)

-- For a positive size, no part is longer than it, and the parts without what the next one repeats
-- are the text again.
pub rejoin-hard_split :
    (text : Text) (size overlap : ℕ)
    → 1 ≤ size
    → All (λ p. length p ≤ size) (hard_split text size overlap)
      × (rejoin (max 1 (size - overlap)) (hard_split text size overlap) ≡ text)
unfolding hard_split
rejoin-hard_split text size overlap h = elim (Bool-cases (leb (length text) size)) [
  | inl short ↦ rw short ((ground (arith, short), tt), refl)
  | inr long ↦ rw long (
    length-hard_from size (max 1 (size - overlap)) (length text) text,
    rejoin-hard_from size (max 1 (size - overlap)) (length text) text (omega arith)
        (omega (arith, h)) (omega arith),
  )
]
