-- ===== src/Notes/Import/Batches/Chunks.antt =====
-- Cutting a list into pieces of one size.
use notes_md_app_be.Prelude.{
  ℕ, zero, suc, ◌+◌, ◌-◌, ◌*◌, ◌/◌, ◌≤◌, ◌≡◌, refl, sym, List, [], ◌∷◌, ◌++◌, length, drop, All,
  arith, length-take, take-append-drop, ◌∙◌,
}
use native.Mathlib.Nat.{lt-mul-div-succ}
use notes_md_app_be.Notes.Import.Batches.{chunk, chunk_from}

suc_plus : (n m : ℕ) → (suc n + m) ≡ suc (n + m)
suc_plus n m = omega arith

zero_times : (n : ℕ) → 0 * n ≡ 0
zero_times n = omega arith

zero_plus : (m : ℕ) → (0 + m) ≡ m
zero_plus m = omega arith

rounded_up : (n size : ℕ) → 1 ≤ size → n ≤ ((n + size - 1) / size) * size
rounded_up n size h = let q = lt-mul-div-succ (n + size - 1) {b = size} h in omega (arith, h, q)

next_end : (i size : ℕ) → (i + 1) * size ≡ i * size + size
next_end i size = omega arith

next_count : (i n size l : ℕ) → l ≤ (i + suc n) * size → l ≤ (i + 1 + n) * size
next_count i n size l h = omega (arith, h)

plus_minus : (k size : ℕ) → k + size - k ≡ size
plus_minus k size = omega arith

slice_size : (i size : ℕ) → (i + 1) * size - i * size ≡ size
slice_size i size = omega arith

module _ {ℓ} {A : Type ℓ} where
  abbrev pub concat : List (List A) → List A
  concat [] = []
  concat (b ∷ bs) = b ++ concat bs

  drop-length : (n : ℕ) (xs : List A) → length xs ≤ n → drop n xs ≡ []
  drop-length zero [] h = refl
  drop-length zero (x ∷ xs) h = ground (arith, h)
  drop-length (suc n) [] h = refl
  drop-length (suc n) (x ∷ xs) h = drop-length n xs (omega (arith, h))

  drop-nil : (n : ℕ) → drop {A = A} n [] ≡ []
  drop-nil zero = refl
  drop-nil (suc n) = refl

  drop-drop : (m n : ℕ) (xs : List A) → drop m (drop n xs) ≡ drop (n + m) xs
  drop-drop m zero xs = rw (zero_plus m) refl
  drop-drop m (suc n) [] = rw (drop-nil m, drop-nil (suc n + m)) refl
  drop-drop m (suc n) (x ∷ xs) = rw (suc_plus n m) (drop-drop m n xs)

  concat-chunk_from :
      (items : List A) (size i n : ℕ)
      → length items ≤ (i + n) * size
      → concat (chunk_from items size i n) ≡ drop (i * size) items
  unfolding chunk_from
  concat-chunk_from items size i zero h = sym (drop-length (i * size) items (omega (arith, h)))
  concat-chunk_from items size i (suc n) h =
      rw
        (
          concat-chunk_from items size (i + 1) n (next_count i n size (length items) h),
          next_end i size,
          plus_minus (i * size) size,
          ← drop-drop size (i * size) items,
        )
        (take-append-drop size (drop (i * size) items))

  length-chunk_from :
      (items : List A) (size i n : ℕ) → All (λ b. length b ≤ size) (chunk_from items size i n)
  unfolding chunk_from
  length-chunk_from items size i zero = tt
  length-chunk_from items size i (suc n) = (
    omega
        (arith, length-take ((i + 1) * size - i * size) (drop (i * size) items), slice_size i size),
    length-chunk_from items size (i + 1) n,
  )

  -- The pieces are the list again, and none is longer than the size.
  pub concat-chunk :
      (items : List A) (size : ℕ)
      → 1 ≤ size
      → (concat (chunk items size) ≡ items) × All (λ b. length b ≤ size) (chunk items size)
  unfolding chunk
  concat-chunk items size h = (
    concat-chunk_from items size 0 ((length items + size - 1) / size)
          (omega (arith, rounded_up (length items) size h))
        ∙ rw (zero_times size) refl,
    length-chunk_from items size 0 ((length items + size - 1) / size),
  )
