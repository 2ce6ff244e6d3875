-- ===== src/Rag/Indexer/Embedding.antt =====
-- Embedding in batches is embedding one by one.
use notes_md_app_be.Prelude.{
  ℕ, zero, suc, ◌≤◌, ◌≡◌, refl, sym, ap, Option, some, List, [], ◌∷◌, ◌++◌, length, take, drop,
  arith, length-take, length-drop, ◌∙◌,
}
use notes_md_app_be.Rag.Indexer.{embed_from, embed_all, embed_batch}

append_nil {ℓ} : {A : Type ℓ} (xs : List A) → xs ++ [] ≡ xs
append_nil [] = refl
append_nil (x ∷ xs) = ap (λ ys. x ∷ ys) (append_nil xs)

take_le {ℓ} : {A : Type ℓ} (n : ℕ) (xs : List A) → length (take n xs) ≤ n
take_le n xs = omega (arith, length-take n xs)

drop_le {ℓ} :
    {A : Type ℓ} (n m : ℕ) (xs : List A) → 1 ≤ n → length xs ≤ suc m → length (drop n xs) ≤ m
drop_le n m xs p h = omega (arith, length-drop n xs, p, h)

module _ {ℓ κ} {Text : Type ℓ} {Vector : Type κ} (f : Text → Vector) where
  -- `texts.map(f)`
  abbrev pub each : List Text → List Vector
  each [] = []
  each (t ∷ ts) = f t ∷ each ts

  each-take : (n : ℕ) (ts : List Text) → each (take n ts) ++ each (drop n ts) ≡ each ts
  each-take zero ts = refl
  each-take (suc n) [] = refl
  each-take (suc n) (t ∷ ts) = ap (λ xs. f t ∷ xs) (each-take n ts)

  each-append :
      (n : ℕ) (ts : List Text) (vs : List Vector)
      → (vs ++ each (take n ts)) ++ each (drop n ts) ≡ vs ++ each ts
  each-append n ts [] = each-take n ts
  each-append n ts (v ∷ vs) = ap (λ xs. v ∷ xs) (each-append n ts vs)

module _ {ℓ κ} {Text : Type ℓ} {Vector : Type κ} (f : Text → Vector)
    (embed : List Text → Option (List Vector)) where
  embed_from-each :
      ((batch : List Text) → length batch ≤ embed_batch → embed batch ≡ some (each f batch))
      → (fuel : ℕ) (texts : List Text) (vectors : List Vector) → length texts ≤ fuel
      → embed_from embed fuel texts vectors ≡ some (vectors ++ each f texts)
  unfolding embed_from
  embed_from-each e fuel [] vectors h = ap some (sym (append_nil vectors))
  embed_from-each e zero (t ∷ ts) vectors h = ground (arith, h)
  embed_from-each e (suc fuel) (t ∷ ts) vectors h =
      rw (e (take embed_batch (t ∷ ts)) (take_le embed_batch (t ∷ ts)), embed_from)
        (embed_from-each e fuel (drop embed_batch (t ∷ ts))
            (vectors ++ each f (take embed_batch (t ∷ ts)))
            (drop_le embed_batch fuel (t ∷ ts) (omega arith) h)
          ∙ ap some (each-append f embed_batch (t ∷ ts) vectors))

  -- If the provider answers a batch of at most 32 texts with the vectors of its texts, in their
  -- order, then a note of any number of texts gets the vector of each text, in their order.
  pub embed_all-each :
      ((batch : List Text) → length batch ≤ embed_batch → embed batch ≡ some (each f batch))
      → (texts : List Text) → embed_all embed texts ≡ some (each f texts)
  unfolding embed_all
  embed_all-each e texts = embed_from-each e (length texts) texts [] (omega arith)
