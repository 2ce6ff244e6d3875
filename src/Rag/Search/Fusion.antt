-- ===== src/Rag/Search/Fusion.antt =====
-- What the fusion of result lists and the search answer.
use notes_md_app_be.Prelude.{
  ℕ, zero, suc, ◌+◌, String, ◌≡◌, refl, sym, ap, subst, ◌∙◌, false, List, [], ◌∷◌, length, take,
  if◌then◌else◌, str_eq, eq_iff, All, All-take, Bool-cases, if_either, inl, inr, arith,
}
use notes_md_app_be.Rag.Search.{
  RagHit, same_chunk, Scores, Fused, count_vote, count_list, count_lists, insert, sort, with_scores,
}

-- No chunk twice.
abbrev pub IsDistinct : {Score : Type 0} → List (RagHit Score) → Type 0
IsDistinct [] = Unit
IsDistinct (x ∷ xs) = All (λ y. same_chunk x y ≡ false) xs × IsDistinct xs

str_eq_comm : (a b : String) → str_eq a b ≡ str_eq b a
str_eq_comm a b = ground (arith, eq_iff a b, eq_iff b a)

same_chunk_comm : {Score : Type 0} (a b : RagHit Score) → same_chunk a b ≡ same_chunk b a
same_chunk_comm a b =
    rw
      (
        str_eq_comm a.note_id b.note_id,
        str_eq_comm a.heading_path b.heading_path,
        str_eq_comm a.content b.content,
      )
      refl

module _ {Score : Type 0} (s : Scores Score) where
  abbrev pub Apart : RagHit Score → List (Fused Score) → Type 0
  Apart x es = All (λ e. same_chunk x e.hit ≡ false) es

  abbrev pub AreApart : List (Fused Score) → Type 0
  AreApart [] = Unit
  AreApart (e ∷ es) = Apart e.hit es × AreApart es

  count_vote-Apart :
      (x : RagHit Score) (es : List (Fused Score)) (hit : RagHit Score) (v : Score)
      → Apart x es
      → same_chunk x hit ≡ false
      → Apart x (count_vote s es hit v)
  unfolding count_vote
  count_vote-Apart x [] hit v h n = (n, tt)
  count_vote-Apart x (e ∷ es) hit v (m, h) n =
      if_either (Apart x) (same_chunk e.hit hit) (m, h) (m, count_vote-Apart x es hit v h n)

  count_vote-AreApart :
      (es : List (Fused Score)) (hit : RagHit Score) (v : Score)
      → AreApart es
      → AreApart (count_vote s es hit v)
  unfolding count_vote
  count_vote-AreApart [] hit v h = (tt, tt)
  count_vote-AreApart (e ∷ es) hit v (m, h) = elim (Bool-cases (same_chunk e.hit hit)) [
    | inl same ↦
        subst
          (λ b. AreApart (
            if b
            then record e { fused_score = s.add e.fused_score v } ∷ es
            else e ∷ count_vote s es hit v))
          (sym same) (m, h)
    | inr other ↦
        subst
          (λ b. AreApart (
            if b
            then record e { fused_score = s.add e.fused_score v } ∷ es
            else e ∷ count_vote s es hit v))
          (sym other) (count_vote-Apart e.hit es hit v m other, count_vote-AreApart es hit v h)
  ]

  count_list-AreApart :
      (k rank : ℕ) (es : List (Fused Score)) (found : List (RagHit Score))
      → AreApart es
      → AreApart (count_list s k rank es found)
  unfolding count_list
  count_list-AreApart k rank es [] h = h
  count_list-AreApart k rank es (x ∷ xs) h =
      count_list-AreApart k (rank + 1) (count_vote s es x (s.vote k rank)) xs
        (count_vote-AreApart es x (s.vote k rank) h)

  pub count_lists-AreApart :
      (k : ℕ) (es : List (Fused Score)) (lists : List (List (RagHit Score)))
      → AreApart es
      → AreApart (count_lists s k es lists)
  unfolding count_lists
  count_lists-AreApart k es [] h = h
  count_lists-AreApart k es (l ∷ ls) h =
      count_lists-AreApart k (count_list s k 0 es l) ls (count_list-AreApart k 0 es l h)

  All-insert :
      (P : Fused Score → Type 0) (x : Fused Score) (ys : List (Fused Score))
      → P x
      → All P ys
      → All P (insert s x ys)
  unfolding insert
  All-insert P x [] p h = (p, tt)
  All-insert P x (y ∷ ys) p (q, h) =
      if_either (All P) (s.above y.fused_score x.fused_score) (q, All-insert P x ys p h) (p, (q, h))

  pub All-sort : (P : Fused Score → Type 0) (xs : List (Fused Score)) → All P xs → All P (sort s xs)
  unfolding sort
  All-sort P [] h = tt
  All-sort P (x ∷ xs) (p, h) = All-insert P x (sort s xs) p (All-sort P xs h)

  insert-AreApart :
      (x : Fused Score) (ys : List (Fused Score))
      → Apart x.hit ys
      → AreApart ys
      → AreApart (insert s x ys)
  unfolding insert
  insert-AreApart x [] n h = (tt, tt)
  insert-AreApart x (y ∷ ys) (n, ns) (m, h) =
      if_either AreApart (s.above y.fused_score x.fused_score)
        (
          All-insert (λ e. same_chunk y.hit e.hit ≡ false) x ys (same_chunk_comm y.hit x.hit ∙ n) m,
          insert-AreApart x ys ns h,
        )
        ((n, ns), (m, h))

  pub sort-AreApart : (xs : List (Fused Score)) → AreApart xs → AreApart (sort s xs)
  unfolding sort
  sort-AreApart [] h = tt
  sort-AreApart (x ∷ xs) (n, h) =
      insert-AreApart x (sort s xs) (All-sort (λ e. same_chunk x.hit e.hit ≡ false) xs n)
        (sort-AreApart xs h)

  pub take-AreApart : (n : ℕ) (xs : List (Fused Score)) → AreApart xs → AreApart (take n xs)
  take-AreApart zero xs h = tt
  take-AreApart (suc n) [] h = tt
  take-AreApart (suc n) (x ∷ xs) (m, h) =
      (All-take (λ e. same_chunk x.hit e.hit ≡ false) n xs m, take-AreApart n xs h)

  with_scores-Apart :
      (lists k : ℕ) (x : Fused Score) (xs : List (Fused Score))
      → Apart x.hit xs
      → All
          (λ y. same_chunk (record x.hit { score = s.scaled lists k x.fused_score }) y ≡ false)
          (with_scores s lists k xs)
  unfolding with_scores
  with_scores-Apart lists k x [] h = tt
  with_scores-Apart lists k x (y ∷ ys) (n, h) = (n, with_scores-Apart lists k x ys h)

  pub with_scores-IsDistinct :
      (lists k : ℕ) (xs : List (Fused Score)) → AreApart xs → IsDistinct (with_scores s lists k xs)
  unfolding with_scores
  with_scores-IsDistinct lists k [] h = tt
  with_scores-IsDistinct lists k (x ∷ xs) (m, h) =
      (with_scores-Apart lists k x xs m, with_scores-IsDistinct lists k xs h)

  pub length-with_scores :
      (lists k : ℕ) (xs : List (Fused Score)) → length (with_scores s lists k xs) ≡ length xs
  unfolding with_scores
  length-with_scores lists k [] = refl
  length-with_scores lists k (x ∷ xs) = ap suc (length-with_scores lists k xs)
