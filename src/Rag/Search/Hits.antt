-- ===== src/Rag/Search/Hits.antt =====
-- The hits of a search: bounded, each once, and only what the repository found.
use notes_md_app_be.Prelude.{
  ℕ, ◌+◌, ◌≤◌, String, Bool, not, ◌||◌, Option, none, some, List, [], ◌∷◌, length, take, keep,
  if◌then◌else◌, str_eq, All, All-keep, All-take, if_either, arith, length-take,
}
use notes_md_app_be.Rag.Search.{
  RagHit, same_chunk, Scores, Fused, count_vote, count_list, count_lists, sort, with_scores,
  fuse_rrf, rrf_k, RagConfig, SearchResult, hits, search_error, fused_result, with_keywords,
  semantic_result, vector_result, search,
}
use notes_md_app_be.Rag.Search.Fusion.{
  IsDistinct, All-sort, count_lists-AreApart, sort-AreApart, take-AreApart, with_scores-IsDistinct,
  length-with_scores,
}

-- `P` of the note, the headings and the text of a hit.
module _ {Score : Type 0} (s : Scores Score) (P : String → String → String → Type 0) where
  abbrev pub Holds : RagHit Score → Type 0
  Holds x = P x.note_id x.heading_path x.content

  abbrev pub HoldAll : List (RagHit Score) → Type 0
  HoldAll xs = All (λ x. P x.note_id x.heading_path x.content) xs

  abbrev HoldsIn : Fused Score → Type 0
  HoldsIn e = P e.hit.note_id e.hit.heading_path e.hit.content

  count_vote-HoldsIn :
      (es : List (Fused Score)) (hit : RagHit Score) (v : Score)
      → All HoldsIn es
      → Holds hit
      → All HoldsIn (count_vote s es hit v)
  unfolding count_vote
  count_vote-HoldsIn [] hit v h p = (p, tt)
  count_vote-HoldsIn (e ∷ es) hit v (q, h) p =
      if_either (All HoldsIn) (same_chunk e.hit hit) (q, h) (q, count_vote-HoldsIn es hit v h p)

  count_list-HoldsIn :
      (k rank : ℕ) (es : List (Fused Score)) (found : List (RagHit Score))
      → All HoldsIn es
      → HoldAll found
      → All HoldsIn (count_list s k rank es found)
  unfolding count_list
  count_list-HoldsIn k rank es [] h p = h
  count_list-HoldsIn k rank es (x ∷ xs) h (p, ps) =
      count_list-HoldsIn k (rank + 1) (count_vote s es x (s.vote k rank)) xs
        (count_vote-HoldsIn es x (s.vote k rank) h p) ps

  count_lists-HoldsIn :
      (k : ℕ) (es : List (Fused Score)) (lists : List (List (RagHit Score)))
      → All HoldsIn es
      → All (λ l. HoldAll l) lists
      → All HoldsIn (count_lists s k es lists)
  unfolding count_lists
  count_lists-HoldsIn k es [] h p = h
  count_lists-HoldsIn k es (l ∷ ls) h (p, ps) =
      count_lists-HoldsIn k (count_list s k 0 es l) ls (count_list-HoldsIn k 0 es l h p) ps

  with_scores-HoldAll :
      (lists k : ℕ) (xs : List (Fused Score)) → All HoldsIn xs → HoldAll (with_scores s lists k xs)
  unfolding with_scores
  with_scores-HoldAll lists k [] h = tt
  with_scores-HoldAll lists k (x ∷ xs) (p, h) = (p, with_scores-HoldAll lists k xs h)

  -- The fused list has no chunk twice, is no longer than the limit, and whatever holds of the note,
  -- the headings and the text of all hits of the lists holds of its hits.
  pub fuse_rrf-IsDistinct :
      (lists : List (List (RagHit Score))) (limit k : ℕ)
      → All (λ l. HoldAll l) lists
      → IsDistinct (fuse_rrf s lists limit k)
        × ((length (fuse_rrf s lists limit k) ≤ limit) × HoldAll (fuse_rrf s lists limit k))
  unfolding fuse_rrf
  fuse_rrf-IsDistinct lists limit k h =
      let es = count_lists s k [] lists in
      let best = take limit (sort s es) in
      (
        with_scores-IsDistinct s (length lists) k best (
            take-AreApart s limit (sort s es)
              (sort-AreApart s es (count_lists-AreApart s k [] lists tt))),
        (
          omega (arith, length-with_scores s (length lists) k best, length-take limit (sort s es)),
          with_scores-HoldAll (length lists) k best (
              All-take HoldsIn limit (sort s es)
                (All-sort s HoldsIn es (count_lists-HoldsIn k [] lists tt h))),
        ),
      )

length-keep {ℓ} : {A : Type ℓ} (p : A → Bool) (xs : List A) → length (keep p xs) ≤ length xs
length-keep p [] = omega arith
length-keep p (x ∷ xs) = ground (arith, length-keep p xs)

-- At most `limit` hits, and `P` of each.
abbrev pub Fits :
    {Score : Type 0} → (String → String → String → Type 0) → ℕ → SearchResult Score → Type 0
Fits P limit (hits found) =
    (length found ≤ limit) × All (λ x. P x.note_id x.heading_path x.content) found
Fits P limit search_error = Unit

abbrev pub Found :
    {Score : Type 0}
    → (String → String → String → Type 0)
    → ℕ
    → Option (List (RagHit Score))
    → Type 0
Found P limit none = Unit
Found P limit (some found) =
    (length found ≤ limit) × All (λ x. P x.note_id x.heading_path x.content) found

module _ {Score Vector : Type 0} (s : Scores Score) (config : RagConfig)
    (embed : String → Option Vector)
    (search_db : String → Vector → ℕ → Option (List (RagHit Score)))
    (keyword_search : String → String → ℕ → Option (List (RagHit Score))) (good : Score → Bool)
    (is_blank : String → Bool) (to_ts_query : String → Option String)
    (P : String → String → String → Type 0) where
  fused_result-Fits :
      (limit : ℕ) (semantic : List (RagHit Score)) (keyword : Option (List (RagHit Score)))
      → All (λ x. P x.note_id x.heading_path x.content) semantic
      → Found P limit keyword
      → Fits P limit (
          fused_result s config embed search_db keyword_search good is_blank to_ts_query limit
            semantic keyword)
  fused_result-Fits limit semantic none h k = tt
  fused_result-Fits limit semantic (some keyword) h (le, k) =
      let (once, (short, all)) =
        fuse_rrf-IsDistinct s P (semantic ∷ keyword ∷ []) limit rrf_k (h, (k, tt)) in
      (short, all)

  with_keywords-Fits :
      (user_id : String) (limit : ℕ) (semantic : List (RagHit Score)) (ts_query : Option String)
      → ((q : String) → Found P limit (keyword_search user_id q limit))
      → length semantic ≤ limit
      → All (λ x. P x.note_id x.heading_path x.content) semantic
      → Fits P limit (
          with_keywords s config embed search_db keyword_search good is_blank to_ts_query user_id
            limit semantic ts_query)
  with_keywords-Fits user_id limit semantic none k le h = (le, h)
  with_keywords-Fits user_id limit semantic (some q) k le h =
      if_either (Fits P limit) (str_eq q "") (le, h)
        (fused_result-Fits limit semantic (keyword_search user_id q limit) h (k q))

  semantic_result-Fits :
      (user_id query : String) (limit : ℕ) (found : Option (List (RagHit Score)))
      → ((q : String) → Found P limit (keyword_search user_id q limit))
      → Found P limit found
      → Fits P limit (
          semantic_result s config embed search_db keyword_search good is_blank to_ts_query user_id
            query limit found)
  semantic_result-Fits user_id query limit none k h = tt
  semantic_result-Fits user_id query limit (some found) k (le, h) =
      with_keywords-Fits user_id limit (keep (λ hit. good hit.score) found)
        (if config.hybrid then to_ts_query query else none) k
        (omega (arith, le, length-keep (λ (hit : RagHit Score). good hit.score) found))
        (All-keep (λ x. P x.note_id x.heading_path x.content) (λ hit. good hit.score) found h)

  vector_result-Fits :
      (user_id query : String) (limit : ℕ) (vector : Option Vector)
      → ((q : String) → Found P limit (keyword_search user_id q limit))
      → ((v : Vector) → Found P limit (search_db user_id v limit))
      → Fits P limit (
          vector_result s config embed search_db keyword_search good is_blank to_ts_query user_id
            query limit vector)
  vector_result-Fits user_id query limit none k v = tt
  vector_result-Fits user_id query limit (some vector) k v =
      semantic_result-Fits user_id query limit (search_db user_id vector limit) k (v vector)

  -- If the two queries of the repository answer for a user at most as many chunks as they are asked
  -- for, and a condition on note, headings and text (such as that the note is the user's) holds of
  -- each, then so does the search, unless it fails: with and without the keywords, for any provider
  -- and any configuration.
  pub search-Fits :
      (user_id query : String) (limit : ℕ)
      → ((q : String) → Found P limit (keyword_search user_id q limit))
      → ((v : Vector) → Found P limit (search_db user_id v limit))
      → Fits P limit (
          search s config embed search_db keyword_search good is_blank to_ts_query user_id query
            limit)
  unfolding search
  search-Fits user_id query limit k v =
      if_either (Fits P limit) (not config.enabled || is_blank query) (omega arith, tt)
        (vector_result-Fits user_id query limit (embed query) k v)
