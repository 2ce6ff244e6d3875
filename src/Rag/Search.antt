-- ===== src/Rag/Search.antt =====
-- modules/ai/rag/hybridSearch.ts and ragSearch.service.ts. Scores are floating-point numbers: the
-- operations that the code applies to them are arguments, and no law of them is used.
pub mod Fusion
pub mod Hits
mod Tests
use notes_md_app_be.Prelude.{
  ℕ, suc, ◌+◌, String, Bool, true, false, not, ◌&&◌, ◌||◌, Option, none, some, List, [], ◌∷◌,
  length, take, keep, if◌then◌else◌, str_eq,
}

pub record RagHit (Score : Type 0) : Type 0 where
  pub note_id : String
  pub title : String
  pub heading_path : String
  pub content : String
  pub score : Score

abbrev pub rrf_k : ℕ
rrf_k = 60

-- `chunkKey` of two hits is the same: the texts hold no NUL, which the database cannot store.
abbrev pub same_chunk : {Score : Type 0} → RagHit Score → RagHit Score → Bool
same_chunk a b =
    str_eq a.note_id b.note_id
    && (str_eq a.heading_path b.heading_path && str_eq a.content b.content)

-- `add`, `scaled`, which is `Math.min(1, score / maxScore)` for a number of lists and `k`, `vote`,
-- which is `1 / (k + rank + 1)`, and `above`, which is the order of the sort.
pub record Scores (Score : Type 0) : Type 0 where
  pub zero_score : Score
  pub add : Score → Score → Score
  pub vote : ℕ → ℕ → Score
  pub scaled : ℕ → ℕ → Score → Score
  pub above : Score → Score → Bool

-- An entry of the map, under the key of its hit: the hit, and the score so far.
pub record Fused (Score : Type 0) : Type 0 where
  pub hit : RagHit Score
  pub fused_score : Score

module _ {Score : Type 0} (s : Scores Score) where
  -- One vote: an entry that is there keeps its place and its hit.
  unfoldable pub count_vote : List (Fused Score) → RagHit Score → Score → List (Fused Score)
  count_vote [] hit v = record { hit = hit; fused_score = s.add s.zero_score v } ∷ []
  count_vote (e ∷ es) hit v =
      if same_chunk e.hit hit
      then record e { fused_score = s.add e.fused_score v } ∷ es
      else e ∷ count_vote es hit v

  unfoldable pub count_list : ℕ → ℕ → List (Fused Score) → List (RagHit Score) → List (Fused Score)
  count_list k rank fused [] = fused
  count_list k rank fused (hit ∷ hits) =
      count_list k (rank + 1) (count_vote fused hit (s.vote k rank)) hits

  unfoldable pub count_lists :
      ℕ → List (Fused Score) → List (List (RagHit Score)) → List (Fused Score)
  count_lists k fused [] = fused
  count_lists k fused (hits ∷ lists) = count_lists k (count_list k 0 fused hits) lists

  -- `sort`, the higher score first.
  unfoldable pub insert : Fused Score → List (Fused Score) → List (Fused Score)
  insert x [] = x ∷ []
  insert x (y ∷ ys) = if s.above y.fused_score x.fused_score then y ∷ insert x ys else x ∷ y ∷ ys

  unfoldable pub sort : List (Fused Score) → List (Fused Score)
  sort [] = []
  sort (x ∷ xs) = insert x (sort xs)

  unfoldable pub with_scores : ℕ → ℕ → List (Fused Score) → List (RagHit Score)
  with_scores lists k [] = []
  with_scores lists k (e ∷ es) =
      record e.hit { score = s.scaled lists k e.fused_score } ∷ with_scores lists k es

  unfoldable pub fuse_rrf : List (List (RagHit Score)) → ℕ → ℕ → List (RagHit Score)
  fuse_rrf lists limit k = with_scores (length lists) k (take limit (sort (count_lists k [] lists)))

-- The configuration of the search.
pub record RagConfig : Type 0 where
  pub enabled : Bool
  pub hybrid : Bool

pub data SearchResult (Score : Type 0) : Type 0 where
  hits : List (RagHit Score) → SearchResult Score
  search_error : SearchResult Score

-- `embed` is the provider's vector of a query, or an error; `search_db` and `keyword_search` are the
-- queries of the repository; `good` is the test of the least score; `is_blank` whether a text is
-- empty when it is trimmed, and `to_ts_query` the keywords of it, in any of its words.
module _ {Score Vector : Type 0} (s : Scores Score) (config : RagConfig)
    (embed : String → Option Vector)
    (search_db : String → Vector → ℕ → Option (List (RagHit Score)))
    (keyword_search : String → String → ℕ → Option (List (RagHit Score))) (good : Score → Bool)
    (is_blank : String → Bool) (to_ts_query : String → Option String) where
  abbrev pub fused_result :
      ℕ → List (RagHit Score) → Option (List (RagHit Score)) → SearchResult Score
  fused_result limit semantic none = search_error
  fused_result limit semantic (some keyword) =
      hits (fuse_rrf s (semantic ∷ keyword ∷ []) limit rrf_k)

  abbrev pub with_keywords : String → ℕ → List (RagHit Score) → Option String → SearchResult Score
  with_keywords user_id limit semantic none = hits semantic
  with_keywords user_id limit semantic (some ts_query) =
      if str_eq ts_query ""
      then hits semantic
      else fused_result limit semantic (keyword_search user_id ts_query limit)

  abbrev pub semantic_result :
      String → String → ℕ → Option (List (RagHit Score)) → SearchResult Score
  semantic_result user_id query limit none = search_error
  semantic_result user_id query limit (some found) =
      with_keywords user_id limit (keep (λ hit. good hit.score) found)
        (if config.hybrid then to_ts_query query else none)

  abbrev pub vector_result : String → String → ℕ → Option Vector → SearchResult Score
  vector_result user_id query limit none = search_error
  vector_result user_id query limit (some vector) =
      semantic_result user_id query limit (search_db user_id vector limit)

  unfoldable pub search : String → String → ℕ → SearchResult Score
  search user_id query limit =
      if not config.enabled || is_blank query
      then hits []
      else vector_result user_id query limit (embed query)

  abbrev pub hits_or_none : SearchResult Score → List (RagHit Score)
  hits_or_none (hits found) = found
  hits_or_none search_error = []

  unfoldable pub search_safe : String → String → ℕ → List (RagHit Score)
  search_safe user_id query limit = hits_or_none (search user_id query limit)
