-- ===== src/Rag/Search/Tests.antt =====
-- The theorems on the search in the chunks at concrete inputs, with votes in place of fractions.
use notes_md_app_be.Prelude.{
  ℕ, ◌+◌, ◌-◌, ◌≤◌, String, ◌≡◌, refl, Bool, true, false, Option, some, List, [], ◌∷◌, length, ltb,
  arith,
}
use notes_md_app_be.Rag.Search.{RagHit, Scores, RagConfig, fuse_rrf, search}
use notes_md_app_be.Rag.Search.Fusion.{IsDistinct}
use notes_md_app_be.Rag.Search.Hits.{HoldAll, Fits, fuse_rrf-IsDistinct, search-Fits}

abbrev scores : Scores ℕ
scores = record {
  zero_score = 0;
  add = λ a b. a + b;
  vote = λ k rank. 1000 - k - rank;
  scaled = λ lists k score. score;
  above = λ a b. ltb b a;
}

abbrev hit : String → RagHit ℕ
hit id = record { note_id = id; title = id; heading_path = "Title"; content = id; score = 5 }

abbrev IsTitled : String → String → String → Type 0
IsTitled id path content = path ≡ "Title"

abbrev lists : List (List (RagHit ℕ))
lists = (hit "a" ∷ hit "b" ∷ []) ∷ (hit "b" ∷ hit "c" ∷ []) ∷ []

fuse_rrf-IsDistinct_example :
    IsDistinct (fuse_rrf scores lists 2 60)
    × ((length (fuse_rrf scores lists 2 60) ≤ 2)
        × HoldAll scores IsTitled (fuse_rrf scores lists 2 60))
fuse_rrf-IsDistinct_example =
    fuse_rrf-IsDistinct scores IsTitled lists 2 60 ((refl, (refl, tt)), ((refl, (refl, tt)), tt))

abbrev config : RagConfig
config = record { enabled = true; hybrid = true }

abbrev embed : String → Option ℕ
embed query = some 0

abbrev semantic : String → ℕ → ℕ → Option (List (RagHit ℕ))
semantic user_id vector limit = some (hit "a" ∷ hit "b" ∷ [])

abbrev keyword : String → String → ℕ → Option (List (RagHit ℕ))
keyword user_id ts_query limit = some (hit "b" ∷ [])

abbrev good : ℕ → Bool
good score = ltb 3 score

abbrev never_blank : String → Bool
never_blank query = false

search-Fits_example :
    Fits IsTitled 2
      (search scores config embed semantic keyword good never_blank some "ann" "text" 2)
search-Fits_example =
    search-Fits scores config embed semantic keyword good never_blank some IsTitled "ann" "text" 2
      (λ q. (omega arith, (refl, tt))) (λ v. (omega arith, (refl, (refl, tt))))
