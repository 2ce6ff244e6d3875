-- ===== src/Core/Limiters/Tests.antt =====
-- A limiter at concrete inputs.
use notes_md_app_be.Prelude.{
  String, ◌≡◌, refl, true, false, Option, none, some, List, [], ◌∷◌, min, str_eq, if◌then◌else◌,
}
use notes_md_app_be.Prelude.Map
use notes_md_app_be.Core.Limiters.{allow, allow_all}
use notes_md_app_be.Core.Limiters.Counting.{granted, calls, granted-allow_all}

abbrev keys : List (Option String)
keys = some "p" ∷ some "q" ∷ none ∷ some "p" ∷ some "p" ∷ []

answers : allow_all 2 [] keys ≡ true ∷ true ∷ false ∷ true ∷ false ∷ []
unfolding allow_all allow Map.get Map.set
answers = refl

granted-allow_all_example :
    granted "p" keys (allow_all 2 [] keys) ≡ (if str_eq "p" "" then 0 else min 2 (calls "p" keys))
granted-allow_all_example = granted-allow_all 2 keys "p"
