-- ===== src/Core/Limiters.antt =====
-- src/core/utils/limiters.ts: the counters of a limiter, and one call of `allow` after the other. A
-- key that is null or undefined is `none`.
pub mod Counting
mod Tests
use notes_md_app_be.Prelude.{
  ℕ, ◌+◌, String, Bool, true, false, Option, none, some, List, [], ◌∷◌, leb, if◌then◌else◌, or_else,
  str_eq,
}
use notes_md_app_be.Prelude.Map
use notes_md_app_be.Prelude.Map.{Map}

abbrev pub current : Map ℕ → String → ℕ
current counters key = or_else (Map.get counters key) 0

unfoldable pub allow : ℕ → Map ℕ → Option String → Map ℕ × Bool
allow max_per_key counters none = (counters, false)
allow max_per_key counters (some key) =
    if str_eq key ""
    then (counters, false)
    else if leb max_per_key (current counters key)
    then (counters, false)
    else (Map.set counters key (current counters key + 1), true)

-- The answers to the calls of `allow` in this order.
unfoldable pub allow_all : ℕ → Map ℕ → List (Option String) → List Bool
allow_all max_per_key counters [] = []
allow_all max_per_key counters (key ∷ keys) =
    let (counters', answer) = allow max_per_key counters key in
    answer ∷ allow_all max_per_key counters' keys
