-- ===== src/Core/Selectors.antt =====
-- core/selector/utils.ts, core/sort/parseSort.ts and core/utils/fromStringToArray.ts. A selector is
-- the list of its keys.
use Prim.Native.String.{String}
use Prim.Native.Char.{Char, code}
use notes_md_app_be.Prelude.{
  ℕ, Bool, true, false, Option, none, some, List, [], ◌∷◌, ◌==◌, if◌then◌else◌, str_eq, ◌++◌,
}

abbrev pub prepend : Char → List String → List String
prepend c [] = String.◌∷◌ c "" ∷ []
prepend c (x ∷ xs) = String.◌∷◌ c x ∷ xs

-- `split` at a character of this code.
unfoldable pub split_on : ℕ → String → List String
split_on sep String.[] = "" ∷ []
split_on sep (String.◌∷◌ c s) =
    let rest = split_on sep s in if code c == sep then "" ∷ rest else prepend c rest

abbrev pub comma : ℕ
comma = 44

unfoldable pub from_string_to_array : Option String → Option (List String)
from_string_to_array none = none
from_string_to_array (some s) = if str_eq s "" then none else some (split_on comma s)

unfoldable pub includes : List String → String → Bool
includes [] x = false
includes (y ∷ ys) x = if str_eq y x then true else includes ys x

-- Writing a key: one that is there stays where it is. Also `add` of a set.
abbrev pub with_key : List String → String → List String
with_key keys key = if includes keys key then keys else keys ++ (key ∷ [])

unfoldable pub with_keys : List String → List String → List String
with_keys keys [] = keys
with_keys keys (f ∷ fs) = with_keys (with_key keys f) fs

abbrev pub build_field_selector : List String → List String
build_field_selector fields = with_keys [] fields

-- The column and the direction of a sort.
pub record OrderBy : Type 0 where
  pub field : String
  pub descending : Bool

abbrev pub is_allowed : Option (List String) → String → Bool
is_allowed none field = true
is_allowed (some fields) field = includes fields field

-- `none` where the field is refused by an error.
abbrev pub order_if_allowed : Option (List String) → OrderBy → Option OrderBy
order_if_allowed allowed order = if is_allowed allowed order.field then some order else none

unfoldable pub parse_order : Option (List String) → String → Option OrderBy
parse_order allowed String.[] = order_if_allowed allowed (record { field = ""; descending = false })
parse_order allowed (String.◌∷◌ c s) =
    if code c == 45
    then order_if_allowed allowed (record { field = s; descending = true })
    else order_if_allowed allowed (record { field = String.◌∷◌ c s; descending = false })

unfoldable pub build_order_by : Option String → String → Option (List String) → Option OrderBy
build_order_by none default_field allowed =
    some (record { field = default_field; descending = false })
build_order_by (some sort) default_field allowed =
    if str_eq sort ""
    then some (record { field = default_field; descending = false })
    else parse_order allowed sort
