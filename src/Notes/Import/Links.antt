-- ===== src/Notes/Import/Links.antt =====
-- modules/notes/import/linkIndex.ts. `nfc` and `lower_case` are Unicode normalization and
-- `toLowerCase` of the runtime; texts are lists of UTF-16 code units.
pub mod Indexing
pub mod Picking
pub mod Resolving
mod Tests
use mathlib.Core.Option
use notes_md_app_be.Prelude.{
  ℕ, String, Bool, true, false, not, ◌&&◌, ◌||◌, Option, none, some, List, [], ◌∷◌, ◌++◌, ◌==◌, ltb,
  length, keep, if◌then◌else◌, str_eq, or_else,
}
use notes_md_app_be.Text.{Text, is_nonempty, trim}
use notes_md_app_be.Notes.Import.Paths.{
  slash, dot, slashes, split, some_segment, is_extension, extensions,
}

pub record LinkTarget : Type 0 where
  pub id : String
  pub segments : List Text
  pub title : String

abbrev pub Entries : Type 0
Entries = List (Text × List LinkTarget)

pub record LinkIndex : Type 0 where
  pub by_path : Entries
  pub by_base_name : Entries

pub record ResolvedTarget : Type 0 where
  pub target : LinkTarget
  pub ambiguous : Bool

abbrev pub text_eq : Text → Text → Bool
text_eq [] [] = true
text_eq [] (d ∷ ds) = false
text_eq (c ∷ cs) [] = false
text_eq (c ∷ cs) (d ∷ ds) = c == d && text_eq cs ds

-- `<` of texts, by code units
abbrev pub text_lt : Text → Text → Bool
text_lt [] [] = false
text_lt [] (d ∷ ds) = true
text_lt (c ∷ cs) [] = false
text_lt (c ∷ cs) (d ∷ ds) = ltb c d || (c == d && text_lt cs ds)

-- `join('/')`
unfoldable pub joined : List Text → Text
joined [] = []
joined (s ∷ []) = s
joined (s ∷ t ∷ ss) = s ++ (slash ∷ joined (t ∷ ss))

-- `replace` of the extension
unfoldable pub without_extension : Text → Text
without_extension [] = []
without_extension (c ∷ cs) =
    let rest = without_extension cs in
    if some_segment (is_extension (c ∷ cs)) extensions then [] else c ∷ rest

-- `[]` for no segments, where the code throws; every target has some.
abbrev pub last_without_extension : List Text → List Text
last_without_extension [] = []
last_without_extension (s ∷ []) = without_extension s ∷ []
last_without_extension (s ∷ t ∷ ss) = s ∷ last_without_extension (t ∷ ss)

-- `slice(-1)`
abbrev pub last_only : List Text → List Text
last_only [] = []
last_only (s ∷ []) = s ∷ []
last_only (s ∷ t ∷ ss) = last_only (t ∷ ss)

unfoldable pub has_target : List LinkTarget → String → Bool
has_target [] id = false
has_target (t ∷ ts) id = str_eq t.id id || has_target ts id

abbrev pub added : List LinkTarget → LinkTarget → List LinkTarget
added list target = if has_target list target.id then list else list ++ (target ∷ [])

unfoldable pub add_to : Entries → Text → LinkTarget → Entries
add_to [] key target = (key, added [] target) ∷ []
add_to ((k, list) ∷ es) key target =
    if text_eq k key then (k, added list target) ∷ es else (k, list) ∷ add_to es key target

unfoldable pub find_entry : Entries → Text → Option (List LinkTarget)
find_entry [] key = none
find_entry ((k, list) ∷ es) key = if text_eq k key then some list else find_entry es key

-- The segments so far, the last one first; `none` when the path climbs above the root.
unfoldable pub join_from : List Text → List Text → Option (List Text)
join_from result [] = some result
join_from result (s ∷ path) =
    if not (is_nonempty s) || text_eq s (dot ∷ [])
    then join_from result path
    else if text_eq s (dot ∷ dot ∷ [])
    then elim result [ [] ↦ none | r ∷ rs ↦ join_from rs path ]
    else join_from (s ∷ result) path

abbrev pub reversed : List Text → List Text → List Text
reversed [] onto = onto
reversed (s ∷ ss) onto = reversed ss (s ∷ onto)

unfoldable pub join_path : List Text → List Text → Option (List Text)
join_path dir path = Option.map (λ result. reversed result []) (join_from (reversed dir []) path)

abbrev pub is_nothing : Text → Bool
is_nothing s = not (is_nonempty s) || text_eq s (dot ∷ [])

unfoldable pub ends_with : Text → Text → Bool
ends_with [] suffix = text_eq [] suffix
ends_with (c ∷ cs) suffix = text_eq (c ∷ cs) suffix || ends_with cs suffix

module _ (nfc lower_case : Text → Text) where
  unfoldable pub key_of : List Text → Text
  key_of segments = lower_case (nfc (joined segments))

  unfoldable pub add_all : LinkIndex → List LinkTarget → LinkIndex
  add_all index [] = index
  add_all index (t ∷ ts) =
      add_all
        (record {
          by_path = add_to index.by_path (key_of (last_without_extension t.segments)) t;
          by_base_name =
              add_to index.by_base_name (key_of (last_only (last_without_extension t.segments))) t;
        })
        ts

  unfoldable pub create_link_index : List LinkTarget → LinkIndex
  create_link_index targets = add_all (record { by_path = []; by_base_name = [] }) targets

  -- The order of candidates: the shorter key, then the one that comes first.
  unfoldable pub goes_before : LinkTarget → LinkTarget → Bool
  goes_before a b =
      ltb (length (key_of a.segments)) (length (key_of b.segments))
      || (length (key_of a.segments) == length (key_of b.segments)
          && text_lt (key_of a.segments) (key_of b.segments))

  -- The first of the sorted candidates.
  unfoldable pub first_of : LinkTarget → List LinkTarget → LinkTarget
  first_of best [] = best
  first_of best (t ∷ ts) = first_of (if goes_before t best then t else best) ts

  unfoldable pub pick : Option (List LinkTarget) → Option ResolvedTarget
  pick none = none
  pick (some []) = none
  pick (some (t ∷ ts)) =
      some (record { target = first_of t ts; ambiguous = ltb 1 (length (t ∷ ts)) })

  abbrev pub entry_of : Entries → Option (List Text) → Option (List LinkTarget)
  entry_of entries none = none
  entry_of entries (some segments) = find_entry entries (key_of segments)

  abbrev pub or_next : Option ResolvedTarget → Option ResolvedTarget → Option ResolvedTarget
  or_next none other = other
  or_next (some r) other = some r

  abbrev pub with_suffix : Text → Option (List LinkTarget) → Option (List LinkTarget)
  with_suffix suffix none = none
  with_suffix suffix (some list) =
      some (keep (λ t. ends_with (slash ∷ key_of t.segments) suffix) list)

  -- By base name, or by the end of the path when there is more than one segment.
  abbrev pub by_name : LinkIndex → List Text → Option ResolvedTarget
  by_name index wanted =
      let by_base = find_entry index.by_base_name (key_of (last_only wanted)) in
      if length wanted == 1
      then pick by_base
      else pick (with_suffix (slash ∷ key_of wanted) by_base)

  unfoldable pub resolve_segments : List Text → List Text → LinkIndex → Option ResolvedTarget
  resolve_segments segments source_dir index =
      or_next (pick (entry_of index.by_path (join_path source_dir segments))) (
        or_next (pick (entry_of index.by_path (join_path [] segments)))
          (by_name index (keep is_nonempty (or_else (join_path [] segments) segments))))

  unfoldable pub resolve_target : Text → List Text → LinkIndex → Option ResolvedTarget
  resolve_target raw source_dir index =
      let segments = split (without_extension (trim (slashes (nfc raw)))) in
      if some_segment (λ s. not (is_nothing s)) segments
      then resolve_segments segments source_dir index
      else none
