-- ===== src/Notes/Import/Links/Tests.antt =====
-- The theorem on links at a concrete input: the link `b` of a file in the folder `a`.
use notes_md_app_be.Prelude.{◌≡◌, refl, List, [], ◌∷◌, none}
use notes_md_app_be.Text.{Text, trim_end, trim_start}
use notes_md_app_be.Notes.Import.Links.{
  LinkTarget, create_link_index, resolve_target, without_extension, resolve_segments, pick,
  join_path, join_from, find_entry, add_all, add_to, key_of, joined, ends_with, first_of,
  goes_before, has_target,
}
use notes_md_app_be.Notes.Import.Paths.{some_segment, split, slashes, is_extension, cons_first}

abbrev as_it_is : Text → Text
as_it_is text = text

abbrev targets : List LinkTarget
targets =
    record { id = "1"; segments = (97 ∷ []) ∷ (98 ∷ 46 ∷ 109 ∷ 100 ∷ []) ∷ []; title = "Note" }
    ∷ record { id = "2"; segments = (98 ∷ 46 ∷ 109 ∷ 100 ∷ []) ∷ []; title = "Note" }
    ∷ []

-- A file x/a/b.md, and a link a/b of a file in the folder z: the path of the file ends with .md, so it
-- does not end with the link's path.
abbrev deep : List LinkTarget
deep =
    record {
      id = "1";
      segments = (120 ∷ []) ∷ (97 ∷ []) ∷ (98 ∷ 46 ∷ 109 ∷ 100 ∷ []) ∷ [];
      title = "Note";
    }
    ∷ []

suffix_missed :
    resolve_target as_it_is as_it_is
      (97 ∷ 47 ∷ 98 ∷ [])
      ((122 ∷ []) ∷ [])
      (create_link_index as_it_is as_it_is deep)
    ≡ none
unfolding resolve_target create_link_index some_segment split without_extension trim_end trim_start
    slashes is_extension cons_first resolve_segments pick join_path join_from find_entry add_all
    add_to key_of joined ends_with first_of goes_before has_target
suffix_missed = refl
