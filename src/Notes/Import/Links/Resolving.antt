-- ===== src/Notes/Import/Links/Resolving.antt =====
-- What a link of an imported file resolves to, over all targets of the import.
use notes_md_app_be.Prelude.{
  not, Option, none, some, List, [], ◌∷◌, ◌==◌, length, keep, if◌then◌else◌, or_else,
}
use notes_md_app_be.Text.{Text, is_nonempty, trim}
use notes_md_app_be.Notes.Import.Paths.{slash, slashes, split, some_segment}
use notes_md_app_be.Notes.Import.Links.{
  LinkTarget, text_eq, join_path, key_of, last_only, ends_with, is_nothing, without_extension,
}
use notes_md_app_be.Notes.Import.Links.Indexing.{firsts, path_key, base_key}
use notes_md_app_be.Notes.Import.Links.Picking.{or_others}

module _ (nfc lower_case : Text → Text) where
  -- The targets at a path, without regard to extensions and case, the first of each id.
  abbrev pub at_path : List LinkTarget → Option (List Text) → List LinkTarget
  at_path targets none = []
  at_path targets (some path) =
      firsts []
        (keep (λ t. text_eq (path_key nfc lower_case t) (key_of nfc lower_case path)) targets)

  -- The targets whose path ends with the wanted one: by its last part, without the extension, and
  -- then by all of it, where the target's extension counts.
  abbrev pub at_end : List LinkTarget → List Text → List LinkTarget
  at_end targets wanted =
      let named = firsts [] (
        keep (λ t. text_eq (base_key nfc lower_case t) (key_of nfc lower_case (last_only wanted)))
          targets) in
      if length wanted == 1
      then named
      else keep
          (λ t.
            ends_with (slash ∷ key_of nfc lower_case t.segments)
              (slash ∷ key_of nfc lower_case wanted))
          named

  -- The targets of a link's segments: at the path from the file's folder, else from the root of the
  -- import, else at the end of a path.
  abbrev pub candidates : List LinkTarget → List Text → List Text → List LinkTarget
  candidates targets source_dir segments =
      or_others nfc lower_case (at_path targets (join_path source_dir segments)) (
        or_others nfc lower_case (at_path targets (join_path [] segments))
          (at_end targets (keep is_nonempty (or_else (join_path [] segments) segments))))

  -- The segments of a link without its extension; none when they say nothing.
  abbrev pub link_segments : Text → List Text
  link_segments raw = split (without_extension (trim (slashes (nfc raw))))

  abbrev pub linked : List LinkTarget → List Text → List Text → List LinkTarget
  linked targets source_dir segments =
      if some_segment (λ s. not (is_nothing s)) segments
      then candidates targets source_dir segments
      else []
