-- ===== src/Notes/Search/Tests.antt =====
-- The theorem on the search at a concrete input.
use notes_md_app_be.Prelude.{String, Bool, false, Option, none, some, List, [], ◌∷◌, or_else}
use notes_md_app_be.Core.Selectors.{from_string_to_array, includes, build_field_selector}
use notes_md_app_be.Notes.Database.{NoteRow}
use notes_md_app_be.Notes.Service.{RankedId}
use notes_md_app_be.Notes.Service.Sample.{sample}
use notes_md_app_be.Notes.Search.{SearchNotesQuery, CursorFields, search_by_text}
use notes_md_app_be.Notes.Search.Results.{AllFound, IsShown, search_by_text-IsShown}

abbrev before : String → String → Bool
before a b = false

abbrev hits : List NoteRow → String → String → List RankedId
hits rows user_id q = record { id = "a"; rank = 1 } ∷ []

abbrev json : String → Option CursorFields
json raw = none

abbrev snippet : String → String → String
snippet content q = content

abbrev rows : List NoteRow
rows =
    record {
      id = "a";
      user_id = "ann";
      parent_id = none;
      title = "a";
      content = "text";
      created_at = 0;
      updated_at = 0;
    }
    ∷ []

abbrev by_title : SearchNotesQuery
by_title = record {
  q = "text";
  cursor = none;
  limit = 10;
  fields = some "title";
  children_fields = none;
  order = some "rank";
}

search_by_text-IsShown_example :
    AllFound
      (IsShown sample before hits some json snippet rows "ann" (
        includes
          (build_field_selector (or_else (from_string_to_array (some "title")) []))
          "content"))
      (search_by_text sample before hits some json snippet rows "ann" by_title)
search_by_text-IsShown_example =
    search_by_text-IsShown sample before hits some json snippet rows "ann" by_title
