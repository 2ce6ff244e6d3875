-- ===== src/Notes/Controller/Tests.antt =====
-- The theorem on the requests for a note at a concrete input.
use notes_md_app_be.Prelude.{String, Bool, false, none, some, List, [], ◌∷◌}
use notes_md_app_be.Notes.Database.{NoteRow}
use notes_md_app_be.Notes.Service.{RankedId}
use notes_md_app_be.Notes.Service.Sample.{sample}
use notes_md_app_be.Notes.Trees.{GetNoteQuery, some_depth}
use notes_md_app_be.Notes.Controller.{get_note_by_id}
use notes_md_app_be.Notes.Controller.Statuses.{HasStatus, get_note_by_id-HasStatus}

abbrev before : String → String → Bool
before a b = false

abbrev no_hits : List NoteRow → String → String → List RankedId
no_hits rows user_id q = []

abbrev query : GetNoteQuery
query = record {
  depth = some_depth 1;
  expand_parent = false;
  fields = some "title,content";
  children_fields = some "title";
  children_limit = none;
  children_sort = none;
}

abbrev rows : List NoteRow
rows =
    record {
      id = "a";
      user_id = "ann";
      parent_id = none;
      title = "a";
      content = "text";
      created_at = 0;
      updated_at = 0;
    }
    ∷ []

get_note_by_id-HasStatus_example :
    HasStatus sample before no_hits rows "a" "ann" query
      (get_note_by_id sample before no_hits rows "a" "ann" query)
get_note_by_id-HasStatus_example =
    get_note_by_id-HasStatus sample before no_hits rows "a" "ann" query
