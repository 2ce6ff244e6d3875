-- ===== src/Notes/Trees/Tests.antt =====
-- The theorems on the trees of notes at concrete inputs: two notes that are linked in a cycle.
use notes_md_app_be.Prelude.{String, refl, Bool, true, false, none, some, List, [], ◌∷◌}
use notes_md_app_be.Notes.Database.{NoteRow}
use notes_md_app_be.Notes.Service.{Note, RankedId, find_row}
use notes_md_app_be.Notes.Service.Sample.{sample}
use notes_md_app_be.Notes.Trees.{GetNoteQuery, some_depth, load_children_tree}
use notes_md_app_be.Notes.Trees.Levels.{single, IsAnswerTree}
use notes_md_app_be.Notes.Trees.Answers.{IsOwnId, load_children_tree-IsAnswerTree}

abbrev before : String → String → Bool
before a b = false

abbrev no_hits : List NoteRow → String → String → List RankedId
no_hits rows user_id q = []

abbrev row : String → String → NoteRow
row id parent = record {
  id = id;
  user_id = "ann";
  parent_id = some parent;
  title = id;
  content = "text";
  created_at = 0;
  updated_at = 0;
}

abbrev cycle : List NoteRow
cycle = row "a" "b" ∷ row "b" "a" ∷ []

abbrev query : GetNoteQuery
query = record {
  depth = some_depth 3;
  expand_parent = true;
  fields = none;
  children_fields = none;
  children_limit = some 1;
  children_sort = none;
}

abbrev note_a : Note
note_a = record {
  id = "a";
  parent_id = none;
  title = none;
  content = none;
  created_at = none;
  updated_at = none;
  user_id = none;
}

load_children_tree-IsAnswerTree_example :
    IsAnswerTree 1
      (IsOwnId sample before no_hits cycle "ann")
      (load_children_tree sample before no_hits cycle (single note_a) "a" query "ann")
unfolding sample find_row
load_children_tree-IsAnswerTree_example =
    load_children_tree-IsAnswerTree sample before no_hits cycle query "ann" note_a
      (row "a" "b", (refl, refl))
