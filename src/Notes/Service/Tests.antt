-- ===== src/Notes/Service/Tests.antt =====
-- The theorems on the notes service at concrete inputs.
use mathlib.Core.List.{Perm}
use notes_md_app_be.Prelude.{String, ◌≡◌, refl, Bool, false, none, some, List, [], ◌∷◌, All}
use notes_md_app_be.Core.Selectors.{includes}
use notes_md_app_be.Notes.Database.{NoteRow}
use notes_md_app_be.Notes.Service.{
  undefined, given, NoteBase, UpdateNote, RankedId, find_row, row_ids, worst_first,
}
use notes_md_app_be.Notes.Service.Parents.{ParentsOwned}
use notes_md_app_be.Notes.Service.Ownership.{
  Request, creates, updates, serve_all, serve_all-ParentsOwned, serve_all-others,
}
use notes_md_app_be.Notes.Service.Reading.{Query, by_text, query, IsOwn, query-IsOwn}
use notes_md_app_be.Notes.Service.Sorting.{IsRanked}
use notes_md_app_be.Notes.Service.Ranking.{ids_of, read_notes, read_notes-IsRanked}
use notes_md_app_be.Notes.Service.Sample.{sample}

abbrev before : String → String → Bool
before a b = false

abbrev hits : List NoteRow → String → String → List RankedId
hits rows user_id q =
    record { id = "b"; rank = 2 }
    ∷ record { id = "a"; rank = 1 }
    ∷ record { id = "c"; rank = 3 }
    ∷ []

abbrev root_note : NoteBase
root_note = record { title = "a"; content = "text"; parent_id = undefined }

abbrev child_note : NoteBase
child_note = record { title = "b"; content = "more"; parent_id = given "a" }

abbrev move_below_b : UpdateNote
move_below_b = record { title = none; content = none; parent_id = given "b" }

abbrev requests : List Request
requests =
    creates "ann" root_note
    ∷ creates "ann" child_note
    ∷ creates "bob" child_note
    ∷ updates "bob" "a" move_below_b
    ∷ []

abbrev row : String → String → NoteRow
row id user_id = record {
  id = id;
  user_id = user_id;
  parent_id = none;
  title = id;
  content = "";
  created_at = 0;
  updated_at = 0;
}

empty-ParentsOwned : ParentsOwned (find_row [])
unfolding find_row
empty-ParentsOwned id = refl

serve_all-ParentsOwned_example :
    ParentsOwned (sample.note (serve_all sample before hits [] requests))
unfolding sample
serve_all-ParentsOwned_example =
    serve_all-ParentsOwned sample before hits [] requests empty-ParentsOwned

serve_all-others_example :
    sample.note (serve_all sample before hits (row "x" "eve" ∷ []) requests) "x"
    ≡ some (row "x" "eve")
unfolding sample find_row
serve_all-others_example =
    serve_all-others sample before hits (row "x" "eve" ∷ []) requests "x" (row "x" "eve")
      (refl, (refl, (refl, (refl, tt)))) refl

abbrev by_rank : Query
by_rank =
    by_text ("title" ∷ []) "text"
      (record { order_by = none; limit = 2; cursor_id = some "a"; rank = some worst_first })

query-IsOwn_example :
    All
      (IsOwn sample before hits (row "a" "ann" ∷ row "b" "ann" ∷ row "c" "bob" ∷ []) "ann")
      (query sample before hits (row "a" "ann" ∷ row "b" "ann" ∷ row "c" "bob" ∷ []) "ann" by_rank)
query-IsOwn_example =
    query-IsOwn sample before hits (row "a" "ann" ∷ row "b" "ann" ∷ row "c" "bob" ∷ []) "ann"
      by_rank

abbrev own_hits : List NoteRow → String → String → List RankedId
own_hits rows user_id q = record { id = "b"; rank = 2 } ∷ record { id = "a"; rank = 1 } ∷ []

abbrev rows : List NoteRow
rows = row "a" "ann" ∷ row "b" "ann" ∷ row "c" "bob" ∷ []

read_notes-IsRanked_example :
    (sorted : List RankedId) × Perm sorted (own_hits rows "ann" "text")
    × IsRanked worst_first sorted
    × (ids_of
          (read_notes sample before own_hits 3 rows "ann" ("title" ∷ []) "text" worst_first 1 none)
        ≡ row_ids sorted)
unfolding includes sample find_row
read_notes-IsRanked_example =
    read_notes-IsRanked sample before own_hits rows "ann" ("title" ∷ []) "text" worst_first 0
      (refl, (refl, (refl, (refl, tt))))
      ((row "b" "ann", refl, refl), ((row "a" "ann", refl, refl), tt))
