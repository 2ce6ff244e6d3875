-- ===== src/Notes/Controller.antt =====
-- modules/notes/controller/notes.controller.ts: the requests for notes but the import, with
-- utils/validateNoteFields.ts.
pub mod Statuses
mod Tests
use notes_md_app_be.Prelude.{
  ℕ, String, Bool, true, false, ◌&&◌, Option, none, some, List, [], ◌∷◌, if◌then◌else◌, or_else,
}
use notes_md_app_be.Core.Selectors.{from_string_to_array, includes, with_keys}
use notes_md_app_be.Notes.Database.{NotesDatabase, NoteRow}
use notes_md_app_be.Notes.Service
use notes_md_app_be.Notes.Service.{
  Note, RankedId, NoteBase, UpdateNote, Saved, saved, refused, NotesError, get_all_notes,
}
use notes_md_app_be.Notes.Trees.{
  GetNoteQuery, Answer, no_note, no_answer, answered, NoteWithFamily, get_note_with_family,
}
use notes_md_app_be.Notes.Search.{
  SearchNotesQuery, Found, found, search_failed, NoteSearchResult, CursorFields, search_by_text,
}

abbrev pub allowed_note_fields : List String
allowed_note_fields = "title" ∷ "content" ∷ "createdAt" ∷ "updatedAt" ∷ "userId" ∷ "parentId" ∷ []

unfoldable pub all_allowed : List String → Bool
all_allowed [] = true
all_allowed (f ∷ fs) = includes allowed_note_fields f && all_allowed fs

-- `none` where a field is refused.
unfoldable pub validate_and_normalize_fields : Option String → Option (List String)
validate_and_normalize_fields raw =
    if all_allowed (or_else (from_string_to_array raw) [])
    then some (with_keys [] (or_else (from_string_to_array raw) []))
    else none

pub data Response (A : Type 0) : Type 0 where
  ok : A → Response A
  bad_request note_not_found server_error : Response A

abbrev pub if_valid :
    {A : Type 0} → Option (List String) → Option (List String) → Response A → Response A
if_valid none children response = bad_request
if_valid (some fields) none response = bad_request
if_valid (some fields) (some children) response = response

abbrev pub answer_response : Answer → Response (NoteWithFamily × Option Note)
answer_response no_note = note_not_found
answer_response no_answer = server_error
answer_response (answered note parent) = ok (note, parent)

abbrev pub found_response : Found → Response (List NoteSearchResult)
found_response (found results) = ok results
found_response search_failed = server_error

module _ {Db : Type 0} (d : NotesDatabase Db) (locale : String → String → Bool)
    (search_db : Db → String → String → List RankedId) where
  unfoldable pub get_note_by_id :
      Db → String → String → GetNoteQuery → Response (NoteWithFamily × Option Note)
  get_note_by_id db id sub query =
      if_valid (validate_and_normalize_fields query.fields)
        (validate_and_normalize_fields query.children_fields)
        (answer_response (get_note_with_family d locale search_db db id query sub))

  -- `is_blank` tells whether a text is empty when it is trimmed.
  unfoldable pub search :
      (String → Bool)
      → (String → Option String)
      → (String → Option CursorFields)
      → (String → String → String)
      → Db
      → String
      → SearchNotesQuery
      → Response (List NoteSearchResult)
  search is_blank to_ts_query json build_snippet db sub query =
      if_valid (validate_and_normalize_fields query.fields)
        (validate_and_normalize_fields query.children_fields)
        (if is_blank query.q
          then bad_request
          else found_response
              (search_by_text d locale search_db to_ts_query json build_snippet db sub query))

  unfoldable pub get_all : Db → String → Response (List Note)
  get_all db sub = ok (get_all_notes d locale search_db db sub)

  abbrev pub error_response : NotesError → Response NoteRow
  error_response NotesError.note_not_found = note_not_found
  error_response NotesError.server_fault = server_error

  abbrev pub saved_response : Saved → Response NoteRow
  saved_response (saved r) = ok r
  saved_response (refused error) = error_response error

  unfoldable pub create_note : Db → NoteBase → String → Db × Response NoteRow
  create_note db note sub =
      let (db', result) = Service.create_note d locale search_db db note sub in
      (db', saved_response result)

  unfoldable pub update_note_by_id : Db → String → UpdateNote → String → Db × Response NoteRow
  update_note_by_id db id update sub =
      let (db', result) = Service.update_note d locale search_db db update id sub in
      (db', saved_response result)
