-- ===== src/Notes/Search.antt =====
-- modules/notes/service/notesSerach.service.ts, with utils/searchCursorPayload.ts and
-- utils/orderByForSearch.ts.
pub mod Results
mod Tests
use notes_md_app_be.Prelude.{
  ℕ, String, Bool, true, false, Option, none, some, List, [], ◌∷◌, if◌then◌else◌, str_eq, or_else,
}
use notes_md_app_be.Core.Selectors.{
  OrderBy, from_string_to_array, includes, with_key, build_field_selector, build_order_by,
}
use notes_md_app_be.Notes.Database.{NotesDatabase}
use notes_md_app_be.Notes.Service.{
  Note, RankedId, NoteSearchOptions, Rank, best_first, worst_first, get_note_by_text,
}

abbrev pub note_sort_fields : List String
note_sort_fields = "updatedAt" ∷ "createdAt" ∷ "title" ∷ []

abbrev pub cursor_orders : List String
cursor_orders = "updatedAt" ∷ "-updatedAt" ∷ "rank" ∷ "-rank" ∷ []

pub record SearchCursorPayload : Type 0 where
  pub id : String
  pub order : String

-- What the decoded JSON has at `id` and `order`, where these are strings.
pub record CursorFields : Type 0 where
  pub id : Option String
  pub order : Option String

abbrev pub checked_cursor : Option String → Option String → Option SearchCursorPayload
checked_cursor none order = none
checked_cursor (some id) none = none
checked_cursor (some id) (some order) =
    if includes cursor_orders order then some (record { id = id; order = order }) else none

abbrev pub cursor_from : Option CursorFields → Option SearchCursorPayload
cursor_from none = none
cursor_from (some fields) = checked_cursor fields.id fields.order

-- `json` is the decoding of base64 and JSON: `none` where it throws, or gives a falsy value.
unfoldable pub decode_cursor :
    (String → Option CursorFields) → Option String → Option SearchCursorPayload
decode_cursor json none = none
decode_cursor json (some raw) = if str_eq raw "" then none else cursor_from (json raw)

abbrev pub id_of : Option SearchCursorPayload → Option String
id_of none = none
id_of (some cursor) = some cursor.id

unfoldable pub build_note_search_order_by : Option String → Option OrderBy
build_note_search_order_by order = build_order_by order "updatedAt" (some note_sort_fields)

pub record SearchNotesQuery : Type 0 where
  pub q : String
  pub cursor : Option String
  pub limit : ℕ
  pub fields : Option String
  pub children_fields : Option String
  pub order : Option String

abbrev pub rank_of : Option String → Option Rank
rank_of none = none
rank_of (some order) =
    if str_eq order "rank"
    then some best_first
    else if str_eq order "-rank"
    then some worst_first
    else none

-- The options without a rank; `none` where the order is refused by an error.
abbrev pub ordered_options : ℕ → Option String → Option OrderBy → Option NoteSearchOptions
ordered_options limit cursor_id none = none
ordered_options limit cursor_id (some order) =
    some (record { order_by = some order; limit = limit; cursor_id = cursor_id; rank = none })

abbrev pub options_of : Option String → ℕ → Option String → Option Rank → Option NoteSearchOptions
options_of order limit cursor_id (some rank) =
    some (record { order_by = none; limit = limit; cursor_id = cursor_id; rank = some rank })
options_of order limit cursor_id none =
    ordered_options limit cursor_id (build_note_search_order_by order)

unfoldable pub search_options : Option String → ℕ → Option String → Option NoteSearchOptions
search_options order limit cursor_id = options_of order limit cursor_id (rank_of order)

-- A note of the answer, without its content unless it was asked for, and its snippet.
pub record NoteSearchResult : Type 0 where
  pub note : Note
  pub snippet : String

pub data Found : Type 0 where
  found : List NoteSearchResult → Found
  search_failed : Found

abbrev pub content_if : Bool → Option String → Option String
content_if true content = content
content_if false content = none

-- `build_snippet` is `buildSnippet` of utils/markdownText.ts.
unfoldable pub to_results :
    (String → String → String) → String → Bool → List Note → List NoteSearchResult
to_results build_snippet q with_content [] = []
to_results build_snippet q with_content (n ∷ ns) =
    record {
      note = record n { content = content_if with_content n.content };
      snippet = build_snippet (or_else n.content "") q;
    }
    ∷ to_results build_snippet q with_content ns

-- `locale` and `search` as in the notes service.
module _ {Db : Type 0} (d : NotesDatabase Db) (locale : String → String → Bool)
    (search : Db → String → String → List RankedId) (to_ts_query : String → Option String)
    (json : String → Option CursorFields) (build_snippet : String → String → String) where
  abbrev pub found_with :
      Db → String → SearchNotesQuery → List String → String → Option NoteSearchOptions → Found
  found_with db sub query selector tsq none = search_failed
  found_with db sub query selector tsq (some options) = found (
      to_results build_snippet query.q (includes selector "content")
        (get_note_by_text d locale search db sub (with_key selector "content") tsq options))

  abbrev pub found_for : Db → String → SearchNotesQuery → List String → Option String → Found
  found_for db sub query selector none = found []
  found_for db sub query selector (some tsq) =
      if str_eq tsq ""
      then found []
      else found_with db sub query selector tsq
          (search_options query.order query.limit (id_of (decode_cursor json query.cursor)))

  abbrev pub found_fields : Db → String → SearchNotesQuery → Option (List String) → Found
  found_fields db sub query none = found []
  found_fields db sub query (some fields) =
      found_for db sub query (build_field_selector fields) (to_ts_query query.q)

  unfoldable pub search_by_text : Db → String → SearchNotesQuery → Found
  search_by_text db sub query = found_fields db sub query (from_string_to_array query.fields)
