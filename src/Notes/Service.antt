-- ===== src/Notes/Service.antt =====
-- modules/notes/service/notes.service.ts and utils/note.mapper.ts. A field that is not selected, or
-- null, is `none`.
pub mod Parents
pub mod Ownership
pub mod Reading
pub mod Paging
pub mod Sorting
pub mod Ranking
pub mod Sample
mod Tests
use notes_md_app_be.Prelude.{
  ℕ, suc, ◌+◌, String, Bool, true, false, ◌&&◌, ◌||◌, Option, none, some, List, [], ◌∷◌, ◌++◌, ltb,
  ◌==◌, if◌then◌else◌, str_eq, take, drop,
}
use notes_md_app_be.Notes.Database.{
  NoteRow, NoteCreate, NoteUpdate, ParentUpdate, unchanged, disconnect, connect_to, Written,
  written, not_found, failed, owns, NotesDatabase,
}
use notes_md_app_be.Core.Selectors.{OrderBy, includes}

-- A value that may be left out (undefined) or null.
pub data Given : Type 0 where
  undefined null : Given
  given : String → Given

pub record NoteBase : Type 0 where
  pub title : String
  pub content : String
  pub parent_id : Given

pub record UpdateNote : Type 0 where
  pub title : Option String
  pub content : Option String
  pub parent_id : Given

abbrev pub connect_given : Given → String → Option (String × String)
connect_given undefined user_id = none
connect_given null user_id = none
connect_given (given id) user_id = if str_eq id "" then none else some (id, user_id)

abbrev pub parent_given : Given → String → ParentUpdate
parent_given undefined user_id = unchanged
parent_given null user_id = disconnect
parent_given (given id) user_id = connect_to id user_id

unfoldable pub to_persistence_create : NoteBase → String → NoteCreate
to_persistence_create note user_id = record {
  title = note.title;
  content = note.content;
  user_id = user_id;
  connect = connect_given note.parent_id user_id;
}

unfoldable pub to_persistence_update : UpdateNote → String → NoteUpdate
to_persistence_update note user_id = record {
  title = note.title;
  content = note.content;
  parent = parent_given note.parent_id user_id;
}

-- What a query answers: some of the columns.
pub record Note : Type 0 where
  pub id : String
  pub parent_id : Option String
  pub title : Option String
  pub content : Option String
  pub created_at : Option ℕ
  pub updated_at : Option ℕ
  pub user_id : Option String

abbrev pub only : {A : Type 0} → Bool → A → Option A
only true a = some a
only false a = none

abbrev pub only_some : {A : Type 0} → Bool → Option A → Option A
only_some true a = a
only_some false a = none

-- The columns of a row that a selector names; the id is always selected.
unfoldable pub select : List String → NoteRow → Note
select fields r = record {
  id = r.id;
  parent_id = only_some (includes fields "parentId") r.parent_id;
  title = only (includes fields "title") r.title;
  content = only (includes fields "content") r.content;
  created_at = only (includes fields "createdAt") r.created_at;
  updated_at = only (includes fields "updatedAt") r.updated_at;
  user_id = only (includes fields "userId") r.user_id;
}

unfoldable pub select_all : List String → List NoteRow → List Note
select_all fields [] = []
select_all fields (r ∷ rs) = select fields r ∷ select_all fields rs

abbrev pub select_some : List String → Option NoteRow → Option Note
select_some fields none = none
select_some fields (some r) = some (select fields r)

pub data NotesError : Type 0 where
  note_not_found server_fault : NotesError

pub data Saved : Type 0 where
  saved : NoteRow → Saved
  refused : NotesError → Saved

-- A hit of the full-text search: ranks are only compared.
pub record RankedId : Type 0 where
  pub id : String
  pub rank : ℕ

pub data Rank : Type 0 where
  best_first worst_first : Rank

pub record NoteSearchOptions : Type 0 where
  pub order_by : Option OrderBy
  pub limit : ℕ
  pub cursor_id : Option String
  pub rank : Option Rank

-- Whether a hit comes before another one: by the rank in a direction, and at the same rank by the
-- order of texts of the runtime.
abbrev pub comes_before : (String → String → Bool) → Rank → RankedId → RankedId → Bool
comes_before locale best_first a b = ltb b.rank a.rank || (a.rank == b.rank && locale a.id b.id)
comes_before locale worst_first a b = ltb a.rank b.rank || (a.rank == b.rank && locale a.id b.id)

-- `sort`, which keeps the order of equal elements.
unfoldable pub insert : (RankedId → RankedId → Bool) → RankedId → List RankedId → List RankedId
insert before x [] = x ∷ []
insert before x (y ∷ ys) = if before y x then y ∷ insert before x ys else x ∷ y ∷ ys

unfoldable pub sort : (RankedId → RankedId → Bool) → List RankedId → List RankedId
sort before [] = []
sort before (x ∷ xs) = insert before x (sort before xs)

abbrev pub row_ids : List RankedId → List String
row_ids [] = []
row_ids (x ∷ xs) = x.id ∷ row_ids xs

-- The ids behind the first one that is the cursor; none without it.
unfoldable pub behind : String → List String → List String
behind cursor [] = []
behind cursor (x ∷ xs) = if str_eq x cursor then xs else behind cursor xs

-- The ids of a page of sorted hits: an id that no longer matches gives an empty page.
unfoldable pub ranked_page : Option String → ℕ → List String → List String
ranked_page none limit sorted = take limit sorted
ranked_page (some cursor) limit sorted =
    if str_eq cursor "" then take limit sorted else take limit (behind cursor sorted)

unfoldable pub find_row : List NoteRow → String → Option NoteRow
find_row [] id = none
find_row (r ∷ rs) id = if str_eq r.id id then some r else find_row rs id

abbrev pub if_found : Option NoteRow → List NoteRow → List NoteRow
if_found none rs = rs
if_found (some r) rs = r ∷ rs

-- The rows of a page in the order of the ids.
unfoldable pub in_order : List NoteRow → List String → List NoteRow
in_order rows [] = []
in_order rows (id ∷ ids) = if_found (find_row rows id) (in_order rows ids)

abbrev pub cursor_of : Option String → Option String
cursor_of none = none
cursor_of (some id) = if str_eq id "" then none else some id

-- The row of the id, if it is the user's.
unfoldable pub own_row : String → Option NoteRow → Option NoteRow
own_row user_id none = none
own_row user_id (some r) = if str_eq r.user_id user_id then some r else none

abbrev pub is_in : List String → Option String → Bool
is_in parent_ids none = false
is_in parent_ids (some p) = includes parent_ids p

abbrev pub has_parent_in : List String → NoteRow → Bool
has_parent_in parent_ids r = is_in parent_ids r.parent_id

-- `locale` orders texts, and `search` is the full-text query of notesPgRepository.ts.
module _ {Db : Type 0} (d : NotesDatabase Db) (locale : String → String → Bool)
    (search : Db → String → String → List RankedId) where
  abbrev pub answer : Db → Written Db → Db × Saved
  answer db (written db' r) = (db', saved r)
  answer db not_found = (db, refused note_not_found)
  answer db failed = (db, refused server_fault)

  unfoldable pub update_note : Db → UpdateNote → String → String → Db × Saved
  update_note db note note_id user_id =
      answer db (d.update db note_id user_id (to_persistence_update note user_id))

  unfoldable pub create_note : Db → NoteBase → String → Db × Saved
  create_note db note user_id = answer db (d.create db (to_persistence_create note user_id))

  -- `assertOwnedNote`, as a test
  unfoldable pub assert_owned_note : Db → String → String → Bool
  assert_owned_note db id user_id = owns user_id (d.note db id)

  unfoldable pub get_all_notes : Db → String → List Note
  get_all_notes db user_id =
      select_all ("title" ∷ "parentId" ∷ "createdAt" ∷ "updatedAt" ∷ "userId" ∷ [])
        (d.find_many db (λ r. str_eq r.user_id user_id) none)

  unfoldable pub get_note_by_id : Db → String → List String → String → Option Note
  get_note_by_id db id selector user_id =
      select_some ("parentId" ∷ selector) (own_row user_id (d.note db id))

  unfoldable pub get_note_by_parent_id :
      Db → List String → List String → Option OrderBy → String → List Note
  get_note_by_parent_id db [] selector order_by user_id = []
  get_note_by_parent_id db (p ∷ ps) selector order_by user_id =
      select_all ("parentId" ∷ selector)
        (d.find_many db (λ r. has_parent_in (p ∷ ps) r && str_eq r.user_id user_id) order_by)

  -- A page by rank: the notes are read again, and a note that is gone since is left out.
  unfoldable pub ranked_notes :
      Db → String → List String → Rank → Option String → ℕ → List RankedId → List Note
  ranked_notes db user_id selector rank cursor limit results =
      let ids = ranked_page cursor limit (row_ids (sort (comes_before locale rank) results)) in
      select_all selector
        (in_order (d.find_many db (λ r. str_eq r.user_id user_id && includes ids r.id) none) ids)

  unfoldable pub ordered_page :
      Db → String → List String → NoteSearchOptions → List RankedId → Option Rank → List Note
  ordered_page db user_id selector options results (some rank) =
      ranked_notes db user_id selector rank options.cursor_id options.limit results
  ordered_page db user_id selector options results none = select_all selector (
      d.find_page db (λ r. str_eq r.user_id user_id && includes (row_ids results) r.id)
        options.order_by (cursor_of options.cursor_id) options.limit)

  unfoldable pub page_of : Db → String → List String → NoteSearchOptions → List RankedId → List Note
  page_of db user_id selector options [] = []
  page_of db user_id selector options (x ∷ xs) =
      ordered_page db user_id selector options (x ∷ xs) options.rank

  unfoldable pub get_note_by_text :
      Db → String → List String → String → NoteSearchOptions → List Note
  get_note_by_text db user_id selector q options =
      page_of db user_id selector options (search db user_id q)
