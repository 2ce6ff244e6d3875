-- ===== src/Notes/Import/Batches.antt =====
-- modules/notes/service/notesImport.service.ts: the checks of an import, and the rows that it writes
-- in batches. The plan is an argument. The table of notes is a parameter: whether an id is in it, an
-- owner's note, and `createMany`, which is one INSERT statement.
pub mod Chunks
pub mod Rows
pub mod Saving
pub mod Success
use notes_md_app_be.Prelude.{
  refl, ◌⊎◌, inl, inr, ℕ, zero, suc, ◌+◌, ◌-◌, ◌*◌, ◌/◌, String, Bool, true, false, ◌||◌, ◌&&◌, ◌≡◌,
  Option, none, some, List, [], ◌∷◌, ◌++◌, ltb, if◌then◌else◌, length, take, drop, str_eq, All,
}
use notes_md_app_be.Notes.Import.Plan.{PlannedNote, has}

abbrev pub import_batch_size : ℕ
import_batch_size = 500

abbrev pub max_import_total_bytes : ℕ
max_import_total_bytes = 15 * 1024 * 1024

pub record NoteRow : Type 0 where
  pub id : String
  pub user_id : String
  pub parent_id : Option String
  pub title : String
  pub content : String
  pub created_at : ℕ
  pub updated_at : ℕ

-- `items.slice(start, end)`
abbrev pub slice {ℓ} : {A : Type ℓ} → List A → ℕ → ℕ → List A
slice items start end = take (end - start) (drop start items)

unfoldable pub chunk_from {ℓ} : {A : Type ℓ} → List A → ℕ → ℕ → ℕ → List (List A)
chunk_from items size i zero = []
chunk_from items size i (suc n) =
    slice items (i * size) ((i + 1) * size) ∷ chunk_from items size (i + 1) n

-- `chunk`: as many slices as the length over the size, rounded up.
unfoldable pub chunk {ℓ} : {A : Type ℓ} → List A → ℕ → List (List A)
chunk items size = chunk_from items size 0 ((length items + size - 1) / size)

-- The codes of a failed INSERT that the service tells apart: P2003, P2000 and P2007, and the rest.
pub data DbError : Type 0 where
  foreign_key bad_value other : DbError

pub data Inserted (Db : Type 0) : Type 0 where
  inserted : Db → Inserted Db
  failed : DbError → Inserted Db

abbrev pub row_ids : List NoteRow → List String
row_ids [] = []
row_ids (r ∷ rs) = r.id ∷ row_ids rs

pub Inserted-cases :
    {Db : Type 0} (r : Inserted Db)
    → ((db : Db) × (r ≡ inserted db)) ⊎ ((e : DbError) × (r ≡ failed e))
Inserted-cases (inserted db) = inl (db, refl)
Inserted-cases (failed e) = inr (e, refl)

-- The ids of the statement are new and differ, and each parent is in the table or in the statement.
abbrev pub IsNew : (String → Bool) → List NoteRow → Type 0
IsNew in_table [] = Unit
IsNew in_table (r ∷ rs) =
    (in_table r.id ≡ false) × ((has (row_ids rs) r.id ≡ false) × IsNew in_table rs)

abbrev pub has_parent : (String → Bool) → Option String → Bool
has_parent known none = true
has_parent known (some p) = known p

abbrev pub HasParents : (String → Bool) → List NoteRow → Type 0
HasParents known [] = Unit
HasParents known (r ∷ rs) = (has_parent known r.parent_id ≡ true) × HasParents known rs

pub record NotesTable (Db : Type 0) : Type 0 where
  pub contains : Db → String → Bool
  pub owned : Db → String → String → Bool
  pub create_many : Db → List NoteRow → Inserted Db
  pub contains-owned :
      (db : Db) (id user_id : String) → owned db id user_id ≡ true → contains db id ≡ true
  -- The other constraints of a row: its user is there, and its values fit the columns.
  pub accepts : Db → NoteRow → Bool
  -- An INSERT of such rows with new ids whose parents are there, or inserted with them, succeeds.
  pub create_many-new :
      (db : Db) (rows : List NoteRow)
      → All (λ r. accepts db r ≡ true) rows
      → IsNew (contains db) rows
      → HasParents (λ p. contains db p || has (row_ids rows) p) rows
      → (db' : Db) × (create_many db rows ≡ inserted db')
  pub contains-create_many :
      (db : Db) (rows : List NoteRow) (db' : Db) (id : String)
      → create_many db rows ≡ inserted db'
      → contains db' id ≡ (contains db id || has (row_ids rows) id)
  pub accepts-create_many :
      (db : Db) (rows : List NoteRow) (db' : Db) (r : NoteRow)
      → create_many db rows ≡ inserted db'
      → accepts db' r ≡ accepts db r

-- The exceptions of the import.
pub data ImportError : Type 0 where
  too_large note_not_found invalid_plan nothing_to_import could_not_be_saved server_fault :
      ImportError

pub data SkipReason : Type 0 where
  not_markdown binary empty duplicate_path invalid_path hidden : SkipReason

pub record ImportReport : Type 0 where
  pub created : ℕ
  pub skipped : List (String × SkipReason)
  pub warnings : List (String × String × String)

pub record ImportPlan : Type 0 where
  pub notes : List PlannedNote
  pub report : ImportReport

pub data ImportResult : Type 0 where
  dry_run : ImportReport → ImportResult
  imported : Option String → ImportReport → ImportResult
  refused : ImportError → ImportResult

pub record ImportNotes : Type 0 where
  pub file_bytes : List ℕ
  pub target_parent_id : Option String
  pub is_dry_run : Bool

abbrev pub sum : List ℕ → ℕ
sum [] = 0
sum (n ∷ ns) = n + sum ns

-- `note.parentId ?? dto.targetParentId ?? null`
abbrev pub parent_or : Option String → Option String → Option String
parent_or none target = target
parent_or (some p) target = some p

abbrev pub to_row : String → Option String → ℕ → PlannedNote → NoteRow
to_row user_id target base note = record {
  id = note.id;
  user_id = user_id;
  parent_id = parent_or note.parent_id target;
  title = note.title;
  content = note.content;
  created_at = base + note.order;
  updated_at = base + note.order;
}

abbrev pub to_rows : String → Option String → ℕ → List PlannedNote → List NoteRow
to_rows user_id target base [] = []
to_rows user_id target base (n ∷ ns) = to_row user_id target base n ∷ to_rows user_id target base ns

abbrev pub import_error : DbError → ImportError
import_error foreign_key = note_not_found
import_error bad_value = could_not_be_saved
import_error other = server_fault

abbrev pub is_target_missing : {Db : Type 0} → NotesTable Db → Db → Option String → String → Bool
is_target_missing t db none user_id = false
is_target_missing t db (some id) user_id =
    if str_eq id "" then false else if t.owned db id user_id then false else true

abbrev pub first_id : List PlannedNote → Option String
first_id [] = none
first_id (n ∷ ns) = some n.id

module _ {Db : Type 0} (t : NotesTable Db) where
  -- The body of the transaction.
  unfoldable pub insert_batches : Db → List (List NoteRow) → Inserted Db
  insert_batches db [] = inserted db
  insert_batches db (b ∷ bs) = elim (t.create_many db b) [
    | inserted db' ↦ insert_batches db' bs
    | failed e ↦ failed e
  ]

  -- The transaction: when a batch fails, nothing of it stays.
  unfoldable pub save : Db → List (List NoteRow) → ImportResult → Db × ImportResult
  save db batches result = elim (insert_batches db batches) [
    | inserted db' ↦ (db', result)
    | failed e ↦ (db, refused (import_error e))
  ]

  -- `importNotes`; the plan is `none` when `planImport` refuses the files.
  unfoldable pub import_notes :
      Db → ImportNotes → String → ℕ → Option ImportPlan → Db × ImportResult
  import_notes db dto user_id now plan =
      if ltb max_import_total_bytes (sum dto.file_bytes)
      then (db, refused too_large)
      else if is_target_missing t db dto.target_parent_id user_id
      then (db, refused note_not_found)
      else elim plan [
        | none ↦ (db, refused invalid_plan)
        | some p ↦
            if dto.is_dry_run
            then (db, dry_run p.report)
            else if ltb (length p.notes) 2
            then (db, refused nothing_to_import)
            else save db
                (chunk (to_rows user_id dto.target_parent_id now p.notes) import_batch_size)
                (imported (first_id p.notes) p.report)
      ]
