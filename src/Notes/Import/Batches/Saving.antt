-- ===== src/Notes/Import/Batches/Saving.antt =====
-- What the batches leave in the table.
use notes_md_app_be.Prelude.{
  ℕ, String, ◌≡◌, refl, sym, Bool, true, false, ◌||◌, Option, none, some, List, [], ◌∷◌, length,
  All, All-zip, arith, ltb, str_eq, inl, inr, ◌∙◌, if_either,
}
use notes_md_app_be.Notes.Import.Plan.{PlannedNote, has}
use notes_md_app_be.Notes.Import.Plan.Order.{IsParentsFirst}
use notes_md_app_be.Notes.Import.Plan.Pruning.{knows, has-cons}
use notes_md_app_be.Notes.Import.Batches.Chunks.{concat, concat-chunk}
use notes_md_app_be.Notes.Import.Batches.{
  NoteRow, NotesTable, inserted, row_ids, Inserted-cases, has_parent, ImportNotes, ImportPlan,
  ImportResult, too_large, note_not_found, nothing_to_import, import_notes, insert_batches, save,
  to_rows, chunk, imported, refused, dry_run, first_id, import_batch_size, max_import_total_bytes,
  sum, is_target_missing, parent_or, import_error,
}
use notes_md_app_be.Notes.Import.Batches.Rows.{
  RowsFirst, RowsFirst-ext, RowsFirst-IsNew, RowsFirst-HasParents, RowsFirst-append, has-append,
  has_parent-ext, All-split,
}

abbrev pub note_ids : List PlannedNote → List String
note_ids [] = []
note_ids (n ∷ ns) = n.id ∷ note_ids ns

parent_known :
    (k : String → Bool) (seen : List String) (o target : Option String)
    → knows seen o ≡ true
    → has_parent k target ≡ true
    → has_parent (λ p. k p || has seen p) (parent_or o target) ≡ true
parent_known k seen none target e h =
    has_parent-ext k (λ p. k p || has seen p) target (λ p x. ground arith) h
parent_known k seen (some p) target e h = ground arith

-- The rows of a plan, none of whose ids is in the table, under a target that is.
pub rows_first :
    (in_table : String → Bool) (user : String) (target : Option String) (base : ℕ)
    (seen : List String) (notes : List PlannedNote)
    → has_parent in_table target ≡ true
    → All (λ n. in_table n.id ≡ false) notes
    → IsParentsFirst seen notes
    → RowsFirst (λ p. in_table p || has seen p) (to_rows user target base notes)
rows_first in_table user target base seen [] ht a h = tt
rows_first in_table user target base seen (n ∷ ns) ht (f, a) (new, (k, h)) = (
  ground arith,
  (
    parent_known in_table seen n.parent_id target k ht,
    RowsFirst-ext (λ p. in_table p || has (n.id ∷ seen) p)
        (λ p. (in_table p || has seen p) || str_eq n.id p) (to_rows user target base ns)
        (λ p. ground (arith, has-cons n.id seen p))
        (rows_first in_table user target base (n.id ∷ seen) ns ht a h),
  ),
)

row_ids-to_rows :
    (user : String) (target : Option String) (base : ℕ) (notes : List PlannedNote) (i : String)
    → has (row_ids (to_rows user target base notes)) i ≡ has (note_ids notes) i
unfolding has
row_ids-to_rows user target base [] i = refl
row_ids-to_rows user target base (n ∷ ns) i = rw (row_ids-to_rows user target base ns i) refl

abbrev pub is_imported : ImportResult → Bool
is_imported (dry_run report) = false
is_imported (imported id report) = true
is_imported (refused e) = false

module _ {Db : Type 0} (t : NotesTable Db) where
  first_batch :
      (db : Db) (b : List NoteRow)
      → All (λ r. t.accepts db r ≡ true) b
      → RowsFirst (t.contains db) b
      → (db' : Db) × (t.create_many db b ≡ inserted db')
  first_batch db b a h =
      t.create_many-new db b a (RowsFirst-IsNew (t.contains db) (t.contains db) b (λ p x. x) h) (
        RowsFirst-HasParents (t.contains db) (λ p. t.contains db p || has (row_ids b) p) b h
          (λ p x. ground arith) (λ p x. ground arith))

  -- Batches whose rows stand behind their parents are all inserted, and nothing else is.
  pub inserts :
      (db : Db) (bs : List (List NoteRow))
      → All (λ r. t.accepts db r ≡ true) (concat bs)
      → RowsFirst (t.contains db) (concat bs)
      → (db' : Db) × (insert_batches t db bs ≡ inserted db')
  unfolding insert_batches
  inserts db [] a h = (db, refl)
  inserts db (b ∷ bs) a h =
      let (ab, abs) = All-split (λ r. t.accepts db r ≡ true) b (concat bs) a in
      let (hb, hbs) = RowsFirst-append (t.contains db) b (concat bs) h in
      let (db1, e) = first_batch db b ab hb in
      let (db2, e') =
        inserts db1 bs
          (All-zip {P = λ r. t.accepts db r ≡ true} {Q = λ r. t.accepts db r ≡ true}
            (λ r x y. t.accepts-create_many db b db1 r e ∙ x) (concat bs) abs abs)
          (RowsFirst-ext (λ p. t.contains db p || has (row_ids b) p) (t.contains db1) (concat bs)
            (λ p. sym (t.contains-create_many db b db1 p e)) hbs) in
      (db2, rw (e, insert_batches) e')

  contains-inserts :
      (db : Db) (bs : List (List NoteRow)) (db' : Db) (i : String)
      → insert_batches t db bs ≡ inserted db'
      → t.contains db' i ≡ (t.contains db i || has (row_ids (concat bs)) i)
  unfolding insert_batches has
  contains-inserts db [] db' i e = ground (arith, e)
  contains-inserts db (b ∷ bs) db' i e = elim (Inserted-cases (t.create_many db b)) [
    | inl (db1, f) ↦ ground (
      arith,
      f,
      e,
      contains-inserts db1 bs db' i,
      t.contains-create_many db b db1 i f,
      has-append b (concat bs) i,
    )
    | inr (err, f) ↦ ground (arith, f, e)
  ]

  -- What an import leaves behind, and what it answers.
  pub data IsOutcome (db : Db) (notes : List PlannedNote) : Db × ImportResult → Type 0 where
    nothing_written : (r : ImportResult) → is_imported r ≡ false → IsOutcome db notes (db, r)
    all_written :
        (db' : Db) (r : ImportResult)
        → is_imported r ≡ true
        → ((i : String) → t.contains db' i ≡ (t.contains db i || has (note_ids notes) i))
        → IsOutcome db notes (db', r)

  pub contains_rows :
      (db : Db) (user : String) (target : Option String) (now : ℕ) (notes : List PlannedNote)
      (db' : Db) (i : String)
      → insert_batches t db (chunk (to_rows user target now notes) import_batch_size) ≡ inserted db'
      → t.contains db' i ≡ (t.contains db i || has (note_ids notes) i)
  contains_rows db user target now notes db' i e =
      contains-inserts db (chunk (to_rows user target now notes) import_batch_size) db' i e
      ∙ rw
          (
            (concat-chunk (to_rows user target now notes) import_batch_size (omega arith)).0,
            row_ids-to_rows user target now notes i,
          )
          refl

  pub save-inserted :
      (db : Db) (bs : List (List NoteRow)) (db' : Db) (r : ImportResult)
      → insert_batches t db bs ≡ inserted db'
      → save t db bs r ≡ (db', r)
  unfolding save
  save-inserted db bs db' r e = rw (e, save) refl

  save-IsOutcome :
      (db : Db) (user : String) (target : Option String) (now : ℕ) (notes : List PlannedNote)
      (r : ImportResult)
      → is_imported r ≡ true
      → IsOutcome db notes (save t db (chunk (to_rows user target now notes) import_batch_size) r)
  unfolding save
  save-IsOutcome db user target now notes r h =
      elim (Inserted-cases
        (insert_batches t db (chunk (to_rows user target now notes) import_batch_size))) [
          | inl (db', e) ↦
              rw (e, save)
                (all_written db' r h (λ i. contains_rows db user target now notes db' i e))
          | inr (err, e) ↦ rw (e, save) (nothing_written (refused (import_error err)) refl)
        ]

  -- An import is all or nothing: either the database is as it was, and the answer is a report of a
  -- dry run or an error, or the notes of the table are the old ones and all notes of the plan.
  pub import_notes-IsOutcome :
      (db : Db) (dto : ImportNotes) (user : String) (now : ℕ) (plan : ImportPlan)
      → IsOutcome db plan.notes (import_notes t db dto user now (some plan))
  unfolding import_notes
  import_notes-IsOutcome db dto user now plan =
      if_either (IsOutcome db plan.notes) (ltb max_import_total_bytes (sum dto.file_bytes))
        (nothing_written (refused too_large) refl)
        (if_either (IsOutcome db plan.notes) (is_target_missing t db dto.target_parent_id user)
          (nothing_written (refused note_not_found) refl)
          (if_either (IsOutcome db plan.notes) dto.is_dry_run
            (nothing_written (dry_run plan.report) refl)
            (if_either (IsOutcome db plan.notes) (ltb (length plan.notes) 2)
              (nothing_written (refused nothing_to_import) refl)
              (save-IsOutcome db user dto.target_parent_id now plan.notes
                (imported (first_id plan.notes) plan.report) refl))))
