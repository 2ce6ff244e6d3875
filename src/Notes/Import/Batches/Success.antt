-- ===== src/Notes/Import/Batches/Success.antt =====
-- A plan whose notes stand behind their parents can be written in batches.
use notes_md_app_be.Prelude.{
  ℕ, ◌≤◌, String, ◌≡◌, ◌≢◌, refl, sym, true, false, ◌||◌, Option, none, some, [], length, All,
  arith, ltb, eq_iff, subst,
}
use notes_md_app_be.Notes.Import.Plan.{has}
use notes_md_app_be.Notes.Import.Plan.Order.{has-nil, IsParentsFirst}
use notes_md_app_be.Notes.Import.Batches.Chunks.{concat-chunk}
use notes_md_app_be.Notes.Import.Batches.{
  NotesTable, has_parent, ImportNotes, ImportPlan, import_notes, to_rows, chunk, imported, first_id,
  import_batch_size, max_import_total_bytes, sum, is_target_missing,
}
use notes_md_app_be.Notes.Import.Batches.Saving.{
  note_ids, inserts, contains_rows, save-inserted, rows_first,
}
use notes_md_app_be.Notes.Import.Batches.Rows.{RowsFirst, RowsFirst-ext}

module _ {Db : Type 0} (t : NotesTable Db) where
  -- The target of the import, if there is one, is a note of the user.
  abbrev pub HasTarget : Db → String → Option String → Type 0
  HasTarget db user none = Unit
  HasTarget db user (some id) = (id ≢ "") × (t.owned db id user ≡ true)

  target_there :
      (db : Db) (user : String) (o : Option String)
      → HasTarget db user o
      → (is_target_missing t db o user ≡ false) × (has_parent (t.contains db) o ≡ true)
  target_there db user none h = (refl, refl)
  target_there db user (some id) (ne, own) =
      (ground (arith, eq_iff id ""), t.contains-owned db id user own)

  -- A request that is no dry run, with a plan of at least two new notes, each behind its parent, is
  -- imported under a target that the user owns, if the files are within the size limit and the database accepts the values of the
  -- rows: no batch fails on the foreign key of the parents.
  pub import_notes-imports :
      (db : Db) (dto : ImportNotes) (user : String) (now : ℕ) (plan : ImportPlan)
      → sum dto.file_bytes ≤ max_import_total_bytes
      → HasTarget db user dto.target_parent_id
      → dto.is_dry_run ≡ false
      → 2 ≤ length plan.notes
      → IsParentsFirst [] plan.notes
      → All (λ n. t.contains db n.id ≡ false) plan.notes
      → All (λ r. t.accepts db r ≡ true) (to_rows user dto.target_parent_id now plan.notes)
      → (db' : Db) × ((import_notes t db dto user now (some plan)
            ≡ (db', imported (first_id plan.notes) plan.report))
          × ((i : String) → t.contains db' i ≡ (t.contains db i || has (note_ids plan.notes) i)))
  unfolding import_notes
  import_notes-imports db dto user now plan size target dry two first new ok =
      let (missing, there) = target_there db user dto.target_parent_id target in
      let rows = to_rows user dto.target_parent_id now plan.notes in
      let same = (concat-chunk rows import_batch_size (omega arith)).0 in
      let (db', e) =
        inserts t db (chunk rows import_batch_size)
          (subst (All (λ r. t.accepts db r ≡ true)) (sym same) ok)
          (subst (RowsFirst (t.contains db)) (sym same) (
            RowsFirst-ext (λ p. t.contains db p || has [] p) (t.contains db) rows
              (λ p. ground (arith, has-nil p))
              (rows_first (t.contains db) user dto.target_parent_id now [] plan.notes there new
                first))) in
      let small : ltb max_import_total_bytes (sum dto.file_bytes) ≡ false = ground (arith, size) in
      let enough : ltb (length plan.notes) 2 ≡ false = ground (arith, two) in
      (
        db',
        (
          rw
              (
                small,
                missing,
                dry,
                enough,
                save-inserted t db (chunk rows import_batch_size) db'
                    (imported (first_id plan.notes) plan.report) e,
              )
              refl,
          λ i. contains_rows t db user dto.target_parent_id now plan.notes db' i e,
        ),
      )
