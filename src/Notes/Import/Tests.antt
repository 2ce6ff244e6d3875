-- ===== src/Notes/Import/Tests.antt =====
-- The import at concrete inputs.
use notes_md_app_be.Prelude.{
  ℕ, String, ◌≡◌, refl, Bool, true, false, ◌||◌, Option, none, some, List, [], ◌∷◌, ◌++◌,
  if◌then◌else◌, arith, All, str_eq, ◌≢◌, eq_iff,
}
use notes_md_app_be.Text.{Text, trim_start, trim_end, any}
use notes_md_app_be.Notes.Import.Paths.{
  normalize_import_path, check_path, check_segments, slashes, split, cons_first, some_segment,
  accepted, is_importable_path, is_extension,
}
use notes_md_app_be.Notes.Import.Paths.Safety.{IsSafe, join, normalize_import_path-IsSafe}
use notes_md_app_be.Notes.Import.Plan.{Draft, root, folder, has, kept, plan_notes, PlannedNote}
use notes_md_app_be.Notes.Import.Plan.Pruning.{IsPreorder}
use notes_md_app_be.Notes.Import.Plan.Rule.{kept-rule, rule, is_kept}
use notes_md_app_be.Notes.Import.Plan.Order.{plan_notes-IsParentsFirst, IsParentsFirst, HasOrders}
use notes_md_app_be.Notes.Import.Batches.{
  NoteRow, NotesTable, Inserted, inserted, failed, foreign_key, row_ids, HasParents, has_parent,
  ImportNotes, ImportPlan, import_notes, imported,
}
use notes_md_app_be.Notes.Import.Batches.Saving.{import_notes-IsOutcome, IsOutcome, note_ids}
use notes_md_app_be.Notes.Import.Batches.Success.{import_notes-imports}

-- A root with an empty folder, and a folder with a note.
abbrev draft : String → Option String → Bool → Draft
draft id parent is_empty = record {
  node = record {
    id = id;
    parent_id = parent;
    kind = if str_eq id "r" then root else folder;
    segments = [];
    file_index = none;
  };
  title = id;
  content = "";
  is_empty = is_empty;
}

abbrev drafts : List Draft
drafts =
    draft "r" none true
    ∷ draft "a" (some "r") true
    ∷ draft "b" (some "r") true
    ∷ draft "c" (some "b") false
    ∷ []

not_empty : (x : String) → str_eq x "" ≡ false → x ≢ ""
not_empty x e h = ground (arith, eq_iff x "", e, h)

drafts-IsPreorder : IsPreorder [] drafts
unfolding has
drafts-IsPreorder = (
  not_empty "r" refl,
  (
    refl,
    (
      refl,
      (
        not_empty "a" refl,
        (
          refl,
          (refl, (not_empty "b" refl, (refl, (refl, (not_empty "c" refl, (refl, (refl, tt))))))),
        ),
      ),
    ),
  ),
)

kept-rule_example : All (λ d. is_kept [] drafts d ≡ rule [] (kept [] drafts) d) drafts
kept-rule_example = kept-rule [] drafts drafts-IsPreorder

plan_notes-IsParentsFirst_example :
    IsParentsFirst [] (plan_notes [] drafts) × HasOrders 0 (plan_notes [] drafts)
plan_notes-IsParentsFirst_example = plan_notes-IsParentsFirst [] drafts drafts-IsPreorder

abbrev three : List ℕ
three = 1 ∷ 2 ∷ 3 ∷ []

-- A table that only knows the ids of its notes, all of one user.
abbrev known_parents : (String → Bool) → List NoteRow → Bool
known_parents k [] = true
known_parents k (r ∷ rs) =
    let rest = known_parents k rs in if has_parent k r.parent_id then rest else false

abbrev create_many : List String → List NoteRow → Inserted (List String)
create_many db rows =
    if known_parents (λ p. has db p || has (row_ids rows) p) rows
    then inserted (row_ids rows ++ db)
    else failed foreign_key

known : (k : String → Bool) (rows : List NoteRow) → HasParents k rows → known_parents k rows ≡ true
known k [] h = refl
known k (r ∷ rs) (p, h) = rw p (known k rs h)

has-append : (xs ys : List String) (i : String) → has (xs ++ ys) i ≡ (has ys i || has xs i)
unfolding has
has-append [] ys i = ground arith
has-append (x ∷ xs) ys i = ground (arith, has-append xs ys i)

contains_created :
    (db : List String) (rows : List NoteRow) (db' : List String) (id : String)
    → create_many db rows ≡ inserted db'
    → has db' id ≡ (has db id || has (row_ids rows) id)
contains_created db rows db' id e = ground (arith, e, has-append (row_ids rows) db id)

abbrev table : NotesTable (List String)
table = record {
  contains = has;
  owned = λ db id user. has db id;
  create_many = create_many;
  contains-owned = λ db id user e. e;
  accepts = λ db row. true;
  create_many-new = λ db rows a n h.
      (row_ids rows ++ db, rw (known (λ p. has db p || has (row_ids rows) p) rows h) refl);
  contains-create_many = contains_created;
  accepts-create_many = λ db rows db' r e. refl;
}

abbrev dto : ImportNotes
dto = record { file_bytes = 10 ∷ 20 ∷ []; target_parent_id = some "t"; is_dry_run = false }

abbrev planned : String → Option String → ℕ → PlannedNote
planned id parent order = record {
  id = id;
  parent_id = parent;
  title = id;
  content = "";
  order = order;
}

abbrev plan : ImportPlan
plan = record {
  notes = planned "r" none 0 ∷ planned "b" (some "r") 1 ∷ planned "c" (some "b") 2 ∷ [];
  report = record { created = 3; skipped = []; warnings = [] };
}

import_notes-IsOutcome_example :
    IsOutcome table ("t" ∷ []) plan.notes (import_notes table ("t" ∷ []) dto "u" 1000 (some plan))
import_notes-IsOutcome_example = import_notes-IsOutcome table ("t" ∷ []) dto "u" 1000 plan

import_notes-imports_example :
    (db' : List String) × ((import_notes table ("t" ∷ []) dto "u" 1000 (some plan)
        ≡ (db', imported (some "r") plan.report))
      × ((i : String) → has db' i ≡ (has ("t" ∷ []) i || has (note_ids plan.notes) i)))
unfolding has
import_notes-imports_example =
    import_notes-imports table ("t" ∷ []) dto "u" 1000 plan (omega arith) (not_empty "t" refl, refl)
      refl (omega arith) (refl, (refl, (refl, (refl, (refl, (refl, tt))))))
      (refl, (refl, (refl, tt))) (refl, (refl, (refl, tt)))

-- "a\b.md"
abbrev windows_path : Text
windows_path = 97 ∷ 92 ∷ 98 ∷ 46 ∷ 109 ∷ 100 ∷ []

abbrev windows_segments : List Text
windows_segments = (97 ∷ []) ∷ (98 ∷ 46 ∷ 109 ∷ 100 ∷ []) ∷ []

windows_path-accepted : normalize_import_path (λ t. t) windows_path ≡ accepted windows_segments
unfolding normalize_import_path check_path check_segments slashes split cons_first any some_segment
    trim_start trim_end
windows_path-accepted = refl

windows_path-importable : is_importable_path windows_path ≡ true
unfolding is_importable_path is_extension some_segment
windows_path-importable = refl

normalize_import_path-IsSafe_example :
    All IsSafe windows_segments × (join windows_segments ≡ slashes windows_path)
normalize_import_path-IsSafe_example =
    normalize_import_path-IsSafe (λ t. t) windows_path windows_segments windows_path-accepted
