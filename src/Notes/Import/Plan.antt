-- ===== src/Notes/Import/Plan.antt =====
-- modules/notes/import/planImport.ts from the drafts of the notes on: which notes of the tree are
-- created, and in which order. The tree node, its title and its content, which the source keeps in
-- three arrays, are one record.
pub mod Pruning
pub mod Rule
pub mod Order
use notes_md_app_be.Prelude.{
  ℕ, ◌+◌, String, Bool, true, false, not, ◌||◌, Option, none, some, List, [], ◌∷◌, ◌++◌, ltb,
  if◌then◌else◌, or_else, keep, length, str_eq,
}
use notes_md_app_be.Prelude.Map
use notes_md_app_be.Prelude.Map.{Map}

pub data TreeNodeKind : Type 0 where
  root folder file : TreeNodeKind

pub record TreeNode : Type 0 where
  pub id : String
  pub parent_id : Option String
  pub kind : TreeNodeKind
  pub segments : List String
  pub file_index : Option ℕ

pub record Draft : Type 0 where
  pub node : TreeNode
  pub title : String
  pub content : String
  pub is_empty : Bool

pub record PlannedNote : Type 0 where
  pub id : String
  pub parent_id : Option String
  pub title : String
  pub content : String
  pub order : ℕ

abbrev pub is_root : TreeNodeKind → Bool
is_root root = true
is_root folder = false
is_root file = false

-- `set.has(id)`
unfoldable pub has : List String → String → Bool
has [] id = false
has (x ∷ xs) id = if str_eq x id then true else has xs id

-- The variables of the loop; `skipped` holds the files that are reported as empty.
pub record Sweep : Type 0 where
  pub removed : List String
  pub child_count : Map ℕ
  pub skipped : List ℕ

unfoldable pub keeps : List String → Map ℕ → Draft → Bool
keeps linked_ids child_count d =
    is_root d.node.kind
    || (not d.is_empty
        || (has linked_ids d.node.id || ltb 0 (or_else (Map.get child_count d.node.id) 0)))

-- One child more for the parent, if there is one.
unfoldable pub count_child : Map ℕ → Option String → Map ℕ
count_child child_count none = child_count
count_child child_count (some p) =
    if str_eq p ""
    then child_count
    else Map.set child_count p (or_else (Map.get child_count p) 0 + 1)

abbrev pub report_empty : List ℕ → Option ℕ → List ℕ
report_empty skipped none = skipped
report_empty skipped (some i) = skipped ++ i ∷ []

unfoldable pub visit : List String → Sweep → Draft → Sweep
visit linked_ids s d =
    if keeps linked_ids s.child_count d
    then record s { child_count = count_child s.child_count d.node.parent_id }
    else record s {
      removed = d.node.id ∷ s.removed;
      skipped = report_empty s.skipped d.node.file_index;
    }

-- The loop from the last node to the first.
unfoldable pub sweep : List String → List Draft → Sweep
sweep linked_ids [] = record { removed = []; child_count = []; skipped = [] }
sweep linked_ids (d ∷ ds) = visit linked_ids (sweep linked_ids ds) d

unfoldable pub numbered : ℕ → List Draft → List PlannedNote
numbered n [] = []
numbered n (d ∷ ds) =
    record {
      id = d.node.id;
      parent_id = d.node.parent_id;
      title = d.title;
      content = d.content;
      order = n;
    }
    ∷ numbered (n + 1) ds

unfoldable pub without : List String → List Draft → List Draft
without removed [] = []
without removed (d ∷ ds) =
    let rest = without removed ds in if has removed d.node.id then rest else d ∷ rest

unfoldable pub kept : List String → List Draft → List Draft
kept linked_ids ds = without (sweep linked_ids ds).removed ds

unfoldable pub plan_notes : List String → List Draft → List PlannedNote
plan_notes linked_ids ds = numbered 0 (kept linked_ids ds)
