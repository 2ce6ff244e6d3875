-- ===== src/Notes/Trees.antt =====
-- modules/notes/service/notesTree.service.ts, utils/notesToTree.ts, utils/note.utils.ts and the
-- lists of fields of consts: a note with its children, read level by level.
pub mod Counted
pub mod Loading
pub mod Families
pub mod Levels
pub mod Selection
pub mod Rooted
pub mod Answers
pub mod Shown
mod Tests
use notes_md_app_be.Prelude.{
  ℕ, zero, suc, ◌+◌, min, String, Bool, true, false, Option, none, some, List, [], ◌∷◌, ◌++◌,
  get_elem?, length, if◌then◌else◌, or_else, ◌>>=◌, not, ◌&&◌, str_eq,
}
use notes_md_app_be.Prelude.Map.{Map}
use notes_md_app_be.Core.Limiters.{allow}
use notes_md_app_be.Core.Selectors.{
  OrderBy, from_string_to_array, build_field_selector, build_order_by,
}
use notes_md_app_be.Core.Tree.{
  Tree, TreeNode, TreeError, Edited, edited, thrown, add_child, from_root,
}
use notes_md_app_be.Notes.Database.{NotesDatabase}
use notes_md_app_be.Notes.Service.{Note, RankedId, get_note_by_id, get_note_by_parent_id}

-- A depth: left out, a number from 0 on, a number below 0, or what is no number.
pub data Depth : Type 0 where
  no_depth negative not_a_number : Depth
  some_depth : ℕ → Depth

pub record GetNoteQuery : Type 0 where
  pub depth : Depth
  pub expand_parent : Bool
  pub fields : Option String
  pub children_fields : Option String
  pub children_limit : Option ℕ
  pub children_sort : Option String

abbrev pub max_depth : ℕ
max_depth = 10

abbrev pub default_children_limit : ℕ
default_children_limit = 50

abbrev pub default_root_fields : List String
default_root_fields = "id" ∷ "title" ∷ "content" ∷ "parentId" ∷ "createdAt" ∷ "updatedAt" ∷ []

abbrev pub default_children_fields : List String
default_children_fields = "id" ∷ "title" ∷ "parentId" ∷ "createdAt" ∷ "updatedAt" ∷ []

unfoldable pub clamp_depth : Depth → ℕ
clamp_depth no_depth = 0
clamp_depth negative = 0
clamp_depth not_a_number = 0
clamp_depth (some_depth d) = min d max_depth

-- `||` of two lists that may be missing, and a default where both are missing or the list is empty.
abbrev pub fields_or : List String → Option (List String) → List String
fields_or default none = default
fields_or default (some []) = default
fields_or default (some (f ∷ fs)) = f ∷ fs

abbrev pub or_list : Option (List String) → Option (List String) → Option (List String)
or_list none ys = ys
or_list (some xs) ys = some xs

unfoldable pub build_root_node_selector : GetNoteQuery → List String
build_root_node_selector query =
    build_field_selector (fields_or default_root_fields (from_string_to_array query.fields))

unfoldable pub build_root_children_selector : GetNoteQuery → List String
build_root_children_selector query = build_field_selector (
    fields_or default_children_fields
      (or_list (from_string_to_array query.children_fields) (from_string_to_array query.fields)))

abbrev pub get_children_limit : GetNoteQuery → ℕ
get_children_limit query = or_else query.children_limit default_children_limit

abbrev pub get_children_order_by : Option String → Option OrderBy
get_children_order_by sort = build_order_by sort "createdAt" none

-- `toTree`: the data of a node is its note, whose id and parent are read from the node.
abbrev pub to_tree : Note → TreeNode Note
to_tree note = record { id = note.id; parent_id = note.parent_id; datum = note; children = [] }

mutual
  pub data NoteWithFamily : Type 0 where
    family : String → Option String → Note → NoteList → NoteWithFamily

  pub data NoteList : Type 0 where
    no_notes : NoteList
    more : NoteWithFamily → NoteList → NoteList

unfoldable pub from_each : (ℕ → Option NoteWithFamily) → List ℕ → Option NoteList
from_each from [] = some no_notes
from_each from (c ∷ cs) = do x ← from c; xs ← from_each from cs; some (more x xs)

-- `fromTree`, with a bound on how deep its recursion goes.
unfoldable pub from_tree : ℕ → List (TreeNode Note) → ℕ → Option NoteWithFamily
from_tree zero nodes at = none
from_tree (suc fuel) nodes at = do
  n ← get_elem? nodes at
  children ← from_each (from_tree fuel nodes) n.children
  some (family n.id n.parent_id n.datum children)

-- The tree, the limiter, and the ids whose children come next.
pub record Level : Type 0 where
  pub tree : Tree Note
  pub counters : Map ℕ
  pub ids : List String

pub data Loaded (A : Type 0) : Type 0 where
  loaded : A → Loaded A
  load_failed : TreeError → Loaded A

abbrev pub pushed : Level → Map ℕ → String → Edited Note → Loaded Level
pushed level counters id (thrown e) = load_failed e
pushed level counters id (edited tree) =
    loaded (record { tree = tree; counters = counters; ids = level.ids ++ (id ∷ []) })

-- One note of a level: left out when its parent has its number of children, or no parent is named.
abbrev pub add_note : Level → Note → Map ℕ × Bool → Option String → Loaded Level
add_note level note (counters, false) parent = loaded (record level { counters = counters })
add_note level note (counters, true) none = loaded (record level { counters = counters })
add_note level note (counters, true) (some parent_id) =
    pushed level counters note.id (add_child level.tree parent_id note note.id)

unfoldable pub load_note : ℕ → Level → Note → Loaded Level
load_note limit level note =
    add_note level note (allow limit level.counters note.parent_id) note.parent_id

abbrev pub after : {A B : Type 0} → Loaded A → (A → Loaded B) → Loaded B
after (loaded a) f = f a
after (load_failed e) f = load_failed e

unfoldable pub load_notes : ℕ → Level → List Note → Loaded Level
load_notes limit level [] = loaded level
load_notes limit level (note ∷ notes) =
    after (load_note limit level note) (λ next. load_notes limit next notes)

-- The notes of a level that has any, without the ids that they stand below.
abbrev pub load_level : ℕ → Level → List Note → (Level → Loaded (Tree Note)) → Loaded (Tree Note)
load_level limit level [] deeper = loaded level.tree
load_level limit level (note ∷ notes) deeper =
    after (load_notes limit (record level { ids = [] }) (note ∷ notes)) deeper

-- The answer of `getNoteWithFamily`: null, an error, or the note, with its parent if asked for.
pub data Answer : Type 0 where
  no_note no_answer : Answer
  answered : NoteWithFamily → Option Note → Answer

abbrev pub answer_family : Option Note → Option NoteWithFamily → Answer
answer_family parent none = no_answer
answer_family parent (some note) = answered note parent

abbrev pub answer_tree : Option Note → Loaded (Tree Note) → Answer
answer_tree parent (load_failed e) = no_answer
answer_tree parent (loaded t) = answer_family parent (from_tree (length t.nodes) t.nodes t.root)

-- `locale` and `search` as in the notes service.
module _ {Db : Type 0} (d : NotesDatabase Db) (locale : String → String → Bool)
    (search : Db → String → String → List RankedId) where
  abbrev pub children_of : Db → GetNoteQuery → String → List String → List Note
  children_of db query user_id ids =
      get_note_by_parent_id d locale search db ids (build_root_children_selector query)
        (get_children_order_by query.children_sort) user_id

  abbrev pub load_below :
      Db
      → GetNoteQuery
      → String
      → Level
      → List String
      → (Level → Loaded (Tree Note))
      → Loaded (Tree Note)
  load_below db query user_id level [] deeper = loaded level.tree
  load_below db query user_id level (id ∷ ids) deeper =
      load_level (get_children_limit query) level (children_of db query user_id (id ∷ ids)) deeper

  -- So many levels, while there are notes.
  unfoldable pub load_levels : Db → GetNoteQuery → String → ℕ → Level → Loaded (Tree Note)
  load_levels db query user_id zero level = loaded level.tree
  load_levels db query user_id (suc depth) level =
      load_below db query user_id level level.ids (load_levels db query user_id depth)

  unfoldable pub load_children_tree :
      Db → Tree Note → String → GetNoteQuery → String → Loaded (Tree Note)
  load_children_tree db tree root_id query user_id =
      load_levels db query user_id (clamp_depth query.depth)
        (record { tree = tree; counters = []; ids = root_id ∷ [] })

  abbrev pub parent_note : Db → GetNoteQuery → String → Option String → Option Note
  parent_note db query user_id none = none
  parent_note db query user_id (some parent_id) =
      if query.expand_parent && not (str_eq parent_id "")
      then get_note_by_id d locale search db parent_id (build_root_node_selector query) user_id
      else none

  abbrev pub answer_start : Db → GetNoteQuery → String → Note → Option (Tree Note) → Answer
  answer_start db query user_id note none = no_answer
  answer_start db query user_id note (some tree) =
      answer_tree (parent_note db query user_id note.parent_id)
        (load_children_tree db tree note.id query user_id)

  abbrev pub answer_root : Db → GetNoteQuery → String → Option Note → Answer
  answer_root db query user_id none = no_note
  answer_root db query user_id (some note) =
      answer_start db query user_id note (from_root (to_tree note ∷ []) 0)

  unfoldable pub get_note_with_family : Db → String → GetNoteQuery → String → Answer
  get_note_with_family db id query user_id =
      answer_root db query user_id
        (get_note_by_id d locale search db id (build_root_node_selector query) user_id)
