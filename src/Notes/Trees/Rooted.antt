-- ===== src/Notes/Trees/Rooted.antt =====
-- The note that was asked for stays at the root of the tree.
use notes_md_app_be.Prelude.{
  ℕ, zero, suc, String, ◌≡◌, refl, subst, Bool, true, false, Option, none, some, List, [], ◌∷◌,
  ◌++◌, get_elem?, some_eq,
}
use notes_md_app_be.Prelude.Map
use notes_md_app_be.Prelude.Map.{Map}
use notes_md_app_be.Core.Limiters.{allow}
use notes_md_app_be.Core.Tree.{
  Tree, TreeNode, Edited, edited, thrown, push_child, add_child, attach_to, cell_at, with_address,
  require,
}
use notes_md_app_be.Notes.Database.{NotesDatabase}
use notes_md_app_be.Notes.Service.{Note, RankedId}
use notes_md_app_be.Notes.Trees.{
  Level, Loaded, loaded, load_failed, pushed, add_note, load_note, after, load_notes, load_level,
  load_below, load_levels, load_children_tree, children_of, GetNoteQuery, get_children_limit,
  clamp_depth,
}
use notes_md_app_be.Notes.Trees.Levels.{single}

module _ (note : Note) where
  abbrev pub IsOfNote : Option (TreeNode Note) → Type 0
  IsOfNote none = ⊥
  IsOfNote (some n) = (n.id ≡ note.id) × (n.parent_id ≡ note.parent_id) × (n.datum ≡ note)

  -- The root of the tree is the node of the note.
  abbrev pub IsRooted : Tree Note → Type 0
  IsRooted t = IsOfNote (get_elem? t.nodes t.root)

  IsOfNote-append :
      (xs ys : List (TreeNode Note)) (i : ℕ)
      → IsOfNote (get_elem? xs i)
      → IsOfNote (get_elem? (xs ++ ys) i)
  IsOfNote-append [] ys i h = elim (h) [ ]
  IsOfNote-append (x ∷ xs) ys zero h = h
  IsOfNote-append (x ∷ xs) ys (suc i) h = IsOfNote-append xs ys i h

  IsOfNote-push :
      (nodes : List (TreeNode Note)) (at : ℕ) (n : TreeNode Note) (c root : ℕ)
      → get_elem? nodes at ≡ some n
      → IsOfNote (get_elem? nodes root)
      → IsOfNote (get_elem? (push_child nodes at n c) root)
  IsOfNote-push [] at n c root e h = h
  IsOfNote-push (m ∷ ms) zero n c zero e h =
      subst (λ x. (x.id ≡ note.id) × (x.parent_id ≡ note.parent_id) × (x.datum ≡ note))
        (some_eq m n e) h
  IsOfNote-push (m ∷ ms) zero n c (suc root) e h = h
  IsOfNote-push (m ∷ ms) (suc at) n c zero e h = h
  IsOfNote-push (m ∷ ms) (suc at) n c (suc root) e h = IsOfNote-push ms at n c root e h

  abbrev IsRootedEdit : Edited Note → Type 0
  IsRootedEdit (thrown e) = Unit
  IsRootedEdit (edited t) = IsRooted t

  attach_cell :
      (t : Tree Note) (at : ℕ) (cell : Option (TreeNode Note)) (parent id : String) (child : Note)
      → get_elem? t.nodes at ≡ cell
      → IsRooted t
      → IsRootedEdit (attach_to t (with_address at cell) parent id child)
  attach_cell t at none parent id child e h = tt
  attach_cell t at (some n) parent id child e h =
      IsOfNote-append _ _ t.root (IsOfNote-push t.nodes at n _ t.root e h)

  attach_found :
      (t : Tree Note) (found : Option ℕ) (parent id : String) (child : Note)
      → IsRooted t
      → IsRootedEdit (attach_to t (cell_at t.nodes found) parent id child)
  attach_found t none parent id child h = tt
  attach_found t (some at) parent id child h =
      attach_cell t at (get_elem? t.nodes at) parent id child refl h

  add_child-IsRooted :
      (t : Tree Note) (parent id : String) (child : Note)
      → IsRooted t
      → IsRootedEdit (add_child t parent child id)
  unfolding add_child require
  add_child-IsRooted t parent id child h = attach_found t (Map.get t.by_id parent) parent id child h

  abbrev IsRootedLevel : Loaded Level → Type 0
  IsRootedLevel (load_failed e) = Unit
  IsRootedLevel (loaded level) = IsRooted level.tree

  abbrev pub IsRootedTree : Loaded (Tree Note) → Type 0
  IsRootedTree (load_failed e) = Unit
  IsRootedTree (loaded t) = IsRooted t

  pushed-IsRooted :
      (level : Level) (counters : Map ℕ) (id : String) (e : Edited Note)
      → IsRootedEdit e
      → IsRootedLevel (pushed level counters id e)
  pushed-IsRooted level counters id (thrown e) h = tt
  pushed-IsRooted level counters id (edited t) h = h

  add_note-IsRooted :
      (level : Level) (child : Note) (answer : Map ℕ × Bool) (parent : Option String)
      → IsRooted level.tree
      → IsRootedLevel (add_note level child answer parent)
  add_note-IsRooted level child (counters, false) parent h = h
  add_note-IsRooted level child (counters, true) none h = h
  add_note-IsRooted level child (counters, true) (some parent) h =
      pushed-IsRooted level counters child.id (add_child level.tree parent child child.id)
        (add_child-IsRooted level.tree parent child.id child h)

  after-IsRooted :
      (r : Loaded Level) (f : Level → Loaded Level)
      → IsRootedLevel r
      → ((level : Level) → IsRooted level.tree → IsRootedLevel (f level))
      → IsRootedLevel (after r f)
  after-IsRooted (load_failed e) f h k = tt
  after-IsRooted (loaded level) f h k = k level h

  load_notes-IsRooted :
      (limit : ℕ) (level : Level) (notes : List Note)
      → IsRooted level.tree
      → IsRootedLevel (load_notes limit level notes)
  unfolding load_notes load_note
  load_notes-IsRooted limit level [] h = h
  load_notes-IsRooted limit level (n ∷ ns) h =
      after-IsRooted (load_note limit level n) (λ next. load_notes limit next ns)
        (add_note-IsRooted level n (allow limit level.counters n.parent_id) n.parent_id h)
        (λ next k. load_notes-IsRooted limit next ns k)

  after_level-IsRooted :
      (r : Loaded Level) (deeper : Level → Loaded (Tree Note))
      → IsRootedLevel r
      → ((level : Level) → IsRooted level.tree → IsRootedTree (deeper level))
      → IsRootedTree (after r deeper)
  after_level-IsRooted (load_failed e) deeper h k = tt
  after_level-IsRooted (loaded level) deeper h k = k level h

  load_level-IsRooted :
      (limit : ℕ) (level : Level) (notes : List Note) (deeper : Level → Loaded (Tree Note))
      → IsRooted level.tree
      → ((next : Level) → IsRooted next.tree → IsRootedTree (deeper next))
      → IsRootedTree (load_level limit level notes deeper)
  load_level-IsRooted limit level [] deeper h k = h
  load_level-IsRooted limit level (n ∷ ns) deeper h k =
      after_level-IsRooted (load_notes limit (record level { ids = [] }) (n ∷ ns)) deeper
        (load_notes-IsRooted limit (record level { ids = [] }) (n ∷ ns) h) k

module _ {Db : Type 0} (d : NotesDatabase Db) (locale : String → String → Bool)
    (search : Db → String → String → List RankedId) where
  load_below-IsRooted :
      (note : Note) (db : Db) (query : GetNoteQuery) (user : String) (level : Level)
      (ids : List String) (deeper : Level → Loaded (Tree Note))
      → IsRooted note level.tree
      → ((next : Level) → IsRooted note next.tree → IsRootedTree note (deeper next))
      → IsRootedTree note (load_below d locale search db query user level ids deeper)
  load_below-IsRooted note db query user level [] deeper h k = h
  load_below-IsRooted note db query user level (i ∷ is) deeper h k =
      load_level-IsRooted note (get_children_limit query) level
        (children_of d locale search db query user (i ∷ is)) deeper h k

  load_levels-IsRooted :
      (note : Note) (db : Db) (query : GetNoteQuery) (user : String) (depth : ℕ) (level : Level)
      → IsRooted note level.tree
      → IsRootedTree note (load_levels d locale search db query user depth level)
  unfolding load_levels
  load_levels-IsRooted note db query user zero level h = h
  load_levels-IsRooted note db query user (suc depth) level h =
      load_below-IsRooted note db query user level level.ids
        (load_levels d locale search db query user depth) h
        (λ next. load_levels-IsRooted note db query user depth next)

  pub load_children_tree-IsRooted :
      (note : Note) (db : Db) (query : GetNoteQuery) (user : String)
      → IsRootedTree note (load_children_tree d locale search db (single note) note.id query user)
  unfolding load_children_tree single
  load_children_tree-IsRooted note db query user =
      load_levels-IsRooted note db query user (clamp_depth query.depth) _ (refl, refl, refl)
