-- ===== src/Notes/Trees/Answers.antt =====
-- The loaded tree: no error, bounded, and of the user's notes only.
use notes_md_app_be.Prelude.{
  ℕ, zero, suc, String, ◌≡◌, refl, sym, ap, subst, Bool, true, Option, none, some, List, [], ◌∷◌,
  inl, inr, ◌&&◌, str_eq, eq_iff, arith, All, Bool-cases, some_eq, none-some, if◌then◌else◌,
  and_left, and_right,
}
use notes_md_app_be.Prelude.Map
use notes_md_app_be.Prelude.Map.{Map}
use notes_md_app_be.Core.Selectors.{includes}
use notes_md_app_be.Core.Tree.{Tree}
use notes_md_app_be.Notes.Database.{NoteRow, NotesDatabase}
use notes_md_app_be.Notes.Service.{
  Note, RankedId, select, select_all, get_note_by_parent_id, own_row, has_parent_in,
}
use notes_md_app_be.Notes.Trees.{
  Level, Loaded, load_below, load_levels, load_children_tree, children_of, GetNoteQuery,
  get_children_limit, get_children_order_by, build_root_children_selector, clamp_depth,
}
use notes_md_app_be.Notes.Trees.Counted.{is_there}
use notes_md_app_be.Notes.Trees.Loading.{IsLevel, IsAsked}
use notes_md_app_be.Notes.Trees.Levels.{
  single, parent-named, IsAnswerTree, IsAnswerTree-level, load_level-IsAnswerTree, single-IsTree,
}

pub own_row-some :
    (user : String) (found : Option NoteRow) (r : NoteRow)
    → own_row user found ≡ some r
    → (found ≡ some r) × (r.user_id ≡ user)
unfolding own_row
own_row-some user none r e = elim (none-some r e) [ ]
own_row-some user (some x) r e = elim (Bool-cases (str_eq x.user_id user)) [
  | inl same ↦
      let eq = some_eq x r (subst (λ b. (if b then some x else none) ≡ some r) same e) in
      (ap some eq, subst (λ y. y.user_id ≡ user) eq ((eq_iff x.user_id user).0 same))
  | inr other ↦ elim (none-some r (subst (λ b. (if b then some x else none) ≡ some r) other e)) [ ]
]

module _ {Db : Type 0} (d : NotesDatabase Db) (locale : String → String → Bool)
    (search : Db → String → String → List RankedId) where
  -- A note of the user.
  abbrev pub IsOwnId : Db → String → String → Type 0
  IsOwnId db user_id id = (r : NoteRow) × ((d.note db id ≡ some r) × (r.user_id ≡ user_id))

  rows-IsAsked :
      (limit : ℕ) (db : Db) (user : String) (fields ids : List String) (rows : List NoteRow)
      → All
          (λ r. (d.note db r.id ≡ some r) × ((has_parent_in ids r && str_eq r.user_id user) ≡ true))
          rows
      → All (IsAsked limit (IsOwnId db user) ids) (select_all ("parentId" ∷ fields) rows)
  unfolding select_all select includes
  rows-IsAsked limit db user fields ids [] h = tt
  rows-IsAsked limit db user fields ids (r ∷ rs) ((there, met), h) =
      let named = parent-named ids r.parent_id (and_left _ _ met) in
      (
        ((r, (there, (eq_iff r.user_id user).0 (and_right _ _ met))), named),
        rows-IsAsked limit db user fields ids rs h,
      )

  children_of-IsAsked :
      (limit : ℕ) (db : Db) (query : GetNoteQuery) (user : String) (ids : List String)
      → All (IsAsked limit (IsOwnId db user) ids) (children_of d locale search db query user ids)
  unfolding get_note_by_parent_id
  children_of-IsAsked limit db query user [] = tt
  children_of-IsAsked limit db query user (i ∷ is) =
      rows-IsAsked limit db user (build_root_children_selector query) (i ∷ is) _ (
        d.All-find_many db (λ r. has_parent_in (i ∷ is) r && str_eq r.user_id user)
          (get_children_order_by query.children_sort))

  load_below-IsAnswerTree :
      (db : Db) (query : GetNoteQuery) (user : String) (level : Level) (ids : List String)
      (deeper : Level → Loaded (Tree Note))
      → level.ids ≡ ids
      → IsLevel (get_children_limit query) (IsOwnId db user) [] level
      → ((next : Level)
          → IsLevel (get_children_limit query) (IsOwnId db user) [] next
          → IsAnswerTree (get_children_limit query) (IsOwnId db user) (deeper next))
      → IsAnswerTree
          (get_children_limit query)
          (IsOwnId db user)
          (load_below d locale search db query user level ids deeper)
  load_below-IsAnswerTree db query user level [] deeper e h k =
      IsAnswerTree-level (get_children_limit query) (IsOwnId db user) [] level h
  load_below-IsAnswerTree db query user level (i ∷ is) deeper e h k =
      load_level-IsAnswerTree (get_children_limit query) (IsOwnId db user) level
        (children_of d locale search db query user (i ∷ is)) deeper h
        (subst
          (λ ids.
            All (IsAsked (get_children_limit query) (IsOwnId db user) ids)
              (children_of d locale search db query user (i ∷ is)))
          (sym e) (children_of-IsAsked (get_children_limit query) db query user (i ∷ is)))
        k

  load_levels-IsAnswerTree :
      (db : Db) (query : GetNoteQuery) (user : String) (depth : ℕ) (level : Level)
      → IsLevel (get_children_limit query) (IsOwnId db user) [] level
      → IsAnswerTree
          (get_children_limit query)
          (IsOwnId db user)
          (load_levels d locale search db query user depth level)
  unfolding load_levels
  load_levels-IsAnswerTree db query user zero level h =
      IsAnswerTree-level (get_children_limit query) (IsOwnId db user) [] level h
  load_levels-IsAnswerTree db query user (suc depth) level h =
      load_below-IsAnswerTree db query user level level.ids
        (load_levels d locale search db query user depth) refl h
        (λ next. load_levels-IsAnswerTree db query user depth next)

  -- The children of a user's note, and theirs, are loaded without an error, however notes are
  -- linked: no parent is missing from the tree, no node has more children than the limit, and every
  -- node is a note of this user.
  pub load_children_tree-IsAnswerTree :
      (db : Db) (query : GetNoteQuery) (user : String) (note : Note)
      → IsOwnId db user note.id
      → IsAnswerTree
          (get_children_limit query)
          (IsOwnId db user)
          (load_children_tree d locale search db (single note) note.id query user)
  unfolding load_children_tree single Map.set Map.get
  load_children_tree-IsAnswerTree db query user note own =
      load_levels-IsAnswerTree db query user (clamp_depth query.depth) _ (
        single-IsTree note,
        ((omega arith, tt), ((λ id. omega arith), ((own, tt), (tt, (is_there [] note.id 0, tt))))),
      )
