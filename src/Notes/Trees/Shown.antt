-- ===== src/Notes/Trees/Shown.antt =====
-- What the answer of `getNoteWithFamily` shows.
use notes_md_app_be.Prelude.{
  ℕ, String, ◌≡◌, Bool, true, false, refl, str_eq, Bool-cases, inl, inr, if◌then◌else◌, sym, ap,
  subst, ◌∙◌, Option, none, some, List, ◌∷◌, length, arith,
}
use notes_md_app_be.Core.Selectors.{includes}
use notes_md_app_be.Core.Tree.{Tree}
use notes_md_app_be.Notes.Database.{NoteRow, NotesDatabase}
use notes_md_app_be.Notes.Service.{Note, RankedId, select, select_some, own_row, get_note_by_id}
use notes_md_app_be.Notes.Trees.{
  Loaded, loaded, load_failed, load_children_tree, GetNoteQuery, get_children_limit,
  build_root_node_selector, NoteWithFamily, family, Answer, no_note, answered, answer_family,
  answer_tree, answer_start, answer_root, get_note_with_family, parent_note,
}
use notes_md_app_be.Notes.Trees.Families.{from_tree-some, IsFamilyOf, from_tree-IsFamilyOf}
use notes_md_app_be.Notes.Trees.Levels.{single, from_root-single, IsAnswerTree}
use notes_md_app_be.Notes.Trees.Rooted.{
  IsOfNote, IsRooted, IsRootedTree, load_children_tree-IsRooted,
}
use notes_md_app_be.Notes.Trees.Answers.{IsOwnId, own_row-some, load_children_tree-IsAnswerTree}

-- The note itself, without its children.
abbrev pub note_of : NoteWithFamily → Note
note_of (family id parent_id note children) = note

note_of-root :
    (note : Note) (t : Tree Note) (x : NoteWithFamily)
    → IsRooted note t
    → IsFamilyOf t.nodes x t.root
    → note_of x ≡ note
unfolding IsFamilyOf
note_of-root note t (family id p shown cs) h (n, cell, i, q, same, below) =
    let (i', q', same') = subst (λ c. IsOfNote note c) cell h in same ∙ same'

-- The answer is the loaded tree, as it is, from its root on.
abbrev pub IsShown : Note → NoteWithFamily → Loaded (Tree Note) → Type 0
IsShown note x (load_failed e) = ⊥
IsShown note x (loaded t) = (note_of x ≡ note) × IsFamilyOf t.nodes x t.root

answer_tree-IsShown :
    (limit : ℕ) (P : String → Type 0) (note : Note) (parent : Option Note) (t : Loaded (Tree Note))
    → IsAnswerTree limit P t
    → IsRootedTree note t
    → (x : NoteWithFamily) × IsShown note x t × (answer_tree parent t ≡ answered x parent)
answer_tree-IsShown limit P note parent (load_failed e) h k = elim (h) [ ]
answer_tree-IsShown limit P note parent (loaded t) ((s, (inside, found)), h) k =
    let (x, e) = from_tree-some (length t.nodes) t.nodes t.root s inside (omega arith) in
    let shown = from_tree-IsFamilyOf (length t.nodes) t.nodes t.root x e in
    (x, (note_of-root note t x k shown, shown), ap (answer_family parent) e)

module _ {Db : Type 0} (d : NotesDatabase Db) (locale : String → String → Bool)
    (search : Db → String → String → List RankedId) where
  -- The columns of a row that the query asks for.
  abbrev pub asked : GetNoteQuery → NoteRow → Note
  asked query r = select ("parentId" ∷ build_root_node_selector query) r

  -- The tree of the children of a row, level by level.
  abbrev pub tree_below : Db → GetNoteQuery → String → NoteRow → Loaded (Tree Note)
  tree_below db query user r =
      load_children_tree d locale search db (single (asked query r)) r.id query user

  -- The user's note that stands above a row, if it is asked for.
  abbrev pub parent_of : Db → GetNoteQuery → String → Bool → Option String → Option Note
  parent_of db query user false parent_id = none
  parent_of db query user true none = none
  parent_of db query user true (some id) =
      if str_eq id ""
      then none
      else select_some ("parentId" ∷ build_root_node_selector query) (own_row user (d.note db id))

  parent_of-parent_note :
      (db : Db) (query : GetNoteQuery) (user : String) (parent_id : Option String)
      → parent_note d locale search db query user parent_id
        ≡ parent_of db query user query.expand_parent parent_id
  unfolding get_note_by_id
  parent_of-parent_note db query user none = elim (Bool-cases query.expand_parent) [
    | inl asks ↦ simp asks
    | inr skips ↦ simp skips
  ]
  parent_of-parent_note db query user (some id) = elim (Bool-cases query.expand_parent) [
    | inl asks ↦
        simp asks
          (elim (Bool-cases (str_eq id "")) [ inl empty ↦ simp empty | inr named ↦ simp named ])
    | inr skips ↦ simp skips
  ]

  -- No answer for no row; else the row and the tree of its children, and its parent if asked for.
  abbrev pub Shows : Db → GetNoteQuery → String → Option NoteRow → Answer → Type 0
  Shows db query user none answer = answer ≡ no_note
  Shows db query user (some r) answer =
      (x : NoteWithFamily) × IsShown (asked query r) x (tree_below db query user r)
      × (answer ≡ answered x (parent_of db query user query.expand_parent r.parent_id))

  answer_root-Shows :
      (db : Db) (id : String) (query : GetNoteQuery) (user : String) (found : Option NoteRow)
      → own_row user (d.note db id) ≡ found
      → Shows db query user found (
          answer_root d locale search db query user
            (select_some ("parentId" ∷ build_root_node_selector query) found))
  unfolding select includes
  answer_root-Shows db id query user none e = refl
  answer_root-Shows db id query user (some r) e =
      let (there, own) = own_row-some user (d.note db id) r e in
      let note = asked query r in
      subst (λ t. Shows db query user (some r) (answer_start d locale search db query user note t))
        (sym (from_root-single note))
        (subst
          (λ p.
            (x : NoteWithFamily) × IsShown note x (tree_below db query user r)
            × (answer_tree (parent_note d locale search db query user r.parent_id)
                  (tree_below db query user r)
                ≡ answered x p))
          (parent_of-parent_note db query user r.parent_id)
          (answer_tree-IsShown (get_children_limit query) (IsOwnId d locale search db user) note
            (parent_note d locale search db query user r.parent_id) (tree_below db query user r)
            (load_children_tree-IsAnswerTree d locale search db query user note
              (r, (ap (d.note db) (d.note-id db id r there) ∙ there, own)))
            (load_children_tree-IsRooted d locale search note db query user)))

  pub get_note_with_family-Shows :
      (db : Db) (id : String) (query : GetNoteQuery) (user : String)
      → Shows db query user
          (own_row user (d.note db id))
          (get_note_with_family d locale search db id query user)
  unfolding get_note_with_family get_note_by_id
  get_note_with_family-Shows db id query user =
      answer_root-Shows db id query user (own_row user (d.note db id)) refl
