-- ===== src/Notes/Trees/Levels.antt =====
-- The loading of the levels from the tree of one note.
use notes_md_app_be.Prelude.{
  ℕ, ◌≤◌, String, ◌≡◌, refl, subst, true, Option, none, some, List, [], ◌∷◌, inl, inr, get_elem?,
  length, str_eq, arith, All, Bool-cases, some_eq, none-some, if◌then◌else◌,
}
use notes_md_app_be.Prelude.Map
use notes_md_app_be.Prelude.Map.{Map}
use notes_md_app_be.Core.Limiters.{current}
use notes_md_app_be.Core.Selectors.{includes}
use notes_md_app_be.Core.Tree.{Tree, TreeNode, has_id, from_root, visit_all, depth_first_search}
use notes_md_app_be.Core.Tree.Edits.{IsTree}
use notes_md_app_be.Notes.Service.{Note, is_in}
use notes_md_app_be.Notes.Trees.{
  Level, Loaded, loaded, load_failed, after, load_notes, load_level, to_tree,
}
use notes_md_app_be.Notes.Trees.Counted.{IsCounted}
use notes_md_app_be.Notes.Trees.Loading.{IsLevel, GivesLevel, IsAsked, load_notes-GivesLevel}

-- The tree of one note.
unfoldable pub single : Note → Tree Note
single note = record { nodes = to_tree note ∷ []; root = 0; by_id = (note.id, 0) ∷ [] }

pub from_root-single : (note : Note) → from_root (to_tree note ∷ []) 0 ≡ some (single note)
unfolding from_root depth_first_search single visit_all Map.set
from_root-single note = refl

pub parent-named :
    (ids : List String) (parent : Option String)
    → is_in ids parent ≡ true
    → (p : String) × ((parent ≡ some p) × (includes ids p ≡ true))
parent-named ids none h = ground (arith, h)
parent-named ids (some p) h = (p, (refl, h))

pub bounded_by_limit :
    (limit : ℕ) (counters : Map ℕ) (nodes : List (TreeNode Note))
    → IsCounted counters nodes
    → ((id : String) → current counters id ≤ limit)
    → All (λ n. length n.children ≤ limit) nodes
bounded_by_limit limit counters [] h bound = tt
bounded_by_limit limit counters (n ∷ ns) (le, h) bound =
    (omega (arith, le, bound n.id), bounded_by_limit limit counters ns h bound)

-- A tree that is well-formed, with a bounded number of children everywhere, and `P` of the ids.
module _ (limit : ℕ) (P : String → Type 0) where
  abbrev pub IsAnswerTree : Loaded (Tree Note) → Type 0
  IsAnswerTree (load_failed e) = ⊥
  IsAnswerTree (loaded t) =
      IsTree t × (All (λ n. length n.children ≤ limit) t.nodes × All (λ n. P n.id) t.nodes)

  pub IsAnswerTree-level :
      (asked : List String) (level : Level)
      → IsLevel limit P asked level
      → IsAnswerTree (loaded level.tree)
  IsAnswerTree-level asked level (t, (counted, (bound, (own, rest)))) =
      (t, (bounded_by_limit limit level.counters level.tree.nodes counted bound, own))

  pub after-IsAnswerTree :
      (asked : List String) (r : Loaded Level) (deeper : Level → Loaded (Tree Note))
      → GivesLevel limit P asked r
      → ((level : Level) → IsLevel limit P [] level → IsAnswerTree (deeper level))
      → IsAnswerTree (after r deeper)
  after-IsAnswerTree asked (load_failed e) deeper h k = elim (h) [ ]
  after-IsAnswerTree asked (loaded level) deeper (t, (counted, (bound, (own, (kept, there))))) k =
      k level (t, (counted, (bound, (own, (tt, there)))))

  pub load_level-IsAnswerTree :
      (level : Level) (notes : List Note) (deeper : Level → Loaded (Tree Note))
      → IsLevel limit P [] level
      → All (IsAsked limit P level.ids) notes
      → ((next : Level) → IsLevel limit P [] next → IsAnswerTree (deeper next))
      → IsAnswerTree (load_level limit level notes deeper)
  load_level-IsAnswerTree level [] deeper h asks k = IsAnswerTree-level [] level h
  load_level-IsAnswerTree level (n ∷ ns) deeper (t, (counted, (bound, (own, (kept, there))))) asks
        k =
      after-IsAnswerTree level.ids (load_notes limit (record level { ids = [] }) (n ∷ ns)) deeper
        (load_notes-GivesLevel limit P level.ids (record level { ids = [] }) (n ∷ ns)
          (t, (counted, (bound, (own, (there, tt))))) asks)
        k

pub single-IsTree : (note : Note) → IsTree (single note)
unfolding single Map.get
single-IsTree note = (
  (tt, tt),
  (
    omega arith,
    λ id at e. elim (Bool-cases (str_eq note.id id)) [
      | inl same ↦
          subst (λ i. has_id (get_elem? (to_tree note ∷ []) i) id ≡ true)
            (some_eq 0 at (subst (λ b. (if b then some 0 else none) ≡ some at) same e)) same
      | inr other ↦
          elim (none-some at (subst (λ b. (if b then some 0 else none) ≡ some at) other e)) [ ]
    ],
  ),
)
