-- ===== src/Core/Tree/Ends.antt =====
-- The operations of the tree one after the other: the walks end, and a node that is removed is gone.
use notes_md_app_be.Prelude.{
  ℕ, ◌≡◌, refl, ap, String, Option, none, some, List, [], ◌∷◌, length, eq_refl, if_either, arith,
  Bool, subst, get_elem?,
}
use mathlib.Core.Option
use notes_md_app_be.Prelude.Map
use notes_md_app_be.Prelude.Map.{Map, get-delete}
use notes_md_app_be.Core.Tree.{
  Tree, TreeNode, Edited, edited, thrown, node_not_found, ParentPatch, require, add_child,
  add_children, update_node, remove_node, find, first_with, depth_first_search, forget, forget_from,
  forget_in, remove_at, start_of, unlinked, cell_at, has_id, delete_each,
}
use notes_md_app_be.Core.Tree.Walk.{depth_first_search-ends}
use notes_md_app_be.Core.Tree.Edits.{
  IsTree, GivesTree, add_child-GivesTree, add_children-GivesTree, update_node-GivesTree,
}
use notes_md_app_be.Core.Tree.Removal.{remove_node-GivesTree}

pub data Edit (Data : Type 0) : Type 0 where
  adds_child : String → Data → String → Edit Data
  adds_children : String → List (String × Data) → Edit Data
  updates : String → (Data → Data) → ParentPatch → Edit Data
  removes : String → Edit Data

gone_after : (by_id : Map ℕ) (id : String) → Map.get (Map.delete by_id id) id ≡ none
gone_after by_id id = ground (arith, get-delete by_id id id, eq_refl id)

module _ {Data : Type 0} where
  unfoldable pub apply : Tree Data → Edit Data → Edited Data
  apply t (adds_child parent_id datum id) = add_child t parent_id datum id
  apply t (adds_children parent_id kids) = add_children t parent_id kids
  apply t (updates id patch parent) = update_node t id patch parent
  apply t (removes id) = remove_node t id

  -- A call that throws leaves the tree as it was.
  abbrev pub tree_after : Tree Data → Edited Data → Tree Data
  tree_after t (edited t') = t'
  tree_after t (thrown e) = t

  unfoldable pub apply_all : Tree Data → List (Edit Data) → Tree Data
  apply_all t [] = t
  apply_all t (e ∷ es) = apply_all (tree_after t (apply t e)) es

  apply-GivesTree : (t : Tree Data) (e : Edit Data) → IsTree t → GivesTree (apply t e)
  unfolding apply
  apply-GivesTree t (adds_child parent_id datum id) h = add_child-GivesTree t parent_id datum id h
  apply-GivesTree t (adds_children parent_id kids) h = add_children-GivesTree t parent_id kids h
  apply-GivesTree t (updates id patch parent) h = update_node-GivesTree t id patch parent h
  apply-GivesTree t (removes id) h = remove_node-GivesTree t id h

  tree_after-IsTree :
      (t : Tree Data) (r : Edited Data) → IsTree t → GivesTree r → IsTree (tree_after t r)
  tree_after-IsTree t (edited t') h k = k
  tree_after-IsTree t (thrown e) h k = h

  apply_all-IsTree : (t : Tree Data) (es : List (Edit Data)) → IsTree t → IsTree (apply_all t es)
  unfolding apply_all
  apply_all-IsTree t [] h = h
  apply_all-IsTree t (e ∷ es) h =
      apply_all-IsTree (tree_after t (apply t e)) es
        (tree_after-IsTree t (apply t e) h (apply-GivesTree t e h))

  -- After any operations on a well-formed tree, in any order and whether they throw or not, a search
  -- for a node ends: its recursion goes no deeper than there are nodes.
  pub find-apply_all :
      (t : Tree Data) (es : List (Edit Data)) (p : TreeNode Data → Bool)
      → IsTree t
      → (found : Option (TreeNode Data)) × (find (apply_all t es) p ≡ some found)
  unfolding find
  find-apply_all t es p h =
      let (s, (inside, found)) = apply_all-IsTree t es h in
      let t' = apply_all t es in
      let (visited, e) = depth_first_search-ends t'.nodes t'.root s inside in
      (first_with p t'.nodes visited, ap (Option.map (first_with p t'.nodes)) e)

  abbrev Forgets : String → Edited Data → Type 0
  Forgets id (edited t) = require t id ≡ none
  Forgets id (thrown e) = Unit

  forget-Forgets :
      (t : Tree Data) (id : String) (visited : Option (List ℕ)) → Forgets id (forget t id visited)
  unfolding require
  forget-Forgets t id none = tt
  forget-Forgets t id (some visited) =
      ap (cell_at t.nodes) (gone_after (delete_each t.nodes visited t.by_id) id)

  forget_from-Forgets :
      (t : Tree Data) (id : String) (start : Option ℕ) → Forgets id (forget_from t id start)
  forget_from-Forgets t id none = tt
  forget_from-Forgets t id (some start) =
      forget-Forgets t id (depth_first_search (length t.nodes) t.nodes start)

  forget_in-Forgets : (id : String) (t : Option (Tree Data)) → Forgets id (forget_in id t)
  forget_in-Forgets id none = tt
  forget_in-Forgets id (some t) = forget_from-Forgets t id (start_of t id)

  remove_at-Forgets :
      (t : Tree Data) (id : String) (found : Option (ℕ × TreeNode Data))
      → Forgets id (remove_at t id found)
  remove_at-Forgets t id none = tt
  remove_at-Forgets t id (some (at, n)) =
      if_either (Forgets id) (has_id (get_elem? t.nodes t.root) n.id) tt
        (forget_in-Forgets id (unlinked t id n.parent_id))

  -- A node that was removed is not found by its id, and a second removal throws.
  pub remove_node-remove_node :
      (t : Tree Data) (id : String) (t' : Tree Data)
      → remove_node t id ≡ edited t'
      → (require t' id ≡ none) × (remove_node t' id ≡ thrown node_not_found)
  unfolding remove_node
  remove_node-remove_node t id t' e =
      let gone = subst (Forgets id) e (remove_at-Forgets t id (require t id)) in
      (gone, rw gone refl)
