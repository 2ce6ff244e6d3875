-- ===== src/Core/Tree/Removal.antt =====
-- What the removal of a node keeps.
use notes_md_app_be.Prelude.{
  ℕ, ◌≡◌, refl, String, Option, none, some, List, [], ◌∷◌, get_elem?, length, arith, str_eq,
  if_either, inl, inr,
}
use notes_md_app_be.Prelude.Map
use notes_md_app_be.Prelude.Map.{Map, get-set, get-delete}
use notes_md_app_be.Core.Tree.{
  Tree, TreeNode, has_id, without_child, delete_each, delete_node, forget, forget_from, forget_in,
  start_of, unlinked, remove_node, depth_first_search,
}
use notes_md_app_be.Core.Tree.Walk.{IsBelow, get_elem?-IsBelow}
use notes_md_app_be.Core.Tree.Edits.{IsTree, GivesTree, require-cases, written-IsTree}

-- Ids only leave the map.
abbrev IsSmaller : Map ℕ → Map ℕ → Type 0
IsSmaller small big = (id : String) (at : ℕ) → Map.get small id ≡ some at → Map.get big id ≡ some at

delete-IsSmaller : (by_id : Map ℕ) (id : String) → IsSmaller (Map.delete by_id id) by_id
delete-IsSmaller by_id id k at e = ground (arith, e, get-delete by_id id k)

module _ {Data : Type 0} where
  delete_node-IsSmaller :
      (by_id : Map ℕ) (found : Option (TreeNode Data)) → IsSmaller (delete_node by_id found) by_id
  delete_node-IsSmaller by_id none k at e = e
  delete_node-IsSmaller by_id (some n) k at e = delete-IsSmaller by_id n.id k at e

  delete_each-IsSmaller :
      (nodes : List (TreeNode Data)) (visited : List ℕ) (by_id : Map ℕ)
      → IsSmaller (delete_each nodes visited by_id) by_id
  delete_each-IsSmaller nodes [] by_id k at e = e
  delete_each-IsSmaller nodes (a ∷ rest) by_id k at e =
      delete_node-IsSmaller by_id (get_elem? nodes a) k at
        (delete_each-IsSmaller nodes rest (delete_node by_id (get_elem? nodes a)) k at e)

  forget-GivesTree :
      (t : Tree Data) (id : String) (visited : Option (List ℕ))
      → IsTree t
      → GivesTree (forget t id visited)
  forget-GivesTree t id none h = tt
  forget-GivesTree t id (some visited) (s, (inside, found)) = (
    s,
    (
      inside,
      λ k at e. found k at (
          delete_each-IsSmaller t.nodes visited t.by_id k at
            (delete-IsSmaller (delete_each t.nodes visited t.by_id) id k at e)),
    ),
  )

  forget_from-GivesTree :
      (t : Tree Data) (id : String) (start : Option ℕ)
      → IsTree t
      → GivesTree (forget_from t id start)
  forget_from-GivesTree t id none h = tt
  forget_from-GivesTree t id (some start) h =
      forget-GivesTree t id (depth_first_search (length t.nodes) t.nodes start) h

  without_child-IsBelow :
      (nodes : List (TreeNode Data)) (id : String) (n at : ℕ) (cs : List ℕ)
      → IsBelow n at cs
      → IsBelow n at (without_child nodes id cs)
  without_child-IsBelow nodes id n at [] h = tt
  without_child-IsBelow nodes id n at (c ∷ cs) (b, h) =
      if_either (IsBelow n at) (has_id (get_elem? nodes c) id)
        (without_child-IsBelow nodes id n at cs h) (b, without_child-IsBelow nodes id n at cs h)

  abbrev AllTree : Option (Tree Data) → Type 0
  AllTree none = Unit
  AllTree (some t) = IsTree t

  unlinked-IsTree :
      (t : Tree Data) (id : String) (parent : Option String)
      → IsTree t
      → AllTree (unlinked t id parent)
  unlinked-IsTree t id none h = h
  unlinked-IsTree t id (some parent) h =
      if_either AllTree (str_eq parent "") h (elim (require-cases t parent h) [
        | inl (e, gone) ↦ rw (e, AllTree) tt
        | inr (at, (n, (e, (there, rest)))) ↦
            rw (e, AllTree)
              (written-IsTree t at _ n h there refl (
                without_child-IsBelow t.nodes id (length t.nodes) at n.children
                  (get_elem?-IsBelow t.nodes at n h.0 there)))
      ])

  forget_in-GivesTree :
      (id : String) (t : Option (Tree Data)) → AllTree t → GivesTree (forget_in id t)
  forget_in-GivesTree id none h = tt
  forget_in-GivesTree id (some t) h = forget_from-GivesTree t id (start_of t id) h

  pub remove_node-GivesTree :
      (t : Tree Data) (id : String) → IsTree t → GivesTree (remove_node t id)
  unfolding remove_node
  remove_node-GivesTree t id h = elim (require-cases t id h) [
    | inl (e, gone) ↦ rw (e, GivesTree) tt
    | inr (at, (n, (e, rest))) ↦
        rw (e, GivesTree)
          (if_either GivesTree (has_id (get_elem? t.nodes t.root) n.id) tt (
            forget_in-GivesTree id (unlinked t id n.parent_id)
              (unlinked-IsTree t id n.parent_id h)))
  ]
