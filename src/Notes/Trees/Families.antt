-- ===== src/Notes/Trees/Families.antt =====
-- The conversion of a tree of nodes to the answer ends, and the answer shows the tree as it is.
use notes_md_app_be.Prelude.{
  ℕ, zero, suc, ◌+◌, ◌≤◌, ◌<◌, ◌≡◌, refl, Option, some, List, Option-cases, inl, inr, some_eq,
  none-some, subst, get_elem?, [], ◌∷◌, length, arith, All,
}
use notes_md_app_be.Core.Tree.{TreeNode}
use notes_md_app_be.Core.Tree.Walk.{IsBelow, IsShaped, get_elem?-some, get_elem?-IsBelow}
use notes_md_app_be.Notes.Service.{Note}
use notes_md_app_be.Notes.Trees.{
  NoteWithFamily, NoteList, no_notes, more, family, from_each, from_tree,
}

from_each-some :
    (from : ℕ → Option NoteWithFamily) (cs : List ℕ)
    → All (λ c. (x : NoteWithFamily) × (from c ≡ some x)) cs
    → (xs : NoteList) × (from_each from cs ≡ some xs)
unfolding from_each
from_each-some from [] h = (no_notes, refl)
from_each-some from (c ∷ cs) ((x, e), h) =
    let (xs, f) = from_each-some from cs h in (more x xs, rw (e, f) refl)

from_below :
    (fuel : ℕ) (nodes : List (TreeNode Note)) (at : ℕ) (children : List ℕ)
    → ((c : ℕ)
        → c < length nodes
        → length nodes ≤ fuel + c
        → (x : NoteWithFamily) × (from_tree fuel nodes c ≡ some x))
    → length nodes ≤ suc fuel + at
    → IsBelow (length nodes) at children
    → All (λ c. (x : NoteWithFamily) × (from_tree fuel nodes c ≡ some x)) children
from_below fuel nodes at [] from enough h = tt
from_below fuel nodes at (c ∷ cs) from enough ((deeper, inside), h) =
    (from c inside (omega (arith, enough, deeper)), from_below fuel nodes at cs from enough h)

pub from_tree-some :
    (fuel : ℕ) (nodes : List (TreeNode Note)) (at : ℕ)
    → IsShaped nodes
    → at < length nodes
    → length nodes ≤ fuel + at
    → (x : NoteWithFamily) × (from_tree fuel nodes at ≡ some x)
unfolding from_tree
from_tree-some zero nodes at s inside enough = ground (arith, inside, enough)
from_tree-some (suc fuel) nodes at s inside enough =
    let (n, e) = get_elem?-some nodes at inside in
    let (xs, f) = from_each-some (from_tree fuel nodes) n.children (
      from_below fuel nodes at n.children (λ c. from_tree-some fuel nodes c s) enough
        (get_elem?-IsBelow nodes at n s e)) in
    (family n.id n.parent_id n.datum xs, rw (e, f) refl)

-- The answer has the ids and the notes of the node at an address and of all nodes below it.
unfoldable mutual
  pub IsFamilyOf : List (TreeNode Note) → NoteWithFamily → ℕ → Type 0
  IsFamilyOf nodes (family id parent_id note children) at =
      (n : TreeNode Note) × (get_elem? nodes at ≡ some n)
      × (id ≡ n.id)
      × (parent_id ≡ n.parent_id)
      × (note ≡ n.datum)
      × AreFamiliesOf nodes children n.children

  pub AreFamiliesOf : List (TreeNode Note) → NoteList → List ℕ → Type 0
  AreFamiliesOf nodes no_notes [] = Unit
  AreFamiliesOf nodes no_notes (c ∷ cs) = ⊥
  AreFamiliesOf nodes (more x xs) [] = ⊥
  AreFamiliesOf nodes (more x xs) (c ∷ cs) = IsFamilyOf nodes x c × AreFamiliesOf nodes xs cs

from_each-AreFamiliesOf :
    (nodes : List (TreeNode Note)) (from : ℕ → Option NoteWithFamily)
    → ((c : ℕ) (x : NoteWithFamily) → from c ≡ some x → IsFamilyOf nodes x c)
    → (cs : List ℕ) (xs : NoteList) → from_each from cs ≡ some xs
    → AreFamiliesOf nodes xs cs
unfolding from_each AreFamiliesOf
from_each-AreFamiliesOf nodes from good [] xs e =
    subst (λ l. AreFamiliesOf nodes l []) (some_eq no_notes xs e) tt
from_each-AreFamiliesOf nodes from good (c ∷ cs) xs e = elim (Option-cases (from c)) [
  | inl missing ↦ ground (arith, e, missing)
  | inr (x, one) ↦ elim (Option-cases (from_each from cs)) [
    | inl missing ↦ ground (arith, e, one, missing)
    | inr (rest, others) ↦
        let same : more x rest ≡ xs = ground (arith, e, one, others) in
        subst (λ l. AreFamiliesOf nodes l (c ∷ cs)) same
          (good c x one, from_each-AreFamiliesOf nodes from good cs rest others)
  ]
]

pub from_tree-IsFamilyOf :
    (fuel : ℕ) (nodes : List (TreeNode Note)) (at : ℕ) (x : NoteWithFamily)
    → from_tree fuel nodes at ≡ some x
    → IsFamilyOf nodes x at
unfolding from_tree IsFamilyOf
from_tree-IsFamilyOf zero nodes at x e = elim (none-some x e) [ ]
from_tree-IsFamilyOf (suc fuel) nodes at x e = elim (Option-cases (get_elem? nodes at)) [
  | inl missing ↦ ground (arith, e, missing)
  | inr (n, cell) ↦ elim (Option-cases (from_each (from_tree fuel nodes) n.children)) [
    | inl missing ↦ ground (arith, e, cell, missing)
    | inr (xs, below) ↦
        let same : family n.id n.parent_id n.datum xs ≡ x = ground (arith, e, cell, below) in
        subst (λ y. IsFamilyOf nodes y at) same
          (
            n,
            cell,
            refl,
            refl,
            refl,
            from_each-AreFamiliesOf nodes (from_tree fuel nodes)
                (λ c y. from_tree-IsFamilyOf fuel nodes c y) n.children xs below,
          )
  ]
]
