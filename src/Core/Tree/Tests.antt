-- ===== src/Core/Tree/Tests.antt =====
-- The theorems on the tree at concrete inputs.
use notes_md_app_be.Prelude.{ℕ, String, ◌≡◌, Bool, Option, none, some, List, [], ◌∷◌, str_eq, arith}
use notes_md_app_be.Prelude.Map
use notes_md_app_be.Core.Tree.{Tree, TreeNode, find, same_parent}
use notes_md_app_be.Core.Tree.Edits.{IsTree}
use notes_md_app_be.Core.Tree.Ends.{
  Edit, adds_child, adds_children, updates, removes, apply_all, find-apply_all,
}

abbrev node : String → Option String → List ℕ → TreeNode ℕ
node id parent children = record { id = id; parent_id = parent; datum = 1; children = children }

abbrev two_nodes : Tree ℕ
two_nodes = record {
  nodes = node "a" none (1 ∷ []) ∷ node "b" (some "a") [] ∷ [];
  root = 0;
  by_id = ("a", 0) ∷ ("b", 1) ∷ [];
}

abbrev without_b : Tree ℕ
without_b = record {
  nodes = node "a" none [] ∷ node "b" (some "a") [] ∷ [];
  root = 0;
  by_id = ("a", 0) ∷ [];
}

abbrev one_node : Tree ℕ
one_node = record { nodes = node "a" none [] ∷ []; root = 0; by_id = [] }

abbrev edits : List (Edit ℕ)
edits =
    adds_child "a" 2 "c"
    ∷ adds_children "c" (("d", 3) ∷ ("d", 4) ∷ [])
    ∷ updates "d" (λ n. n) same_parent
    ∷ removes "c"
    ∷ removes "a"
    ∷ []

abbrev is_d : TreeNode ℕ → Bool
is_d n = str_eq n.id "d"

one_node-IsTree : IsTree one_node
unfolding Map.get
one_node-IsTree = ((tt, tt), (omega arith, λ id at e. ground (arith, e)))

find-apply_all_example :
    (found : Option (TreeNode ℕ)) × (find (apply_all one_node edits) is_d ≡ some found)
find-apply_all_example = find-apply_all one_node edits is_d one_node-IsTree
