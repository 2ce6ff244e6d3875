-- ===== src/Core/Tree.antt =====
-- core/tree/tree.service.ts and tree.types.ts: a tree whose nodes are changed in place, with a map
-- from ids to nodes. A node is a cell of a store, and a reference to a node is the cell's address;
-- `none` where the code reads a cell that is not there.
pub mod Walk
pub mod Cells
pub mod Edits
pub mod Removal
pub mod Ends
mod Tests
use notes_md_app_be.Prelude.{
  ℕ, zero, suc, ◌+◌, String, Bool, true, false, not, Option, none, some, List, [], ◌∷◌, ◌++◌,
  get_elem?, length, if◌then◌else◌, str_eq, is_some, ◌>>=◌,
}
use mathlib.Core.Option
use notes_md_app_be.Prelude.Map
use notes_md_app_be.Prelude.Map.{Map}

pub record TreeNode (Data : Type 0) : Type 0 where
  pub id : String
  pub parent_id : Option String
  pub datum : Data
  pub children : List ℕ

-- The store, the address of the root, and `byId`.
pub record Tree (Data : Type 0) : Type 0 where
  pub nodes : List (TreeNode Data)
  pub root : ℕ
  pub by_id : Map ℕ

pub data TreeError : Type 0 where
  node_not_found cannot_remove_root : TreeError

pub data Edited (Data : Type 0) : Type 0 where
  edited : Tree Data → Edited Data
  thrown : TreeError → Edited Data

-- What a parent id is changed to: `undefined` leaves it.
pub data ParentPatch : Type 0 where
  same_parent : ParentPatch
  parent_to : Option String → ParentPatch

-- Writing the cell at an address.
abbrev pub set_at {ℓ} : {A : Type ℓ} → List A → ℕ → A → List A
set_at [] i a = []
set_at (x ∷ xs) zero a = a ∷ xs
set_at (x ∷ xs) (suc i) a = x ∷ set_at xs i a

abbrev pub has_id : {A : Type 0} → Option (TreeNode A) → String → Bool
has_id none id = false
has_id (some n) id = str_eq n.id id

abbrev pub patched_parent : ParentPatch → Option String → Option String
patched_parent same_parent old = old
patched_parent (parent_to new) old = new

-- The addresses that the visits of several nodes reach, one after the other.
unfoldable pub visit_all : (ℕ → Option (List ℕ)) → List ℕ → Option (List ℕ)
visit_all visit [] = some []
visit_all visit (c ∷ cs) = do xs ← visit c; ys ← visit_all visit cs; some (xs ++ ys)

module _ {Data : Type 0} where
  abbrev pub push_child : List (TreeNode Data) → ℕ → TreeNode Data → ℕ → List (TreeNode Data)
  push_child nodes at parent child =
      set_at nodes at (record parent { children = parent.children ++ (child ∷ []) })

  -- `depthFirstSearch`: the addresses in the order in which they are visited. The fuel bounds how
  -- deep the recursion goes.
  unfoldable pub depth_first_search : ℕ → List (TreeNode Data) → ℕ → Option (List ℕ)
  depth_first_search zero nodes at = none
  depth_first_search (suc fuel) nodes at = do
    node ← get_elem? nodes at
    below ← visit_all (depth_first_search fuel nodes) node.children
    some (at ∷ below)

  abbrev pub index_each : List (TreeNode Data) → List ℕ → Map ℕ → Map ℕ
  index_each nodes [] by_id = by_id
  index_each nodes (a ∷ rest) by_id = elim (get_elem? nodes a) [
    | none ↦ index_each nodes rest by_id
    | some node ↦ index_each nodes rest (Map.set by_id node.id a)
  ]

  -- The constructor, on a root whose cells are there: `indexNode` from the root.
  unfoldable pub from_root : List (TreeNode Data) → ℕ → Option (Tree Data)
  from_root nodes root = do
    visited ← depth_first_search (length nodes) nodes root
    some (record { nodes = nodes; root = root; by_id = index_each nodes visited [] })

  abbrev pub with_address : ℕ → Option (TreeNode Data) → Option (ℕ × TreeNode Data)
  with_address a none = none
  with_address a (some n) = some (a, n)

  -- The cell of an id, with its address: `get` of the map, and `require` where `none` throws.
  abbrev pub cell_at : List (TreeNode Data) → Option ℕ → Option (ℕ × TreeNode Data)
  cell_at nodes none = none
  cell_at nodes (some a) = with_address a (get_elem? nodes a)

  unfoldable pub require : Tree Data → String → Option (ℕ × TreeNode Data)
  require t id = cell_at t.nodes (Map.get t.by_id id)

  -- A new node at the end of a parent's children.
  abbrev pub attach : Tree Data → ℕ × TreeNode Data → String → String → Data → Tree Data
  attach t (at, parent) parent_id id datum = record t {
    nodes =
        push_child t.nodes at parent (length t.nodes)
        ++ (record { id = id; parent_id = some parent_id; datum = datum; children = [] } ∷ []);
    by_id = Map.set t.by_id id (length t.nodes);
  }

  abbrev pub attach_to :
      Tree Data → Option (ℕ × TreeNode Data) → String → String → Data → Edited Data
  attach_to t none parent_id id datum = thrown node_not_found
  attach_to t (some parent) parent_id id datum = edited (attach t parent parent_id id datum)

  unfoldable pub add_child : Tree Data → String → Data → String → Edited Data
  add_child t parent_id datum new_id = attach_to t (require t parent_id) parent_id new_id datum

  abbrev pub attach_at : Tree Data → ℕ → Option (TreeNode Data) → String → String → Data → Tree Data
  attach_at t at none parent_id id datum = t
  attach_at t at (some parent) parent_id id datum = attach t (at, parent) parent_id id datum

  -- The loop of `addChildren` on the parent's cell: an id that the tree has is left out.
  unfoldable pub add_each : Tree Data → ℕ → String → List (String × Data) → Tree Data
  add_each t at parent_id [] = t
  add_each t at parent_id ((id, datum) ∷ kids) =
      let skipped = add_each t at parent_id kids in
      if is_some (Map.get t.by_id id)
      then skipped
      else add_each (attach_at t at (get_elem? t.nodes at) parent_id id datum) at parent_id kids

  abbrev pub add_children_to :
      Tree Data → Option (ℕ × TreeNode Data) → String → List (String × Data) → Edited Data
  add_children_to t none parent_id kids = thrown node_not_found
  add_children_to t (some (at, parent)) parent_id kids = edited (add_each t at parent_id kids)

  unfoldable pub add_children : Tree Data → String → List (String × Data) → Edited Data
  add_children t parent_id kids = add_children_to t (require t parent_id) parent_id kids

  abbrev pub update_at :
      Tree Data → Option (ℕ × TreeNode Data) → (Data → Data) → ParentPatch → Edited Data
  update_at t none patch parent = thrown node_not_found
  update_at t (some (at, n)) patch parent = edited (record t {
    nodes =
        set_at t.nodes at
          (record n { datum = patch n.datum; parent_id = patched_parent parent n.parent_id });
  })

  unfoldable pub update_node : Tree Data → String → (Data → Data) → ParentPatch → Edited Data
  update_node t id patch parent = update_at t (require t id) patch parent

  -- The children but for those with an id.
  abbrev pub without_child : List (TreeNode Data) → String → List ℕ → List ℕ
  without_child nodes id [] = []
  without_child nodes id (c ∷ cs) =
      let rest = without_child nodes id cs in
      if has_id (get_elem? nodes c) id then rest else c ∷ rest

  abbrev pub delete_node : Map ℕ → Option (TreeNode Data) → Map ℕ
  delete_node by_id none = by_id
  delete_node by_id (some node) = Map.delete by_id node.id

  abbrev pub delete_each : List (TreeNode Data) → List ℕ → Map ℕ → Map ℕ
  delete_each nodes [] by_id = by_id
  delete_each nodes (a ∷ rest) by_id =
      delete_each nodes rest (delete_node by_id (get_elem? nodes a))

  -- Where a walk with a start id begins: an id that is empty is no id, and the root is taken.
  abbrev pub start_of : Tree Data → String → Option ℕ
  start_of t id = if str_eq id "" then some t.root else Option.map (λ p. p.0) (require t id)

  -- The ids of a node and of all below it leave the map.
  abbrev pub forget : Tree Data → String → Option (List ℕ) → Edited Data
  forget t id none = thrown node_not_found
  forget t id (some visited) =
      edited (record t { by_id = Map.delete (delete_each t.nodes visited t.by_id) id })

  abbrev pub forget_from : Tree Data → String → Option ℕ → Edited Data
  forget_from t id none = thrown node_not_found
  forget_from t id (some start) = forget t id (depth_first_search (length t.nodes) t.nodes start)

  abbrev pub detach : Tree Data → String → ℕ × TreeNode Data → Tree Data
  detach t id (at, parent) = record t {
    nodes =
        set_at t.nodes at (record parent { children = without_child t.nodes id parent.children });
  }

  -- Without the link from the parent, when the node names one.
  abbrev pub unlinked : Tree Data → String → Option String → Option (Tree Data)
  unlinked t id none = some t
  unlinked t id (some parent) =
      if str_eq parent "" then some t else Option.map (detach t id) (require t parent)

  abbrev pub forget_in : String → Option (Tree Data) → Edited Data
  forget_in id none = thrown node_not_found
  forget_in id (some t) = forget_from t id (start_of t id)

  abbrev pub remove_at : Tree Data → String → Option (ℕ × TreeNode Data) → Edited Data
  remove_at t id none = thrown node_not_found
  remove_at t id (some (at, n)) =
      if has_id (get_elem? t.nodes t.root) n.id
      then thrown cannot_remove_root
      else forget_in id (unlinked t id n.parent_id)

  unfoldable pub remove_node : Tree Data → String → Edited Data
  remove_node t id = remove_at t id (require t id)

  abbrev pub first_with :
      (TreeNode Data → Bool) → List (TreeNode Data) → List ℕ → Option (TreeNode Data)
  first_with p nodes [] = none
  first_with p nodes (a ∷ rest) = elim (get_elem? nodes a) [
    | none ↦ first_with p nodes rest
    | some n ↦ if p n then some n else first_with p nodes rest
  ]

  -- The first node, in the order of the walk, that meets a test.
  unfoldable pub find : Tree Data → (TreeNode Data → Bool) → Option (Option (TreeNode Data))
  find t p = Option.map (first_with p t.nodes) (depth_first_search (length t.nodes) t.nodes t.root)
