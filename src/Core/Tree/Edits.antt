-- ===== src/Core/Tree/Edits.antt =====
-- What the operations of the tree keep.
use notes_md_app_be.Prelude.{
  ℕ, zero, suc, ◌+◌, ◌<◌, ◌≡◌, refl, sym, subst, ◌∙◌, true, false, String, Option, none, some, List,
  [], ◌∷◌, ◌++◌, get_elem?, length, arith, length-append, str_eq, eq_iff, is_some, Bool-cases,
  if_either, Option-cases, ◌⊎◌, inl, inr, All-append,
}
use notes_md_app_be.Prelude.Map
use notes_md_app_be.Prelude.Map.{Map, get-set, get-delete}
use notes_md_app_be.Core.Tree.{
  Tree, TreeNode, Edited, edited, thrown, ParentPatch, set_at, has_id, push_child, attach, require,
  add_child, add_each, attach_at, add_children, update_node,
}
use notes_md_app_be.Core.Tree.Walk.{IsBelow, IsBelow-moved, Shaped, IsShaped, get_elem?-IsBelow}
use notes_md_app_be.Core.Tree.Cells.{
  IsBelow-more, length-set_at, has_id-set_at, Shaped-set_at, Shaped-append, Shaped-more,
  has_id-append, has_id-last,
}

at_end :
    (by_id : Map ℕ) (id k : String) (m n a : ℕ)
    → m ≡ n
    → str_eq id k ≡ true
    → Map.get (Map.set by_id id n) k ≡ some a
    → m ≡ a
at_end by_id id k m n a e same f = ground (arith, e, same, f, get-set by_id id n k)

elsewhere :
    (by_id : Map ℕ) (id k : String) (n a : ℕ)
    → str_eq id k ≡ false
    → Map.get (Map.set by_id id n) k ≡ some a
    → Map.get by_id k ≡ some a
elsewhere by_id id k n a other f = ground (arith, other, f, get-set by_id id n k)

module _ {Data : Type 0} where
  -- Children stand behind their parents, and `byId` finds nodes with the right id.
  abbrev pub IsTree : Tree Data → Type 0
  IsTree t =
      IsShaped t.nodes
      × ((t.root < length t.nodes)
          × ((id : String) (at : ℕ)
              → Map.get t.by_id id ≡ some at
              → has_id (get_elem? t.nodes at) id ≡ true))

  pub get_elem?-inside :
      (nodes : List (TreeNode Data)) (at : ℕ) (x : TreeNode Data)
      → get_elem? nodes at ≡ some x
      → at < length nodes
  get_elem?-inside [] at x e = ground (arith, e)
  get_elem?-inside (y ∷ ys) zero x e = omega arith
  get_elem?-inside (y ∷ ys) (suc at) x e = omega (arith, get_elem?-inside ys at x e)

  pub written-IsTree :
      (t : Tree Data) (at : ℕ) (x old : TreeNode Data)
      → IsTree t
      → get_elem? t.nodes at ≡ some old
      → x.id ≡ old.id
      → IsBelow (length t.nodes) at x.children
      → IsTree (record t { nodes = set_at t.nodes at x })
  written-IsTree t at x old (s, (inside, found)) e same below =
      let len = length-set_at t.nodes at x in
      (
        subst (λ n. Shaped n 0 (set_at t.nodes at x)) (sym len)
            (Shaped-set_at (length t.nodes) 0 t.nodes at x s
              (IsBelow-moved (length t.nodes) at (0 + at) x.children (omega arith) below)),
        (
          subst (λ n. t.root < n) (sym len) inside,
          λ id i f. has_id-set_at t.nodes at x old i id e same ∙ found id i f,
        ),
      )

  pub length-push_child :
      (nodes : List (TreeNode Data)) (at : ℕ) (parent : TreeNode Data) (c : ℕ) (x : TreeNode Data)
      → length (push_child nodes at parent c ++ (x ∷ [])) ≡ suc (length nodes)
  length-push_child nodes at parent c x =
      let parent' = record parent { children = parent.children ++ (c ∷ []) } in
      omega
        (arith, length-append (set_at nodes at parent') (x ∷ []), length-set_at nodes at parent')

  -- `byId` with a new node at the end.
  found_attached :
      (nodes pushed : List (TreeNode Data)) (x : TreeNode Data) (by_id : Map ℕ)
      → length pushed ≡ length nodes
      → ((k : String) (a : ℕ) → Map.get by_id k ≡ some a → has_id (get_elem? pushed a) k ≡ true)
      → (k : String) (a : ℕ) → Map.get (Map.set by_id x.id (length nodes)) k ≡ some a
      → has_id (get_elem? (pushed ++ (x ∷ [])) a) k ≡ true
  found_attached nodes pushed x by_id len found k a f = elim (Bool-cases (str_eq x.id k)) [
    | inl same ↦
        subst (λ j. has_id (get_elem? (pushed ++ (x ∷ [])) a) j ≡ true) ((eq_iff x.id k).0 same)
          (subst (λ i. has_id (get_elem? (pushed ++ (x ∷ [])) i) x.id ≡ true)
            (at_end by_id x.id k (length pushed) (length nodes) a len same f)
            (has_id-last pushed x))
    | inr other ↦
        has_id-append pushed x a k (found k a (elsewhere by_id x.id k (length nodes) a other f))
  ]

  attach-IsShaped :
      (nodes : List (TreeNode Data)) (at : ℕ) (parent x : TreeNode Data)
      → IsShaped nodes
      → get_elem? nodes at ≡ some parent
      → at < length nodes
      → x.children ≡ []
      → IsShaped (push_child nodes at parent (length nodes) ++ (x ∷ []))
  attach-IsShaped nodes at parent x s e inside leaf =
      let n = length nodes in
      let below =
        IsBelow-more n (suc n) at parent.children (omega arith)
          (get_elem?-IsBelow nodes at parent s e) in
      let more =
        All-append (λ c. (at < c) × (c < suc n)) parent.children (n ∷ []) below
          ((inside, omega arith), tt) in
      let parent' = record parent { children = parent.children ++ (n ∷ []) } in
      subst (λ m. Shaped m 0 (push_child nodes at parent n ++ (x ∷ [])))
        (sym (length-push_child nodes at parent n x))
        (Shaped-append (suc n) 0 (push_child nodes at parent n) x leaf (
          Shaped-set_at (suc n) 0 nodes at parent' (Shaped-more n (suc n) 0 nodes (omega arith) s)
            (IsBelow-moved (suc n) at (0 + at) parent'.children (omega arith) more)))

  pub attach-IsTree :
      (t : Tree Data) (at : ℕ) (parent : TreeNode Data) (parent_id id : String) (datum : Data)
      → IsTree t
      → get_elem? t.nodes at ≡ some parent
      → IsTree (attach t (at, parent) parent_id id datum)
  attach-IsTree t at parent parent_id id datum (s, (inside, found)) e =
      let n = length t.nodes in
      let parent' = record parent { children = parent.children ++ (n ∷ []) } in
      (
        attach-IsShaped t.nodes at parent _ s e (get_elem?-inside t.nodes at parent e) refl,
        (
          subst (λ m. t.root < m) (sym (length-push_child t.nodes at parent n _))
              (omega (arith, inside)),
          λ k a f.
              found_attached t.nodes (push_child t.nodes at parent n) _ t.by_id
                (length-set_at t.nodes at parent')
                (λ k' a' f'. has_id-set_at t.nodes at parent' parent a' k' e refl ∙ found k' a' f')
                k a f,
        ),
      )

  -- What `require` answers.
  pub require-cases :
      (t : Tree Data) (id : String)
      → IsTree t
      → ((require t id ≡ none) × (Map.get t.by_id id ≡ none))
        ⊎ ((at : ℕ) × ((n : TreeNode Data) × ((require t id ≡ some (at, n))
                × ((get_elem? t.nodes at ≡ some n)
                    × ((n.id ≡ id) × (Map.get t.by_id id ≡ some at))))))
  unfolding require
  require-cases t id (s, (inside, found)) = elim (Option-cases (Map.get t.by_id id)) [
    | inl e ↦ inl (rw e refl, e)
    | inr (at, e) ↦ elim (Option-cases (get_elem? t.nodes at)) [
      | inl missing ↦ ground (arith, found id at e, missing)
      | inr (n, there) ↦ inr (
        at,
        (
          n,
          (
            rw (e, there) refl,
            (
              there,
              ((eq_iff n.id id).0 (subst (λ o. has_id o id ≡ true) there (found id at e)), e),
            ),
          ),
        ),
      )
    ]
  ]

  abbrev pub GivesTree : Edited Data → Type 0
  GivesTree (edited t) = IsTree t
  GivesTree (thrown e) = Unit

  pub add_child-GivesTree :
      (t : Tree Data) (parent_id : String) (datum : Data) (id : String)
      → IsTree t
      → GivesTree (add_child t parent_id datum id)
  unfolding add_child
  add_child-GivesTree t parent_id datum id h = elim (require-cases t parent_id h) [
    | inl (e, gone) ↦ rw (e, GivesTree) tt
    | inr (at, (n, (e, (there, rest)))) ↦
        rw (e, GivesTree) (attach-IsTree t at n parent_id id datum h there)
  ]

  pub update_node-GivesTree :
      (t : Tree Data) (id : String) (patch : Data → Data) (parent : ParentPatch)
      → IsTree t
      → GivesTree (update_node t id patch parent)
  unfolding update_node
  update_node-GivesTree t id patch parent h = elim (require-cases t id h) [
    | inl (e, gone) ↦ rw (e, GivesTree) tt
    | inr (at, (n, (e, (there, rest)))) ↦
        rw (e, GivesTree)
          (written-IsTree t at _ n h there refl (get_elem?-IsBelow t.nodes at n h.0 there))
  ]

  attach_at-IsTree :
      (t : Tree Data) (at : ℕ) (found : Option (TreeNode Data)) (parent_id id : String)
      (datum : Data)
      → IsTree t
      → get_elem? t.nodes at ≡ found
      → IsTree (attach_at t at found parent_id id datum)
  attach_at-IsTree t at none parent_id id datum h e = h
  attach_at-IsTree t at (some n) parent_id id datum h e =
      attach-IsTree t at n parent_id id datum h e

  add_each-IsTree :
      (t : Tree Data) (at : ℕ) (parent_id : String) (kids : List (String × Data))
      → IsTree t
      → IsTree (add_each t at parent_id kids)
  unfolding add_each
  add_each-IsTree t at parent_id [] h = h
  add_each-IsTree t at parent_id ((id, datum) ∷ kids) h =
      if_either IsTree (is_some (Map.get t.by_id id)) (add_each-IsTree t at parent_id kids h) (
        add_each-IsTree (attach_at t at (get_elem? t.nodes at) parent_id id datum) at parent_id kids
          (attach_at-IsTree t at (get_elem? t.nodes at) parent_id id datum h refl))

  pub add_children-GivesTree :
      (t : Tree Data) (parent_id : String) (kids : List (String × Data))
      → IsTree t
      → GivesTree (add_children t parent_id kids)
  unfolding add_children
  add_children-GivesTree t parent_id kids h = elim (require-cases t parent_id h) [
    | inl (e, gone) ↦ rw (e, GivesTree) tt
    | inr (at, (n, (e, rest))) ↦ rw (e, GivesTree) (add_each-IsTree t at parent_id kids h)
  ]
