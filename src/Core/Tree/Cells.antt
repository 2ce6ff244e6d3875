-- ===== src/Core/Tree/Cells.antt =====
-- Writing a cell of the store, and a new cell at its end.
use notes_md_app_be.Prelude.{
  ℕ, zero, suc, ◌+◌, ◌≤◌, ◌≡◌, refl, sym, subst, true, String, some, List, [], ◌∷◌, ◌++◌, get_elem?,
  length, arith, eq_refl,
}
use notes_md_app_be.Core.Tree.{TreeNode, set_at, has_id}
use notes_md_app_be.Core.Tree.Walk.{IsBelow, IsBelow-moved, Shaped}

pub IsBelow-more :
    (n m at : ℕ) (children : List ℕ) → n ≤ m → IsBelow n at children → IsBelow m at children
IsBelow-more n m at [] le h = tt
IsBelow-more n m at (c ∷ cs) le ((deeper, inside), h) =
    ((deeper, omega (arith, le, inside)), IsBelow-more n m at cs le h)

module _ {Data : Type 0} where
  pub length-set_at :
      (nodes : List (TreeNode Data)) (at : ℕ) (x : TreeNode Data)
      → length (set_at nodes at x) ≡ length nodes
  length-set_at [] at x = refl
  length-set_at (y ∷ ys) zero x = refl
  length-set_at (y ∷ ys) (suc at) x = omega (arith, length-set_at ys at x)

  pub has_id-set_at :
      (nodes : List (TreeNode Data)) (at : ℕ) (x old : TreeNode Data) (i : ℕ) (id : String)
      → get_elem? nodes at ≡ some old
      → x.id ≡ old.id
      → has_id (get_elem? (set_at nodes at x) i) id ≡ has_id (get_elem? nodes i) id
  has_id-set_at [] at x old i id e same = refl
  has_id-set_at (y ∷ ys) zero x old zero id e same = ground (arith, e, same)
  has_id-set_at (y ∷ ys) zero x old (suc i) id e same = refl
  has_id-set_at (y ∷ ys) (suc at) x old zero id e same = refl
  has_id-set_at (y ∷ ys) (suc at) x old (suc i) id e same = has_id-set_at ys at x old i id e same

  pub Shaped-set_at :
      (n base : ℕ) (nodes : List (TreeNode Data)) (at : ℕ) (x : TreeNode Data)
      → Shaped n base nodes
      → IsBelow n (base + at) x.children
      → Shaped n base (set_at nodes at x)
  Shaped-set_at n base [] at x s b = tt
  Shaped-set_at n base (y ∷ ys) zero x (below, s) b =
      (IsBelow-moved n (base + 0) base x.children (omega arith) b, s)
  Shaped-set_at n base (y ∷ ys) (suc at) x (below, s) b = (
    below,
    Shaped-set_at n (suc base) ys at x s
        (IsBelow-moved n (base + suc at) (suc base + at) x.children (omega arith) b),
  )

  pub Shaped-append :
      (n base : ℕ) (nodes : List (TreeNode Data)) (x : TreeNode Data)
      → x.children ≡ []
      → Shaped n base nodes
      → Shaped n base (nodes ++ (x ∷ []))
  Shaped-append n base [] x leaf s = (subst (λ c. IsBelow n base c) (sym leaf) tt, tt)
  Shaped-append n base (y ∷ ys) x leaf (below, s) = (below, Shaped-append n (suc base) ys x leaf s)

  pub Shaped-more :
      (n m base : ℕ) (nodes : List (TreeNode Data))
      → n ≤ m
      → Shaped n base nodes
      → Shaped m base nodes
  Shaped-more n m base [] le s = tt
  Shaped-more n m base (y ∷ ys) le (below, s) =
      (IsBelow-more n m base y.children le below, Shaped-more n m (suc base) ys le s)

  pub has_id-append :
      (nodes : List (TreeNode Data)) (x : TreeNode Data) (i : ℕ) (id : String)
      → has_id (get_elem? nodes i) id ≡ true
      → has_id (get_elem? (nodes ++ (x ∷ [])) i) id ≡ true
  has_id-append [] x i id h = ground (arith, h)
  has_id-append (y ∷ ys) x zero id h = h
  has_id-append (y ∷ ys) x (suc i) id h = has_id-append ys x i id h

  pub has_id-last :
      (nodes : List (TreeNode Data)) (x : TreeNode Data)
      → has_id (get_elem? (nodes ++ (x ∷ [])) (length nodes)) x.id ≡ true
  has_id-last [] x = eq_refl x.id
  has_id-last (y ∷ ys) x = has_id-last ys x
