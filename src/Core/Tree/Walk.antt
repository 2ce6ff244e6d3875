-- ===== src/Core/Tree/Walk.antt =====
-- The walk of a tree ends.
use notes_md_app_be.Prelude.{
  ℕ, zero, suc, ◌+◌, ◌<◌, ◌≤◌, ◌≡◌, refl, subst, Option, some, List, [], ◌∷◌, ◌++◌, get_elem?,
  length, arith, All, some_eq,
}
use notes_md_app_be.Core.Tree.{TreeNode, depth_first_search, visit_all}

-- A child stands in the store, behind its parent.
abbrev pub IsBelow : ℕ → ℕ → List ℕ → Type 0
IsBelow n at children = All (λ c. (at < c) × (c < n)) children

abbrev pub Shaped : {Data : Type 0} → ℕ → ℕ → List (TreeNode Data) → Type 0
Shaped n at [] = Unit
Shaped n at (x ∷ xs) = IsBelow n at x.children × Shaped n (suc at) xs

abbrev pub IsShaped : {Data : Type 0} → List (TreeNode Data) → Type 0
IsShaped nodes = Shaped (length nodes) 0 nodes

pub get_elem?-some {ℓ} :
    {A : Type ℓ} (xs : List A) (i : ℕ) → i < length xs → (x : A) × (get_elem? xs i ≡ some x)
get_elem?-some [] i h = ground (arith, h)
get_elem?-some (x ∷ xs) zero h = (x, refl)
get_elem?-some (x ∷ xs) (suc i) h = get_elem?-some xs i (omega (arith, h))

pub IsBelow-moved :
    (n a b : ℕ) (children : List ℕ) → a ≡ b → IsBelow n a children → IsBelow n b children
IsBelow-moved n a b children e h = subst (λ x. IsBelow n x children) e h

visit_all-some :
    (visit : ℕ → Option (List ℕ)) (cs : List ℕ)
    → All (λ c. (xs : List ℕ) × (visit c ≡ some xs)) cs
    → (xs : List ℕ) × (visit_all visit cs ≡ some xs)
unfolding visit_all
visit_all-some visit [] h = ([], refl)
visit_all-some visit (c ∷ cs) ((xs, e), h) =
    let (ys, f) = visit_all-some visit cs h in (xs ++ ys, rw (e, f) refl)

module _ {Data : Type 0} where
  pub Shaped-get_elem? :
      (n at : ℕ) (nodes : List (TreeNode Data)) (i : ℕ) (x : TreeNode Data)
      → Shaped n at nodes
      → get_elem? nodes i ≡ some x
      → IsBelow n (at + i) x.children
  Shaped-get_elem? n at [] i x h e = ground (arith, e)
  Shaped-get_elem? n at (y ∷ ys) zero x (below, h) e =
      IsBelow-moved n at (at + 0) x.children (omega arith)
        (subst (λ z. IsBelow n at z.children) (some_eq y x e) below)
  Shaped-get_elem? n at (y ∷ ys) (suc i) x (below, h) e =
      IsBelow-moved n (suc at + i) (at + suc i) x.children (omega arith)
        (Shaped-get_elem? n (suc at) ys i x h e)

  pub get_elem?-IsBelow :
      (nodes : List (TreeNode Data)) (at : ℕ) (x : TreeNode Data)
      → IsShaped nodes
      → get_elem? nodes at ≡ some x
      → IsBelow (length nodes) at x.children
  get_elem?-IsBelow nodes at x s e =
      IsBelow-moved (length nodes) (0 + at) at x.children (omega arith)
        (Shaped-get_elem? (length nodes) 0 nodes at x s e)

  -- The children's walks end when those of the deeper addresses do.
  visited :
      (fuel : ℕ) (nodes : List (TreeNode Data)) (at : ℕ) (children : List ℕ)
      → ((c : ℕ)
          → c < length nodes
          → length nodes ≤ fuel + c
          → (xs : List ℕ) × (depth_first_search fuel nodes c ≡ some xs))
      → length nodes ≤ suc fuel + at
      → IsBelow (length nodes) at children
      → All (λ c. (xs : List ℕ) × (depth_first_search fuel nodes c ≡ some xs)) children
  visited fuel nodes at [] walk enough h = tt
  visited fuel nodes at (c ∷ cs) walk enough ((deeper, inside), h) =
      (walk c inside (omega (arith, enough, deeper)), visited fuel nodes at cs walk enough h)

  depth_first_search-some :
      (fuel : ℕ) (nodes : List (TreeNode Data)) (at : ℕ)
      → IsShaped nodes
      → at < length nodes
      → length nodes ≤ fuel + at
      → (xs : List ℕ) × (depth_first_search fuel nodes at ≡ some xs)
  unfolding depth_first_search
  depth_first_search-some zero nodes at s inside enough = ground (arith, inside, enough)
  depth_first_search-some (suc fuel) nodes at s inside enough =
      let (x, e) = get_elem?-some nodes at inside in
      let (ys, f) = visit_all-some (depth_first_search fuel nodes) x.children (
        visited fuel nodes at x.children (λ c. depth_first_search-some fuel nodes c s) enough
          (get_elem?-IsBelow nodes at x s e)) in
      (at ∷ ys, rw (e, f) refl)

  -- The walk from any node of a well-formed store ends, within a recursion as deep as there are
  -- nodes.
  pub depth_first_search-ends :
      (nodes : List (TreeNode Data)) (at : ℕ)
      → IsShaped nodes
      → at < length nodes
      → (xs : List ℕ) × (depth_first_search (length nodes) nodes at ≡ some xs)
  depth_first_search-ends nodes at s inside =
      depth_first_search-some (length nodes) nodes at s inside (omega arith)
