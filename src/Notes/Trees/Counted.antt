-- ===== src/Notes/Trees/Counted.antt =====
-- The limiter as it counts the children of the nodes of a tree.
use notes_md_app_be.Prelude.{
  ℕ, zero, suc, ◌+◌, ◌≤◌, ◌<◌, String, ◌≡◌, refl, sym, subst, Bool, true, false, Option, none, some,
  List, [], ◌∷◌, ◌++◌, ◌⊎◌, inl, inr, get_elem?, length, leb, str_eq, eq_iff, eq_refl, is_some,
  arith, length-append, All, All-append, some_eq, none-some, Bool-cases,
}
use notes_md_app_be.Prelude.Map
use notes_md_app_be.Prelude.Map.{Map, get-set}
use notes_md_app_be.Core.Limiters.{allow, current}
use notes_md_app_be.Core.Tree.{TreeNode, set_at, push_child}
use notes_md_app_be.Notes.Service.{Note}

-- Every node has at most as many children as its id was counted.
abbrev pub IsCounted : Map ℕ → List (TreeNode Note) → Type 0
IsCounted counters nodes = All (λ n. length n.children ≤ current counters n.id) nodes

-- The ids of a level are in the tree.
abbrev pub AreThere : Map ℕ → List String → Type 0
AreThere by_id ids = All (λ id. is_some (Map.get by_id id) ≡ true) ids

pub All-set_at {ℓ κ} :
    {A : Type ℓ} (P : A → Type κ) (xs : List A) (i : ℕ) (x : A)
    → All P xs
    → P x
    → All P (set_at xs i x)
All-set_at P [] i x h p = tt
All-set_at P (y ∷ ys) zero x (q, h) p = (p, h)
All-set_at P (y ∷ ys) (suc i) x (q, h) p = (q, All-set_at P ys i x h p)

pub All-get_elem? {ℓ κ} :
    {A : Type ℓ} (P : A → Type κ) (xs : List A) (i : ℕ) (x : A)
    → All P xs
    → get_elem? xs i ≡ some x
    → P x
All-get_elem? P [] i x h e = elim (none-some x e) [ ]
All-get_elem? P (y ∷ ys) zero x (q, h) e = subst P (some_eq y x e) q
All-get_elem? P (y ∷ ys) (suc i) x (q, h) e = All-get_elem? P ys i x h e

-- One call of the limiter: let through and counted, or nothing.
abbrev pub IsCall : ℕ → Map ℕ → String → Map ℕ × Bool → Type 0
IsCall limit counters key answer =
    (answer ≡ (counters, false))
    ⊎ ((current counters key < limit)
        × (answer ≡ (Map.set counters key (current counters key + 1), true)))

pub allow-IsCall :
    (limit : ℕ) (counters : Map ℕ) (key : String)
    → IsCall limit counters key (allow limit counters (some key))
unfolding allow
allow-IsCall limit counters key = elim (Bool-cases (str_eq key "")) [
  | inl empty ↦ inl (rw empty refl)
  | inr other ↦ elim (Bool-cases (leb limit (current counters key))) [
    | inl full ↦ inl (rw (other, full) refl)
    | inr free ↦ inr (ground (arith, free), rw (other, free) refl)
  ]
]

pub current-more :
    (counters : Map ℕ) (key k : String)
    → current counters k ≤ current (Map.set counters key (current counters key + 1)) k
current-more counters key k =
    ground (arith, get-set counters key (current counters key + 1) k, eq_iff key k)

pub current-same :
    (counters : Map ℕ) (key : String)
    → current (Map.set counters key (current counters key + 1)) key ≡ current counters key + 1
current-same counters key =
    ground (arith, get-set counters key (current counters key + 1) key, eq_refl key)

pub current-bounded :
    (limit : ℕ) (counters : Map ℕ) (key k : String)
    → current counters key < limit
    → current counters k ≤ limit
    → current (Map.set counters key (current counters key + 1)) k ≤ limit
current-bounded limit counters key k free h =
    ground (arith, get-set counters key (current counters key + 1) k, free, h)

pub AreThere-set :
    (by_id : Map ℕ) (id : String) (at : ℕ) (ids : List String)
    → AreThere by_id ids
    → AreThere (Map.set by_id id at) ids
AreThere-set by_id id at [] h = tt
AreThere-set by_id id at (k ∷ ks) (there, h) =
    (ground (arith, get-set by_id id at k, there), AreThere-set by_id id at ks h)

pub is_there :
    (by_id : Map ℕ) (id : String) (at : ℕ) → is_some (Map.get (Map.set by_id id at) id) ≡ true
is_there by_id id at = ground (arith, get-set by_id id at id, eq_refl id)

pub IsCounted-more :
    (counters : Map ℕ) (key : String) (nodes : List (TreeNode Note))
    → IsCounted counters nodes
    → IsCounted (Map.set counters key (current counters key + 1)) nodes
IsCounted-more counters key [] h = tt
IsCounted-more counters key (n ∷ ns) (le, h) =
    (omega (arith, le, current-more counters key n.id), IsCounted-more counters key ns h)

-- A child more for a node that was counted once more, and a new node without children.
pub IsCounted-push :
    (counters : Map ℕ) (nodes : List (TreeNode Note)) (at c : ℕ) (n new : TreeNode Note)
    → IsCounted counters nodes
    → get_elem? nodes at ≡ some n
    → new.children ≡ []
    → IsCounted
        (Map.set counters n.id (current counters n.id + 1))
        (push_child nodes at n c ++ (new ∷ []))
IsCounted-push counters nodes at c n new h e leaf =
    let counters' = Map.set counters n.id (current counters n.id + 1) in
    let q = All-get_elem? (λ x. length x.children ≤ current counters x.id) nodes at n h e in
    All-append (λ x. length x.children ≤ current counters' x.id) (push_child nodes at n c)
      (new ∷ [])
      (All-set_at (λ x. length x.children ≤ current counters' x.id) nodes at _
        (IsCounted-more counters n.id nodes h)
        (omega (arith, q, length-append n.children (c ∷ []), current-same counters n.id)))
      (subst (λ l. length l ≤ current counters' new.id) (sym leaf) (omega arith), tt)

pub absent_there : (found : Option ℕ) → found ≡ none → is_some found ≡ true → ⊥
absent_there found gone there = ground (arith, gone, there)

abbrev pub leaf : Note → String → TreeNode Note
leaf note parent = record { id = note.id; parent_id = some parent; datum = note; children = [] }
