-- ===== src/Notes/Import/Plan/Order.antt =====
-- The order of the planned notes.
use notes_md_app_be.Prelude.{
  ℕ, ◌+◌, ◌≤◌, String, ◌≡◌, refl, true, false, Option, none, some, List, [], ◌∷◌, eq_iff, eq_refl,
  arith, Bool-cases, inl, inr, ◌⊎◌,
}
use notes_md_app_be.Notes.Import.Plan.{Draft, PlannedNote, has, keeps, sweep, numbered, plan_notes}
use notes_md_app_be.Notes.Import.Plan.Pruning.{
  is_parent, knows, IsPreorder, survivors, has-cons, children, children-survivors, children-dropped,
  kept-eq-survivors,
}

pub has-nil : (p : String) → has [] p ≡ false
unfolding has
has-nil p = refl

module _ (linked : List String) where
  knows_kept :
      (o : Option String) (seen stay : List String) (n : String → ℕ)
      → knows seen o ≡ true
      → ((p : String) → has seen p ≡ true → (has stay p ≡ true) ⊎ (n p ≡ 0))
      → ((p : String) → is_parent p o ≡ true → 1 ≤ n p)
      → knows stay o ≡ true
  knows_kept none seen stay n k c one = refl
  knows_kept (some p) seen stay n k c one = ground (arith, c p k, one p (eq_refl p))

  -- What is kept of a preorder is one too.
  survivors-IsPreorder :
      (ds : List Draft) (seen stay : List String)
      → IsPreorder seen ds
      → ((p : String) → has seen p ≡ false → has stay p ≡ false)
      → ((p : String)
          → has seen p ≡ true
          → (has stay p ≡ true) ⊎ (children (survivors linked ds) p ≡ 0))
      → IsPreorder stay (survivors linked ds)
  unfolding survivors
  survivors-IsPreorder [] seen stay h sub c = tt
  survivors-IsPreorder (d ∷ ds) seen stay (ne, (new, (k, h))) sub c =
      elim (Bool-cases (keeps linked (sweep linked ds).child_count d)) [
        | inl t ↦ rw t (
          ne,
          (
            sub d.node.id new,
            (
              knows_kept d.node.parent_id seen stay (children (survivors linked (d ∷ ds))) k c
                  (λ p e. rw (children-survivors linked d ds p, t, e) (omega arith)),
              survivors-IsPreorder ds (d.node.id ∷ seen) (d.node.id ∷ stay) h
                  (λ p e.
                    ground (arith, has-cons d.node.id seen p, has-cons d.node.id stay p, sub p))
                  (λ p e. ground (
                    arith,
                    has-cons d.node.id seen p,
                    has-cons d.node.id stay p,
                    c p,
                    children-survivors linked d ds p,
                  )),
            ),
          ),
        )
        | inr t ↦ rw t (
            survivors-IsPreorder ds (d.node.id ∷ seen) stay h
              (λ p e. ground (arith, has-cons d.node.id seen p, sub p))
              (λ p e. ground (
                arith,
                has-cons d.node.id seen p,
                eq_iff d.node.id p,
                c p,
                children-survivors linked d ds p,
                children-dropped linked d ds ne t,
              )))
      ]

-- Each planned note has a new id and comes after its parent.
abbrev pub IsParentsFirst : List String → List PlannedNote → Type 0
IsParentsFirst seen [] = Unit
IsParentsFirst seen (n ∷ ns) =
    (has seen n.id ≡ false) × ((knows seen n.parent_id ≡ true) × IsParentsFirst (n.id ∷ seen) ns)

abbrev pub HasOrders : ℕ → List PlannedNote → Type 0
HasOrders i [] = Unit
HasOrders i (n ∷ ns) = (n.order ≡ i) × HasOrders (i + 1) ns

numbered-IsParentsFirst :
    (ds : List Draft) (i : ℕ) (seen : List String)
    → IsPreorder seen ds
    → IsParentsFirst seen (numbered i ds)
unfolding numbered
numbered-IsParentsFirst [] i seen h = tt
numbered-IsParentsFirst (d ∷ ds) i seen (ne, (new, (k, h))) =
    (new, (k, numbered-IsParentsFirst ds (i + 1) (d.node.id ∷ seen) h))

numbered-HasOrders : (ds : List Draft) (i : ℕ) → HasOrders i (numbered i ds)
unfolding numbered
numbered-HasOrders [] i = tt
numbered-HasOrders (d ∷ ds) i = (refl, numbered-HasOrders ds (i + 1))

-- For a tree in preorder, the planned notes have different ids, the parent of each is one that comes
-- before it (or the note has none), and they are numbered from 0 on.
pub plan_notes-IsParentsFirst :
    (linked : List String) (ds : List Draft)
    → IsPreorder [] ds
    → IsParentsFirst [] (plan_notes linked ds) × HasOrders 0 (plan_notes linked ds)
unfolding plan_notes
plan_notes-IsParentsFirst linked ds h = rw (kept-eq-survivors linked ds [] h) (
  numbered-IsParentsFirst (survivors linked ds) 0 []
      (survivors-IsPreorder linked ds [] [] h (λ p e. e) (λ p e. ground (arith, has-nil p))),
  numbered-HasOrders (survivors linked ds) 0,
)
