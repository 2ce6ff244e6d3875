-- ===== src/Notes/Import/Plan/Pruning.antt =====
-- Which notes are left: no note loses its parent, and no folder is left with nothing in it.
use notes_md_app_be.Prelude.{
  ap, ℕ, ◌+◌, String, ◌≡◌, ◌≢◌, refl, Bool, true, false, Option, none, some, List, [], ◌∷◌,
  if◌then◌else◌, or_else, count_if, str_eq, eq_iff, eq_refl, arith, Bool-cases, inl, inr, ◌∙◌,
}
use notes_md_app_be.Prelude.Map
use notes_md_app_be.Prelude.Map.{Map, get-set}
use notes_md_app_be.Notes.Import.Plan.{without, Draft, has, keeps, count_child, visit, sweep, kept}

abbrev pub is_parent : String → Option String → Bool
is_parent p none = false
is_parent p (some q) = str_eq q p

abbrev pub ids : List Draft → List String
ids [] = []
ids (d ∷ ds) = d.node.id ∷ ids ds

abbrev pub knows : List String → Option String → Bool
knows seen none = true
knows seen (some p) = has seen p

-- Each id is new and not empty, and each parent comes before its children.
abbrev pub IsPreorder : List String → List Draft → Type 0
IsPreorder seen [] = Unit
IsPreorder seen (d ∷ ds) =
    (d.node.id ≢ "")
    × ((has seen d.node.id ≡ false)
        × ((knows seen d.node.parent_id ≡ true) × IsPreorder (d.node.id ∷ seen) ds))

-- How many kept drafts are children of the note.
abbrev pub children : List Draft → String → ℕ
children ds p = count_if (λ d. is_parent p d.node.parent_id) ds

-- The drafts that are kept, each decided by the ones behind it.
unfoldable pub survivors : List String → List Draft → List Draft
survivors linked [] = []
survivors linked (d ∷ ds) =
    let rest = survivors linked ds in
    if keeps linked (sweep linked ds).child_count d then d ∷ rest else rest

pub has-cons :
    (x : String) (xs : List String) (i : String)
    → has (x ∷ xs) i ≡ (if str_eq x i then true else has xs i)
unfolding has
has-cons x xs i = refl

pub has_later :
    (ds : List Draft) (seen : List String) (i : String)
    → IsPreorder seen ds
    → has seen i ≡ true
    → has (ids ds) i ≡ false
unfolding has
has_later [] seen i h e = refl
has_later (d ∷ ds) seen i (ne, (new, (k, h))) e =
    ground
      (arith, eq_iff d.node.id i, has_later ds (d.node.id ∷ seen) i h, has-cons d.node.id seen i)

pub has_head :
    (ds : List Draft) (seen : List String) (i : String)
    → IsPreorder (i ∷ seen) ds
    → has (ids ds) i ≡ false
has_head ds seen i h = has_later ds (i ∷ seen) i h (has-cons i seen i ∙ rw (eq_refl i) refl)

count_child_lem :
    (m : Map ℕ) (o : Option String) (p : String)
    → p ≢ ""
    → or_else (Map.get (count_child m o) p) 0
      ≡ (if is_parent p o then 1 else 0) + or_else (Map.get m p) 0
unfolding count_child
count_child_lem m none p h = omega arith
count_child_lem m (some q) p h =
    ground (arith, eq_iff q "", eq_iff q p, get-set m q (or_else (Map.get m q) 0 + 1) p)

module _ (linked : List String) where
  pub removed-sweep :
      (ds : List Draft) (i : String)
      → has (ids ds) i ≡ false
      → has (sweep linked ds).removed i ≡ false
  unfolding sweep visit has
  removed-sweep [] i a = refl
  removed-sweep (d ∷ ds) i a = ground (arith, removed-sweep ds i, eq_iff d.node.id i)

  pub child_count-sweep :
      (ds : List Draft) (p : String)
      → p ≢ ""
      → or_else (Map.get (sweep linked ds).child_count p) 0
        ≡ count_if (λ d. is_parent p d.node.parent_id) (survivors linked ds)
  unfolding sweep visit survivors Map.get
  child_count-sweep [] p h = refl
  child_count-sweep (d ∷ ds) p h =
      elim (Bool-cases (keeps linked (sweep linked ds).child_count d)) [
        | inl k ↦ rw k (
            ground (
              arith,
              count_child_lem (sweep linked ds).child_count d.node.parent_id p h,
              child_count-sweep ds p h,
            ))
        | inr k ↦ rw k (child_count-sweep ds p h)
      ]

  without_fresh :
      (ds : List Draft) (r : List String) (i : String)
      → has (ids ds) i ≡ false
      → without (i ∷ r) ds ≡ without r ds
  unfolding has without
  without_fresh [] r i a = refl
  without_fresh (d ∷ ds) r i a =
      ground (arith, eq_iff d.node.id i, eq_iff i d.node.id, without_fresh ds r i)

  pub removed-visit :
      (d : Draft) (ds : List Draft)
      → (sweep linked (d ∷ ds)).removed ≡ (
          if keeps linked (sweep linked ds).child_count d
          then (sweep linked ds).removed
          else d.node.id ∷ (sweep linked ds).removed)
  unfolding sweep visit
  removed-visit d ds = ground arith

  without-cons :
      (d : Draft) (ds : List Draft) (r : List String)
      → without r (d ∷ ds) ≡ (if has r d.node.id then without r ds else d ∷ without r ds)
  unfolding without
  without-cons d ds r = refl

  without-eq-survivors :
      (ds : List Draft) (seen : List String)
      → IsPreorder seen ds
      → without (sweep linked ds).removed ds ≡ survivors linked ds
  unfolding survivors without
  without-eq-survivors [] seen h = refl
  without-eq-survivors (d ∷ ds) seen (ne, (new, (k, h))) =
      let absent = has_head ds seen d.node.id h in
      elim (Bool-cases (keeps linked (sweep linked ds).child_count d)) [
        | inl t ↦
            rw
              (
                without-cons d ds (sweep linked (d ∷ ds)).removed,
                removed-visit d ds,
                t,
                removed-sweep ds d.node.id absent,
              )
              (ap (λ rest. d ∷ rest) (without-eq-survivors ds (d.node.id ∷ seen) h))
        | inr t ↦
            rw
              (
                without-cons d ds (sweep linked (d ∷ ds)).removed,
                removed-visit d ds,
                t,
                has-cons d.node.id (sweep linked ds).removed d.node.id,
                eq_refl d.node.id,
                without_fresh ds (sweep linked ds).removed d.node.id absent,
              )
              (without-eq-survivors ds (d.node.id ∷ seen) h)
      ]

  pub kept-eq-survivors :
      (ds : List Draft) (seen : List String)
      → IsPreorder seen ds
      → kept linked ds ≡ survivors linked ds
  unfolding kept
  kept-eq-survivors ds seen h = without-eq-survivors ds seen h

  pub children-survivors :
      (d : Draft) (ds : List Draft) (p : String)
      → children (survivors linked (d ∷ ds)) p
        ≡ (if keeps linked (sweep linked ds).child_count d
            then (if is_parent p d.node.parent_id then 1 else 0)
            else 0)
          + children (survivors linked ds) p
  unfolding survivors
  children-survivors d ds p = ground arith

  -- A draft that is not kept has no child that is.
  pub children-dropped :
      (d : Draft) (ds : List Draft)
      → d.node.id ≢ ""
      → keeps linked (sweep linked ds).child_count d ≡ false
      → children (survivors linked ds) d.node.id ≡ 0
  unfolding keeps
  children-dropped d ds ne t = ground (arith, child_count-sweep ds d.node.id ne)
