-- ===== src/Notes/Service/Sorting.antt =====
-- The hits of a search in the order of their ranks.
use mathlib.Core.List.Perm
use mathlib.Core.List.{Perm}
use notes_md_app_be.Prelude.{
  ℕ, suc, ◌≤◌, String, ◌≡◌, refl, sym, ap, ◌∙◌, Bool, true, false, List, [], ◌∷◌, str_eq, eq_iff,
  arith, length, Bool-cases, if_either, inl, inr, All, if◌then◌else◌,
}
use notes_md_app_be.Core.Selectors.{includes}
use notes_md_app_be.Notes.Service.{
  Rank, best_first, worst_first, RankedId, row_ids, sort, insert, comes_before,
}
use notes_md_app_be.Notes.Service.Paging.{IsUnique}

-- A hit of rank `b` may stand behind one of rank `a`.
abbrev pub IsBehind : Rank → ℕ → ℕ → Type 0
IsBehind best_first a b = b ≤ a
IsBehind worst_first a b = a ≤ b

abbrev pub IsRanked : Rank → List RankedId → Type 0
IsRanked rank [] = Unit
IsRanked rank (x ∷ xs) = All (λ y. IsBehind rank x.rank y.rank) xs × IsRanked rank xs

module _ (locale : String → String → Bool) where
  not_before :
      (rank : Rank) (x y : RankedId)
      → comes_before locale rank y x ≡ false
      → IsBehind rank x.rank y.rank
  not_before best_first x y e = ground (arith, e)
  not_before worst_first x y e = ground (arith, e)

  before :
      (rank : Rank) (x y : RankedId)
      → comes_before locale rank y x ≡ true
      → IsBehind rank y.rank x.rank
  before best_first x y e = ground (arith, e)
  before worst_first x y e = ground (arith, e)

  behind_trans :
      (rank : Rank) (a b : ℕ) (ys : List RankedId)
      → IsBehind rank a b
      → All (λ y. IsBehind rank b y.rank) ys
      → All (λ y. IsBehind rank a y.rank) ys
  behind_trans rank a b [] h k = tt
  behind_trans best_first a b (y ∷ ys) h (q, k) =
      (omega (arith, h, q), behind_trans best_first a b ys h k)
  behind_trans worst_first a b (y ∷ ys) h (q, k) =
      (omega (arith, h, q), behind_trans worst_first a b ys h k)

  All-insert :
      (P : RankedId → Type 0) (test : RankedId → RankedId → Bool) (x : RankedId)
      (ys : List RankedId)
      → P x
      → All P ys
      → All P (insert test x ys)
  unfolding insert
  All-insert P test x [] p h = (p, tt)
  All-insert P test x (y ∷ ys) p (q, h) =
      if_either (All P) (test y x) (q, All-insert P test x ys p h) (p, (q, h))

  insert-IsRanked :
      (rank : Rank) (x : RankedId) (ys : List RankedId)
      → IsRanked rank ys
      → IsRanked rank (insert (comes_before locale rank) x ys)
  unfolding insert
  insert-IsRanked rank x [] h = (tt, tt)
  insert-IsRanked rank x (y ∷ ys) (below, h) = elim (Bool-cases (comes_before locale rank y x)) [
    | inl first ↦ rw first (
      All-insert (λ z. IsBehind rank y.rank z.rank) (comes_before locale rank) x ys
          (before rank x y first) below,
      insert-IsRanked rank x ys h,
    )
    | inr other ↦
        let le = not_before rank x y other in
        rw other ((le, behind_trans rank x.rank y.rank ys le below), (below, h))
  ]

  pub sort-IsRanked :
      (rank : Rank) (hits : List RankedId) → IsRanked rank (sort (comes_before locale rank) hits)
  unfolding sort
  sort-IsRanked rank [] = tt
  sort-IsRanked rank (x ∷ xs) = insert-IsRanked rank x _ (sort-IsRanked rank xs)

length-row_ids : (hits : List RankedId) → length hits ≡ length (row_ids hits)
length-row_ids [] = refl
length-row_ids (x ∷ xs) = ap suc (length-row_ids xs)

module _ (test : RankedId → RankedId → Bool) where
  insert-perm : (x : RankedId) (ys : List RankedId) → Perm (insert test x ys) (x ∷ ys)
  unfolding insert
  insert-perm x [] = Perm.rfl
  insert-perm x (y ∷ ys) = elim (Bool-cases (test y x)) [
    | inl first ↦ rw first (Perm.trans (Perm.cons y (insert-perm x ys)) (Perm.swap x y ys))
    | inr other ↦ rw other Perm.rfl
  ]

  pub sort-perm : (xs : List RankedId) → Perm (sort test xs) xs
  unfolding sort
  sort-perm [] = Perm.rfl
  sort-perm (x ∷ xs) = Perm.trans (insert-perm x (sort test xs)) (Perm.cons x (sort-perm xs))

  length-insert : (x : RankedId) (ys : List RankedId) → length (insert test x ys) ≡ suc (length ys)
  unfolding insert
  length-insert x [] = refl
  length-insert x (y ∷ ys) = ground (arith, length-insert x ys)

  length-sort : (xs : List RankedId) → length (sort test xs) ≡ length xs
  unfolding sort
  length-sort [] = refl
  length-sort (x ∷ xs) = length-insert x (sort test xs) ∙ ap suc (length-sort xs)

  pub length-row_ids-sort : (xs : List RankedId) → length xs ≡ length (row_ids (sort test xs))
  length-row_ids-sort xs = sym (length-sort xs) ∙ length-row_ids (sort test xs)

  includes-insert :
      (x : RankedId) (ys : List RankedId) (k : String)
      → includes (row_ids (insert test x ys)) k
        ≡ (if str_eq x.id k then true else includes (row_ids ys) k)
  unfolding insert includes
  includes-insert x [] k = refl
  includes-insert x (y ∷ ys) k = ground (arith, includes-insert x ys k)

  includes-sort :
      (xs : List RankedId) (k : String)
      → includes (row_ids (sort test xs)) k ≡ includes (row_ids xs) k
  unfolding sort includes
  includes-sort [] k = refl
  includes-sort (x ∷ xs) k = ground (arith, includes-insert x (sort test xs) k, includes-sort xs k)

  insert-IsUnique :
      (x : RankedId) (ys : List RankedId)
      → IsUnique (row_ids (x ∷ ys))
      → IsUnique (row_ids (insert test x ys))
  unfolding insert includes
  insert-IsUnique x [] h = h
  insert-IsUnique x (y ∷ ys) (n, (fresh, (m, (absent, u)))) = elim (Bool-cases (test y x)) [
    | inl first ↦ rw first (
      m,
      (
        ground
            (arith, includes-insert x ys y.id, eq_iff x.id y.id, eq_iff y.id x.id, absent, fresh),
        insert-IsUnique x ys (n, (ground (arith, fresh), u)),
      ),
    )
    | inr other ↦ rw other (n, (fresh, (m, (absent, u))))
  ]

  pub sort-IsUnique :
      (xs : List RankedId) → IsUnique (row_ids xs) → IsUnique (row_ids (sort test xs))
  unfolding sort
  sort-IsUnique [] h = tt
  sort-IsUnique (x ∷ xs) (n, (fresh, u)) =
      insert-IsUnique x (sort test xs) (n, (includes-sort xs x.id ∙ fresh, sort-IsUnique xs u))

  All-insert_ids :
      (P : String → Type 0) (x : RankedId) (ys : List RankedId)
      → P x.id
      → All P (row_ids ys)
      → All P (row_ids (insert test x ys))
  unfolding insert
  All-insert_ids P x [] p h = (p, tt)
  All-insert_ids P x (y ∷ ys) p (q, h) =
      if_either (λ l. All P (row_ids l)) (test y x) (q, All-insert_ids P x ys p h) (p, (q, h))

  pub All-sort :
      (P : String → Type 0) (xs : List RankedId)
      → All P (row_ids xs)
      → All P (row_ids (sort test xs))
  unfolding sort
  All-sort P [] h = tt
  All-sort P (x ∷ xs) (p, h) = All-insert_ids P x (sort test xs) p (All-sort P xs h)
