-- ===== src/Notes/Import/Links/Picking.antt =====
-- Which of several candidates a link resolves to: one that no other one comes before.
use notes_md_app_be.Prelude.{
  ◌<◌, ◌≡◌, refl, sym, ap, subst, Bool, true, false, Option, none, some, List, [], ◌∷◌, ltb, length,
  if◌then◌else◌, or_else, Bool-cases, ◌⊎◌, inl, inr, arith, All,
}
use notes_md_app_be.Text.{Text}
use notes_md_app_be.Notes.Import.Links.{
  LinkTarget, ResolvedTarget, text_lt, key_of, goes_before, first_of, pick, or_next,
}

abbrev pub IsIn : LinkTarget → List LinkTarget → Type 0
IsIn t [] = ⊥
IsIn t (u ∷ us) = (u ≡ t) ⊎ IsIn t us

text_lt_asym : (a b : Text) → text_lt a b ≡ true → text_lt b a ≡ false
text_lt_asym [] [] e = refl
text_lt_asym [] (d ∷ ds) e = refl
text_lt_asym (c ∷ cs) [] e = ground (arith, e)
text_lt_asym (c ∷ cs) (d ∷ ds) e = ground (arith, e, text_lt_asym cs ds)

text_lt_none : (a c : Text) → text_lt [] a ≡ false → text_lt c a ≡ false
text_lt_none [] [] h = refl
text_lt_none [] (z ∷ zs) h = refl
text_lt_none (x ∷ xs) c h = ground (arith, h)

text_lt_irrefl : (a : Text) → text_lt a a ≡ false
text_lt_irrefl [] = refl
text_lt_irrefl (c ∷ cs) = ground (arith, text_lt_irrefl cs)

text_lt_trans : (a b c : Text) → text_lt b a ≡ false → text_lt c b ≡ false → text_lt c a ≡ false
text_lt_trans a [] [] h k = h
text_lt_trans a [] (z ∷ zs) h k = text_lt_none a (z ∷ zs) h
text_lt_trans [] (y ∷ ys) [] h k = refl
text_lt_trans (x ∷ xs) (y ∷ ys) [] h k = ground (arith, k)
text_lt_trans [] (y ∷ ys) (z ∷ zs) h k = refl
text_lt_trans (x ∷ xs) (y ∷ ys) (z ∷ zs) h k = ground (arith, h, k, text_lt_trans xs ys zs)

-- The shorter text first, and the order of code units among texts of one length.
abbrev pub IsNotAfter : Text → Text → Type 0
IsNotAfter a b = (length a < length b) ⊎ ((length a ≡ length b) × (text_lt b a ≡ false))

IsNotAfter-trans : (a b c : Text) → IsNotAfter a b → IsNotAfter b c → IsNotAfter a c
IsNotAfter-trans a b c (inl h) (inl k) = inl (omega (arith, h, k))
IsNotAfter-trans a b c (inl h) (inr (k, l)) = inl (omega (arith, h, k))
IsNotAfter-trans a b c (inr (h, l)) (inl k) = inl (omega (arith, h, k))
IsNotAfter-trans a b c (inr (h, l)) (inr (k, m)) =
    inr (omega (arith, h, k), text_lt_trans a b c l m)

kept-IsIn :
    (r best t : LinkTarget) (ts : List LinkTarget) → IsIn r (best ∷ ts) → IsIn r (best ∷ t ∷ ts)
kept-IsIn r best t ts (inl same) = inl same
kept-IsIn r best t ts (inr later) = inr (inr later)

module _ (nfc lower_case : Text → Text) where
  -- The first one's key does not stand behind that of the second one.
  abbrev pub IsBest : LinkTarget → LinkTarget → Type 0
  IsBest t u = IsNotAfter (key_of nfc lower_case t.segments) (key_of nfc lower_case u.segments)

  goes_before-IsBest : (t u : LinkTarget) → goes_before nfc lower_case t u ≡ true → IsBest t u
  unfolding goes_before
  goes_before-IsBest t u e =
      let a = key_of nfc lower_case t.segments in
      let b = key_of nfc lower_case u.segments in
      elim (Bool-cases (ltb (length a) (length b))) [
        | inl less ↦ inl (ground (arith, less))
        | inr more ↦ inr (ground (arith, e, more), text_lt_asym a b (ground (arith, e, more)))
      ]

  not_before-IsBest : (t u : LinkTarget) → goes_before nfc lower_case u t ≡ false → IsBest t u
  unfolding goes_before
  not_before-IsBest t u e =
      let a = key_of nfc lower_case t.segments in
      let b = key_of nfc lower_case u.segments in
      elim (Bool-cases (ltb (length a) (length b))) [
        | inl less ↦ inl (ground (arith, less))
        | inr more ↦
            let same : length a ≡ length b = ground (arith, e, more) in
            inr (same, ground (arith, e, same))
      ]

  IsBest-refl : (t : LinkTarget) → IsBest t t
  IsBest-refl t = inr (refl, text_lt_irrefl (key_of nfc lower_case t.segments))

  -- One of the candidates, behind none of them.
  abbrev IsChosen : LinkTarget → LinkTarget → List LinkTarget → Type 0
  IsChosen r best ts = IsIn r (best ∷ ts) × IsBest r best × All (IsBest r) ts

  -- The better one of two candidates stands for both.
  IsChosen-more :
      (first : Bool) (r best t : LinkTarget) (ts : List LinkTarget)
      → goes_before nfc lower_case t best ≡ first
      → IsChosen r (if first then t else best) ts
      → IsChosen r best (t ∷ ts)
  IsChosen-more true r best t ts e (inside, le, all) = (
    inr inside,
    IsNotAfter-trans (key_of nfc lower_case r.segments) (key_of nfc lower_case t.segments)
        (key_of nfc lower_case best.segments) le (goes_before-IsBest t best e),
    (le, all),
  )
  IsChosen-more false r best t ts e (inside, le, all) = (
    kept-IsIn r best t ts inside,
    le,
    (
      IsNotAfter-trans (key_of nfc lower_case r.segments) (key_of nfc lower_case best.segments)
          (key_of nfc lower_case t.segments) le (not_before-IsBest best t e),
      all,
    ),
  )

  first_of-IsChosen :
      (best : LinkTarget) (ts : List LinkTarget)
      → IsChosen (first_of nfc lower_case best ts) best ts
  unfolding first_of
  first_of-IsChosen best [] = (inl refl, IsBest-refl best, tt)
  first_of-IsChosen best (t ∷ ts) =
      IsChosen-more (goes_before nfc lower_case t best)
        (first_of nfc lower_case (if goes_before nfc lower_case t best then t else best) ts) best t
        ts refl (first_of-IsChosen (if goes_before nfc lower_case t best then t else best) ts)

  abbrev pub is_several : List LinkTarget → Bool
  is_several [] = false
  is_several (t ∷ []) = false
  is_several (t ∷ u ∷ us) = true

  -- None of no candidates; else the best one, and whether there are others.
  abbrev pub Resolves : List LinkTarget → Option ResolvedTarget → Type 0
  Resolves [] result = result ≡ none
  Resolves (t ∷ ts) result =
      (r : ResolvedTarget) × (result ≡ some r)
      × IsIn r.target (t ∷ ts)
      × All (IsBest r.target) (t ∷ ts)
      × (r.ambiguous ≡ is_several (t ∷ ts))

  several : (t : LinkTarget) (ts : List LinkTarget) → ltb 1 (length (t ∷ ts)) ≡ is_several (t ∷ ts)
  several t [] = refl
  several t (u ∷ us) = ground arith

  pub pick-Resolves :
      (found : Option (List LinkTarget)) → Resolves (or_else found []) (pick nfc lower_case found)
  unfolding pick
  pick-Resolves none = refl
  pick-Resolves (some []) = refl
  pick-Resolves (some (t ∷ ts)) =
      let (inside, le, all) = first_of-IsChosen t ts in
      (
        record { target = first_of nfc lower_case t ts; ambiguous = ltb 1 (length (t ∷ ts)) },
        refl,
        inside,
        (le, all),
        several t ts,
      )

  -- The candidates of the first kind that has any.
  abbrev pub or_others : List LinkTarget → List LinkTarget → List LinkTarget
  or_others [] us = us
  or_others (t ∷ ts) us = t ∷ ts

  pub or_next-Resolves :
      (ts us : List LinkTarget) (r s : Option ResolvedTarget)
      → Resolves ts r
      → Resolves us s
      → Resolves (or_others ts us) (or_next nfc lower_case r s)
  or_next-Resolves [] us r s h k = subst (λ x. Resolves us (or_next nfc lower_case x s)) (sym h) k
  or_next-Resolves (t ∷ ts) us r s (x, e, inside, best, several) k =
      (x, ap (λ y. or_next nfc lower_case y s) e, inside, best, several)
