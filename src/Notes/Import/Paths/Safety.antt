-- ===== src/Notes/Import/Paths/Safety.antt =====
-- What a path that is accepted is made of.
use notes_md_app_be.Prelude.{
  ℕ, ◌≡◌, refl, sym, ap, Bool, true, false, not, ◌||◌, List, [], ◌∷◌, ◌++◌, ◌==◌, All, All-zip,
  arith, Bool-cases, inl, inr, if_either, ==_iff, subst, ◌∙◌,
}
use notes_md_app_be.Text.{Text, is_nonempty, trim, any}
use notes_md_app_be.Notes.Import.Paths.{
  check_path, NormalizedImportPath, accepted, invalid_path, hidden, slash, backslash, dot,
  is_control, has_drive, starts_with, slashes, cons_first, split, is_bad, some_segment,
  check_segments, normalize_import_path,
}

-- `segments.join('/')`
abbrev pub join : List Text → Text
join [] = []
join (s ∷ []) = s
join (s ∷ t ∷ ss) = s ++ slash ∷ join (t ∷ ss)

-- A segment that names one note: no separator of either kind and no control character in it, not
-- blank, and not starting with a dot, so not a step to a parent either.
pub record IsSafe (segment : Text) : Type 0 where
  pub no_slash : any (λ c. c == slash) segment ≡ false
  pub no_backslash : any (λ c. c == backslash) segment ≡ false
  pub no_control : any is_control segment ≡ false
  pub not_blank : is_nonempty (trim segment) ≡ true
  pub not_hidden : starts_with dot segment ≡ false

join-cons_first : (c : ℕ) (ss : List Text) → join (cons_first c ss) ≡ c ∷ join ss
unfolding cons_first
join-cons_first c [] = refl
join-cons_first c (s ∷ []) = refl
join-cons_first c (s ∷ t ∷ ss) = refl

split-cons : (t : Text) → (s : Text) × ((ss : List Text) × (split t ≡ s ∷ ss))
unfolding split cons_first
split-cons [] = ([], ([], refl))
split-cons (c ∷ cs) =
    let (s, (ss, e)) = split-cons cs in
    if_either (λ x. (s : Text) × ((ss : List Text) × (x ≡ s ∷ ss))) (c == slash)
      ([], (split cs, refl)) (c ∷ s, (ss, ap (cons_first c) e))

or_left : (a b : Bool) → (a || b) ≡ false → a ≡ false
or_left a b h = ground (arith, h)

or_right : (a b : Bool) → (a || b) ≡ false → b ≡ false
or_right a b h = ground (arith, h)

join-empty : (t : Text) → join ([] ∷ split t) ≡ slash ∷ join (split t)
unfolding split cons_first
join-empty t = let (s, (ss, e)) = split-cons t in rw e refl

join-split : (t : Text) → join (split t) ≡ t
unfolding split
join-split [] = refl
join-split (c ∷ cs) = elim (Bool-cases (c == slash)) [
  | inl e ↦ rw e (
      join-empty cs
      ∙ (ap (λ x. slash ∷ x) (join-split cs) ∙ ap (λ x. x ∷ cs) (sym ((==_iff c slash).0 e))))
  | inr e ↦ rw e (join-cons_first c (split cs) ∙ ap (λ x. c ∷ x) (join-split cs))
]

All-cons_first :
    (p : ℕ → Bool) (c : ℕ) (ss : List Text)
    → p c ≡ false
    → All (λ s. any p s ≡ false) ss
    → All (λ s. any p s ≡ false) (cons_first c ss)
unfolding cons_first any
All-cons_first p c [] h a = (rw h refl, tt)
All-cons_first p c (s ∷ ss) h (b, a) = (rw (h, b) refl, a)

All-split : (p : ℕ → Bool) (t : Text) → any p t ≡ false → All (λ s. any p s ≡ false) (split t)
unfolding split any
All-split p [] h = (refl, tt)
All-split p (c ∷ cs) h = elim (Bool-cases (c == slash)) [
  | inl e ↦ rw e (refl, All-split p cs (or_right (p c) (any p cs) h))
  | inr e ↦ rw e (
      All-cons_first p c (split cs) (or_left (p c) (any p cs) h)
        (All-split p cs (or_right (p c) (any p cs) h)))
]

All-split-slash : (t : Text) → All (λ s. any (λ c. c == slash) s ≡ false) (split t)
unfolding split any
All-split-slash [] = (refl, tt)
All-split-slash (c ∷ cs) = elim (Bool-cases (c == slash)) [
  | inl e ↦ rw e (refl, All-split-slash cs)
  | inr e ↦ rw e (All-cons_first (λ x. x == slash) c (split cs) e (All-split-slash cs))
]

any-slashes : (t : Text) → any (λ c. c == backslash) (slashes t) ≡ false
unfolding any slashes
any-slashes [] = refl
any-slashes (c ∷ cs) = ground (arith, any-slashes cs)

All-some_segment :
    (p : Text → Bool) (ss : List Text) → some_segment p ss ≡ false → All (λ s. p s ≡ false) ss
unfolding some_segment
All-some_segment p [] h = tt
All-some_segment p (s ∷ ss) h = (
  or_left (p s) (some_segment p ss) h,
  All-some_segment p ss (or_right (p s) (some_segment p ss) h),
)

not_bad : (s : Text) → is_bad s ≡ false → is_nonempty (trim s) ≡ true
not_bad s h = ground (arith, h)

IsSafe-zip :
    (t : Text)
    → any is_control t ≡ false
    → any (λ c. c == backslash) t ≡ false
    → some_segment is_bad (split t) ≡ false
    → some_segment (starts_with dot) (split t) ≡ false
    → All IsSafe (split t)
IsSafe-zip t control back bad dots =
    let marks =
      All-zip {P = λ s. any (λ c. c == slash) s ≡ false}
        {Q = λ s. any (λ c. c == backslash) s ≡ false}
        {R = λ s. (any (λ c. c == slash) s ≡ false) × (any (λ c. c == backslash) s ≡ false)}
        (λ s a b. (a, b)) (split t) (All-split-slash t) (All-split (λ c. c == backslash) t back) in
    let starts =
      All-zip {P = λ s. is_bad s ≡ false} {Q = λ s. starts_with dot s ≡ false}
        {R = λ s. (is_bad s ≡ false) × (starts_with dot s ≡ false)} (λ s a b. (a, b)) (split t)
        (All-some_segment is_bad (split t) bad)
        (All-some_segment (starts_with dot) (split t) dots) in
    let both =
      All-zip {P = λ s. (any (λ c. c == slash) s ≡ false) × (any (λ c. c == backslash) s ≡ false)}
        {Q = λ s. any is_control s ≡ false}
        {R = λ s.
          ((any (λ c. c == slash) s ≡ false) × (any (λ c. c == backslash) s ≡ false))
          × (any is_control s ≡ false)}
        (λ s a b. (a, b)) (split t) marks (All-split is_control t control) in
    All-zip
      {P = λ s.
        ((any (λ c. c == slash) s ≡ false) × (any (λ c. c == backslash) s ≡ false))
        × (any is_control s ≡ false)}
      {Q = λ s. (is_bad s ≡ false) × (starts_with dot s ≡ false)}
      (λ s ((no_slash, no_backslash), no_control) (bad, not_hidden). record {
        no_slash = no_slash;
        no_backslash = no_backslash;
        no_control = no_control;
        not_blank = not_bad s bad;
        not_hidden = not_hidden;
      })
      (split t) both starts

-- What the answer says of the normalized text.
abbrev pub IsSound : Text → NormalizedImportPath → Type 0
IsSound t (accepted segments) = All IsSafe segments × (join segments ≡ t)
IsSound t invalid_path = Unit
IsSound t hidden = Unit

check_segments-IsSound :
    (t : Text)
    → any is_control t ≡ false
    → any (λ c. c == backslash) t ≡ false
    → IsSound t (check_segments (split t))
unfolding check_segments
check_segments-IsSound t control back = elim (Bool-cases (some_segment is_bad (split t))) [
  | inl bad ↦ rw bad tt
  | inr fine ↦ elim (Bool-cases (some_segment (starts_with dot) (split t))) [
    | inl dots ↦ rw (fine, dots) tt
    | inr shown ↦ rw (fine, shown) (IsSafe-zip t control back fine shown, join-split t)
  ]
]

check_path-IsSound : (t : Text) → any (λ c. c == backslash) t ≡ false → IsSound t (check_path t)
unfolding check_path
check_path-IsSound t back =
    elim (Bool-cases
      (not (is_nonempty t) || (starts_with slash t || (has_drive t || any is_control t)))) [
        | inl wrong ↦ rw wrong tt
        | inr right ↦
            let shown =
              or_right (not (is_nonempty t))
                (starts_with slash t || (has_drive t || any is_control t)) right in
            let control =
              or_right (has_drive t) (any is_control t)
                (or_right (starts_with slash t) (has_drive t || any is_control t) shown) in
            rw right (check_segments-IsSound t control back)
      ]

-- Every segment of an accepted path is safe, and the segments joined by slashes are the normalized
-- path.
pub normalize_import_path-IsSafe :
    (nfc : Text → Text) (path : Text) (segments : List Text)
    → normalize_import_path nfc path ≡ accepted segments
    → All IsSafe segments × (join segments ≡ slashes (nfc path))
unfolding normalize_import_path
normalize_import_path-IsSafe nfc path segments e =
    subst (IsSound (slashes (nfc path))) e
      (check_path-IsSound (slashes (nfc path)) (any-slashes (nfc path)))

slashes-slashes : (t : Text) → slashes (slashes t) ≡ slashes t
unfolding slashes
slashes-slashes [] = refl
slashes-slashes (c ∷ cs) = elim (Bool-cases (c == backslash)) [
  | inl e ↦ rw e (ap (λ x. slash ∷ x) (slashes-slashes cs))
  | inr e ↦ rw (e, e) (ap (λ x. c ∷ x) (slashes-slashes cs))
]

-- The path under which an accepted file is kept, its segments joined by slashes, is accepted again
-- with the same segments, if the Unicode normalization leaves it as it is.
pub normalize_import_path-join :
    (nfc : Text → Text) (path : Text) (segments : List Text)
    → normalize_import_path nfc path ≡ accepted segments
    → nfc (join segments) ≡ join segments
    → normalize_import_path nfc (join segments) ≡ accepted segments
unfolding normalize_import_path
normalize_import_path-join nfc path segments e n =
    let same = (normalize_import_path-IsSafe nfc path segments e).1 in
    ap check_path (ap slashes (n ∙ same) ∙ slashes-slashes (nfc path)) ∙ e
