-- ===== src/Notes/Import/Batches/Rows.antt =====
-- Lists of rows in which each parent stands before its children.
use notes_md_app_be.Prelude.{
  String, ◌≡◌, refl, sym, Bool, true, false, ◌||◌, Option, none, some, List, [], ◌∷◌, ◌++◌, All,
  arith, str_eq, eq_iff, eq_refl, ◌∙◌,
}
use notes_md_app_be.Notes.Import.Plan.{has}
use notes_md_app_be.Notes.Import.Batches.{NoteRow, row_ids, IsNew, has_parent, HasParents}

-- Each row has a new id, and its parent is known or in a row before it.
abbrev pub RowsFirst : (String → Bool) → List NoteRow → Type 0
RowsFirst known [] = Unit
RowsFirst known (r ∷ rs) =
    (known r.id ≡ false)
    × ((has_parent known r.parent_id ≡ true) × RowsFirst (λ p. known p || str_eq r.id p) rs)

pub has_parent-ext :
    (k l : String → Bool) (o : Option String)
    → ((p : String) → k p ≡ true → l p ≡ true)
    → has_parent k o ≡ true
    → has_parent l o ≡ true
has_parent-ext k l none e h = refl
has_parent-ext k l (some p) e h = e p h

pub RowsFirst-ext :
    (k l : String → Bool) (rows : List NoteRow)
    → ((p : String) → k p ≡ l p)
    → RowsFirst k rows
    → RowsFirst l rows
RowsFirst-ext k l [] e h = tt
RowsFirst-ext k l (r ∷ rs) e (new, (p, h)) = (
  sym (e r.id) ∙ new,
  (
    has_parent-ext k l r.parent_id (λ q t. sym (e q) ∙ t) p,
    RowsFirst-ext (λ q. k q || str_eq r.id q) (λ q. l q || str_eq r.id q) rs (λ q. rw (e q) refl) h,
  ),
)

pub RowsFirst-new :
    (k : String → Bool) (rows : List NoteRow) (i : String)
    → RowsFirst k rows
    → k i ≡ true
    → has (row_ids rows) i ≡ false
unfolding has
RowsFirst-new k [] i h t = refl
RowsFirst-new k (r ∷ rs) i (new, (p, h)) t =
    ground (arith, eq_iff r.id i, RowsFirst-new (λ q. k q || str_eq r.id q) rs i h)

pub RowsFirst-IsNew :
    (k l : String → Bool) (rows : List NoteRow)
    → ((p : String) → k p ≡ true → l p ≡ true)
    → RowsFirst l rows
    → IsNew k rows
RowsFirst-IsNew k l [] e h = tt
RowsFirst-IsNew k l (r ∷ rs) e (new, (p, h)) = (
  ground (arith, e r.id),
  (
    RowsFirst-new (λ q. l q || str_eq r.id q) rs r.id h (ground (arith, eq_refl r.id)),
    RowsFirst-IsNew k (λ q. l q || str_eq r.id q) rs (λ q t. ground (arith, e q)) h,
  ),
)

pub RowsFirst-HasParents :
    (k l : String → Bool) (rows : List NoteRow)
    → RowsFirst k rows
    → ((p : String) → k p ≡ true → l p ≡ true)
    → ((p : String) → has (row_ids rows) p ≡ true → l p ≡ true)
    → HasParents l rows
unfolding has
RowsFirst-HasParents k l [] h e f = tt
RowsFirst-HasParents k l (r ∷ rs) (new, (p, h)) e f = (
  has_parent-ext k l r.parent_id e p,
  RowsFirst-HasParents (λ q. k q || str_eq r.id q) l rs h (λ q t. ground (arith, e q, f q))
      (λ q t. ground (arith, f q)),
)

pub RowsFirst-append :
    (k : String → Bool) (xs ys : List NoteRow)
    → RowsFirst k (xs ++ ys)
    → RowsFirst k xs × RowsFirst (λ p. k p || has (row_ids xs) p) ys
unfolding has
RowsFirst-append k [] ys h = (tt, RowsFirst-ext k (λ p. k p || false) ys (λ p. ground arith) h)
RowsFirst-append k (r ∷ xs) ys (new, (p, h)) =
    let (a, b) = RowsFirst-append (λ q. k q || str_eq r.id q) xs ys h in
    (
      (new, (p, a)),
      RowsFirst-ext (λ q. (k q || str_eq r.id q) || has (row_ids xs) q)
          (λ q. k q || has (row_ids (r ∷ xs)) q) ys (λ q. ground arith) b,
    )

pub has-append :
    (xs ys : List NoteRow) (i : String)
    → has (row_ids (xs ++ ys)) i ≡ (has (row_ids xs) i || has (row_ids ys) i)
unfolding has
has-append [] ys i = refl
has-append (x ∷ xs) ys i = ground (arith, has-append xs ys i)

pub All-split :
    (P : NoteRow → Type 0) (xs ys : List NoteRow) → All P (xs ++ ys) → All P xs × All P ys
All-split P [] ys h = (tt, h)
All-split P (x ∷ xs) ys (p, h) = let (a, b) = All-split P xs ys h in ((p, a), b)
