-- ===== src/Notes/Service/Paging.antt =====
-- Paging through the hits of a search by rank, with the cursor of each page's last note.
use notes_md_app_be.Prelude.{
  ℕ, zero, suc, ◌-◌, ◌≤◌, String, ◌≡◌, refl, sym, ap, subst, ◌∙◌, true, false, Option, none, some,
  List, [], ◌∷◌, ◌++◌, str_eq, eq_iff, eq_refl, arith, take, drop, length, Bool-cases, if_either,
  inl, inr, length-drop, take-append-drop,
}
use notes_md_app_be.Core.Selectors.{includes}
use notes_md_app_be.Notes.Service.{behind, ranked_page}

-- No id twice, and none empty.
abbrev pub IsUnique : List String → Type 0
IsUnique [] = Unit
IsUnique (x ∷ xs) = (str_eq x "" ≡ false) × ((includes xs x ≡ false) × IsUnique xs)

abbrev pub last : String → List String → String
last x [] = x
last x (y ∷ ys) = last y ys

abbrev init : String → List String → List String
init x [] = []
init x (y ∷ ys) = x ∷ init y ys

abbrev pub and_next : (String → List String) → List String → List String
and_next next [] = []
and_next next (x ∷ xs) = (x ∷ xs) ++ next (last x xs)

-- The pages that a reader gets who asks for the next one until a page is empty.
unfoldable pub read_pages : ℕ → ℕ → Option String → List String → List String
read_pages zero limit cursor sorted = []
read_pages (suc fuel) limit cursor sorted =
    and_next (λ id. read_pages fuel limit (some id) sorted) (ranked_page cursor limit sorted)

init-last : (x : String) (xs : List String) → init x xs ++ (last x xs ∷ []) ≡ x ∷ xs
init-last x [] = refl
init-last x (y ∷ ys) = rw (init-last y ys)

append_assoc : (xs ys zs : List String) → (xs ++ ys) ++ zs ≡ xs ++ (ys ++ zs)
append_assoc [] ys zs = refl
append_assoc (x ∷ xs) ys zs = rw (append_assoc xs ys zs)

includes-append :
    (xs : List String) (x : String) (ys : List String) → includes (xs ++ (x ∷ ys)) x ≡ true
unfolding includes
includes-append [] x ys = rw (eq_refl x) refl
includes-append (w ∷ ws) x ys =
    if_either (λ b. b ≡ true) (str_eq w x) refl (includes-append ws x ys)

not_included :
    (xs : List String) (w x : String)
    → includes xs w ≡ false
    → includes xs x ≡ true
    → str_eq w x ≡ false
not_included xs w x absent present = elim (Bool-cases (str_eq w x)) [
  | inl same ↦
      ground (arith, present, subst (λ y. includes xs y ≡ false) ((eq_iff w x).0 same) absent)
  | inr other ↦ other
]

-- Behind a cursor that stands nowhere before.
behind-append :
    (xs : List String) (x : String) (ys : List String)
    → IsUnique (xs ++ (x ∷ ys))
    → behind x (xs ++ (x ∷ ys)) ≡ ys
unfolding behind
behind-append [] x ys u = rw (eq_refl x) refl
behind-append (w ∷ ws) x ys (n, (fresh, u)) =
    let other = not_included (ws ++ (x ∷ ys)) w x fresh (includes-append ws x ys) in
    rw other (behind-append ws x ys u)

named_last :
    (xs : List String) (x : String) (ys : List String)
    → IsUnique (xs ++ (x ∷ ys))
    → str_eq x "" ≡ false
named_last [] x ys (n, u) = n
named_last (w ∷ ws) x ys (n, (fresh, u)) = named_last ws x ys u

-- The page behind a cursor.
ranked_page-append :
    (xs : List String) (x : String) (ys : List String) (limit : ℕ)
    → IsUnique (xs ++ (x ∷ ys))
    → ranked_page (some x) limit (xs ++ (x ∷ ys)) ≡ take limit ys
unfolding ranked_page
ranked_page-append xs x ys limit u = rw (named_last xs x ys u, behind-append xs x ys u) refl

-- The list cut behind a page that starts at some position.
split_page :
    (sorted before ys : List String) (limit : ℕ) (y : String) (zs : List String)
    → sorted ≡ before ++ ys
    → take limit ys ≡ y ∷ zs
    → sorted ≡ (before ++ init y zs) ++ (last y zs ∷ drop limit ys)
split_page sorted before ys limit y zs e page =
    e
    ∙ (ap (λ l. before ++ l)
          (sym (take-append-drop limit ys)
            ∙ (ap (λ l. l ++ drop limit ys) (page ∙ sym (init-last y zs))
                ∙ append_assoc (init y zs) (last y zs ∷ []) (drop limit ys)))
        ∙ sym (append_assoc before (init y zs) (last y zs ∷ drop limit ys)))

is_end : (limit : ℕ) (ys : List String) → take (suc limit) ys ≡ [] → [] ≡ ys
is_end limit [] e = refl
is_end limit (y ∷ ys) e = ground (arith, e)

-- A page, and the pages behind its last id.
pages_from :
    (fuel limit : ℕ) (cursor : Option String) (sorted before ys page : List String)
    → ranked_page cursor (suc limit) sorted ≡ page
    → take (suc limit) ys ≡ page
    → sorted ≡ before ++ ys
    → ((xs : List String) (x : String) (rest : List String)
        → sorted ≡ xs ++ (x ∷ rest)
        → length rest ≤ length ys - 1
        → read_pages fuel (suc limit) (some x) sorted ≡ rest)
    → read_pages (suc fuel) (suc limit) cursor sorted ≡ ys
unfolding read_pages
pages_from fuel limit cursor sorted before ys [] e page at next = rw e (is_end limit ys page)
pages_from fuel limit cursor sorted before ys (y ∷ zs) e page at next = rw e (
    ap (λ r. (y ∷ zs) ++ r)
      (next (before ++ init y zs) (last y zs) (drop (suc limit) ys)
        (split_page sorted before ys (suc limit) y zs at page)
        (omega (arith, length-drop (suc limit) ys)))
    ∙ (ap (λ l. l ++ drop (suc limit) ys) (sym page) ∙ take-append-drop (suc limit) ys))

pages_behind :
    (fuel limit : ℕ) (sorted xs : List String) (x : String) (ys : List String)
    → IsUnique sorted
    → sorted ≡ xs ++ (x ∷ ys)
    → length ys ≤ fuel
    → read_pages fuel (suc limit) (some x) sorted ≡ ys
unfolding read_pages
pages_behind zero limit sorted xs x [] u at short = refl
pages_behind zero limit sorted xs x (y ∷ ys) u at short = ground (arith, short)
pages_behind (suc fuel) limit sorted xs x ys u at short =
    pages_from fuel limit (some x) sorted (xs ++ (x ∷ [])) ys (take (suc limit) ys)
      (subst (λ s. ranked_page (some x) (suc limit) s ≡ take (suc limit) ys) (sym at)
        (ranked_page-append xs x ys (suc limit) (subst IsUnique at u)))
      refl (at ∙ sym (append_assoc xs (x ∷ []) ys))
      (λ before z rest cut shorter.
        pages_behind fuel limit sorted before z rest u cut (omega (arith, shorter, short)))

-- Reading page after page by rank, each with the last id of the page before as the cursor, gives
-- every hit once and in the order of the ranks, whatever the positive limit of a page is: no hit is
-- skipped and none comes twice, if the ids of the hits are distinct and not empty. One request more
-- than there are hits is enough.
pub read_pages-all :
    (limit : ℕ) (sorted : List String)
    → IsUnique sorted
    → read_pages (suc (length sorted)) (suc limit) none sorted ≡ sorted
unfolding ranked_page
read_pages-all limit sorted u =
    pages_from (length sorted) limit none sorted [] sorted (take (suc limit) sorted) refl refl refl
      (λ before z rest cut shorter.
        pages_behind (length sorted) limit sorted before z rest u cut (omega (arith, shorter)))
