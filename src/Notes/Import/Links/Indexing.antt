-- ===== src/Notes/Import/Links/Indexing.antt =====
-- What the index of an import holds under a key: the targets with this key, the first of each id.
use notes_md_app_be.Prelude.{
  ◌≡◌, refl, sym, ap, subst, ◌∙◌, true, false, String, Option, none, some, List, [], ◌∷◌, ◌++◌,
  keep, if◌then◌else◌, or_else, Bool-cases, inl, inr, arith, str_eq, ◌↔◌,
}
use notes_md_app_be.Core.Selectors.{includes}
use notes_md_app_be.Text.{Text}
use notes_md_app_be.Notes.Import.Links.{
  LinkTarget, LinkIndex, Entries, text_eq, has_target, added, add_to, find_entry, key_of, add_all,
  create_link_index, last_only, last_without_extension,
}

-- The first target of each id, but the ids that were seen.
unfoldable pub firsts : List String → List LinkTarget → List LinkTarget
firsts seen [] = []
firsts seen (t ∷ ts) =
    let rest = firsts (t.id ∷ seen) ts in if includes seen t.id then firsts seen ts else t ∷ rest

abbrev pub entry : List LinkTarget → Option (List LinkTarget)
entry [] = none
entry (t ∷ ts) = some (t ∷ ts)

text_eq_refl : (a : Text) → text_eq a a ≡ true
text_eq_refl [] = refl
text_eq_refl (c ∷ cs) = ground (arith, text_eq_refl cs)

text_eq-eq : (a b : Text) → text_eq a b ≡ true → a ≡ b
text_eq-eq [] [] e = refl
text_eq-eq [] (d ∷ ds) e = ground (arith, e)
text_eq-eq (c ∷ cs) [] e = ground (arith, e)
text_eq-eq (c ∷ cs) (d ∷ ds) e = ground (arith, e, text_eq-eq cs ds)

text_eq_iff : (a b : Text) → (text_eq a b ≡ true) ↔ (a ≡ b)
text_eq_iff a b = (text_eq-eq a b, λ e. subst (λ c. text_eq a c ≡ true) e (text_eq_refl a))

find_entry-add_to :
    (es : Entries) (k key : Text) (t : LinkTarget)
    → find_entry (add_to es k t) key ≡ (
        if text_eq k key
        then some (added (or_else (find_entry es key) []) t)
        else find_entry es key)
unfolding find_entry add_to
find_entry-add_to [] k key t = refl
find_entry-add_to ((j, list) ∷ es) k key t = elim (Bool-cases (text_eq j k)) [
  | inl same ↦
      let e = text_eq-eq j k same in
      rw same (elim (Bool-cases (text_eq j key)) [
        | inl hit ↦
            let e' : text_eq k key ≡ true = subst (λ x. text_eq x key ≡ true) e hit in
            rw (hit, e') refl
        | inr miss ↦
            let e' : text_eq k key ≡ false = subst (λ x. text_eq x key ≡ false) e miss in
            rw (miss, e') refl
      ])
  | inr other ↦ rw other (elim (Bool-cases (text_eq j key)) [
    | inl hit ↦
        let e' : text_eq k key ≡ false =
          ground (arith, text_eq_iff j key, text_eq_iff j k, text_eq_iff k key, hit, other) in
        rw (hit, e') refl
    | inr miss ↦ rw miss (find_entry-add_to es k key t)
  ])
]

-- The entries with more targets, each under its key.
add_by : (LinkTarget → Text) → Entries → List LinkTarget → Entries
add_by key es [] = es
add_by key es (t ∷ ts) = add_by key (add_to es (key t) t) ts

grown : Option (List LinkTarget) → List LinkTarget → Option (List LinkTarget)
grown found [] = found
grown found (t ∷ ts) = grown (some (added (or_else found []) t)) ts

find_entry-add_by :
    (key_by : LinkTarget → Text) (es : Entries) (ts : List LinkTarget) (key : Text)
    → find_entry (add_by key_by es ts) key
      ≡ grown (find_entry es key) (keep (λ t. text_eq (key_by t) key) ts)
unfolding add_by grown
find_entry-add_by key_by es [] key = refl
find_entry-add_by key_by es (t ∷ ts) key =
    find_entry-add_by key_by (add_to es (key_by t) t) ts key
    ∙ (ap (λ f. grown f (keep (λ u. text_eq (key_by u) key) ts))
          (find_entry-add_to es (key_by t) key t)
        ∙ elim (Bool-cases (text_eq (key_by t) key)) [
          | inl hit ↦ rw hit refl
          | inr miss ↦ rw miss refl
        ])

has_target-append :
    (list : List LinkTarget) (t : LinkTarget) (id : String)
    → has_target (list ++ (t ∷ [])) id ≡ (if str_eq t.id id then true else has_target list id)
unfolding has_target
has_target-append [] t id = ground arith
has_target-append (u ∷ us) t id = ground (arith, has_target-append us t id)

append_one :
    (xs : List LinkTarget) (y : LinkTarget) (zs : List LinkTarget)
    → (xs ++ (y ∷ [])) ++ zs ≡ xs ++ (y ∷ zs)
append_one [] y zs = refl
append_one (x ∷ xs) y zs = ap (λ l. x ∷ l) (append_one xs y zs)

append_none : (xs : List LinkTarget) → xs ++ [] ≡ xs
append_none [] = refl
append_none (x ∷ xs) = ap (λ l. x ∷ l) (append_none xs)

grown-firsts :
    (list : List LinkTarget) (seen : List String) (ts : List LinkTarget)
    → ((id : String) → has_target list id ≡ includes seen id)
    → grown (some list) ts ≡ some (list ++ firsts seen ts)
unfolding grown firsts includes
grown-firsts list seen [] h = ap some (sym (append_none list))
grown-firsts list seen (t ∷ ts) h = elim (Bool-cases (includes seen t.id)) [
  | inl old ↦ rw (h t.id, old) (grown-firsts list seen ts h)
  | inr new ↦
      rw (h t.id, new)
        (grown-firsts (list ++ (t ∷ [])) (t.id ∷ seen) ts (λ id.
            has_target-append list t id ∙ ap (λ b. if str_eq t.id id then true else b) (h id))
          ∙ ap some (append_one list t (firsts (t.id ∷ seen) ts)))
]

grown-entry : (ts : List LinkTarget) → grown none ts ≡ entry (firsts [] ts)
unfolding grown firsts includes has_target
grown-entry [] = refl
grown-entry (t ∷ ts) = grown-firsts (t ∷ []) (t.id ∷ []) ts (λ id. ground arith)

module _ (nfc lower_case : Text → Text) where
  -- The key of a target's path without its extension, and that of the last part of it.
  abbrev pub path_key : LinkTarget → Text
  path_key t = key_of nfc lower_case (last_without_extension t.segments)

  abbrev pub base_key : LinkTarget → Text
  base_key t = key_of nfc lower_case (last_only (last_without_extension t.segments))

  by_path-add_all :
      (ts : List LinkTarget) (index : LinkIndex)
      → (add_all nfc lower_case index ts).by_path ≡ add_by path_key index.by_path ts
  unfolding add_all add_by
  by_path-add_all [] index = refl
  by_path-add_all (t ∷ ts) index = by_path-add_all ts _

  by_base_name-add_all :
      (ts : List LinkTarget) (index : LinkIndex)
      → (add_all nfc lower_case index ts).by_base_name ≡ add_by base_key index.by_base_name ts
  unfolding add_all add_by
  by_base_name-add_all [] index = refl
  by_base_name-add_all (t ∷ ts) index = by_base_name-add_all ts _

  pub find_by_path :
      (ts : List LinkTarget) (key : Text)
      → find_entry (create_link_index nfc lower_case ts).by_path key
        ≡ entry (firsts [] (keep (λ t. text_eq (path_key t) key) ts))
  unfolding create_link_index find_entry
  find_by_path ts key =
      ap (λ es. find_entry es key) (by_path-add_all ts _)
      ∙ (find_entry-add_by path_key [] ts key ∙ grown-entry _)

  pub find_by_base_name :
      (ts : List LinkTarget) (key : Text)
      → find_entry (create_link_index nfc lower_case ts).by_base_name key
        ≡ entry (firsts [] (keep (λ t. text_eq (base_key t) key) ts))
  unfolding create_link_index find_entry
  find_by_base_name ts key =
      ap (λ es. find_entry es key) (by_base_name-add_all ts _)
      ∙ (find_entry-add_by base_key [] ts key ∙ grown-entry _)
