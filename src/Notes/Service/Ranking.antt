-- ===== src/Notes/Service/Ranking.antt =====
-- The notes that a reader gets who pages through a search by rank, page after page.
use mathlib.Core.List.{Perm}
use notes_md_app_be.Prelude.{
  ℕ, zero, suc, String, ◌≡◌, refl, sym, ap, ◌∙◌, Bool, true, Option, none, some, List, [], ◌∷◌,
  ◌++◌, ◌&&◌, str_eq, eq_iff, eq_refl, arith, take, length, Bool-cases, inl, inr, All, All-take,
  if_either,
}
use notes_md_app_be.Core.Selectors.{includes}
use notes_md_app_be.Notes.Database.{NoteRow, NotesDatabase, among}
use notes_md_app_be.Notes.Service.{
  Note, Rank, RankedId, behind, ranked_page, row_ids, sort, comes_before, find_row, in_order,
  select, select_all, get_note_by_text, ranked_notes, page_of, ordered_page,
}
use notes_md_app_be.Notes.Service.Paging.{IsUnique, last, and_next, read_pages, read_pages-all}
use notes_md_app_be.Notes.Service.Sorting.{
  IsRanked, sort-IsRanked, sort-perm, sort-IsUnique, All-sort, length-row_ids-sort,
}

abbrev pub ids_of : List Note → List String
ids_of [] = []
ids_of (n ∷ ns) = n.id ∷ ids_of ns

abbrev last_id : Note → List Note → String
last_id n [] = n.id
last_id n (m ∷ ms) = last_id m ms

abbrev pub and_more : (String → List Note) → List Note → List Note
and_more next [] = []
and_more next (n ∷ ns) = (n ∷ ns) ++ next (last_id n ns)

found_among :
    (rows : List NoteRow) (id : String)
    → among rows id ≡ true
    → (r : NoteRow) × (find_row rows id ≡ some r) × (r.id ≡ id)
unfolding find_row
found_among [] id e = ground (arith, e)
found_among (r ∷ rs) id e = elim (Bool-cases (str_eq r.id id)) [
  | inl same ↦ (r, rw same refl, (eq_iff r.id id).0 same)
  | inr other ↦ let (x, f, i) = found_among rs id (ground (arith, e, other)) in (x, rw other f, i)
]

ids_of-in_order :
    (fields : List String) (rows : List NoteRow) (ids : List String)
    → All (λ id. among rows id ≡ true) ids
    → ids_of (select_all fields (in_order rows ids)) ≡ ids
unfolding in_order select_all select
ids_of-in_order fields rows [] h = refl
ids_of-in_order fields rows (id ∷ ids) (there, h) =
    let (r, f, i) = found_among rows id there in
    let rest = ids_of-in_order fields rows ids h in ground (arith, f, i, rest)

All-included :
    (ids xs : List String)
    → All (λ x. includes ids x ≡ true) xs
    → (i : String) → All (λ x. includes (i ∷ ids) x ≡ true) xs
unfolding includes
All-included ids [] h i = tt
All-included ids (x ∷ xs) (e, h) i = (ground (arith, e), All-included ids xs h i)

All-includes : (ids : List String) → All (λ x. includes ids x ≡ true) ids
unfolding includes
All-includes [] = tt
All-includes (i ∷ is) = (rw (eq_refl i) refl, All-included is is (All-includes is) i)

All-behind :
    (P : String → Type 0) (cursor : String) (ids : List String)
    → All P ids
    → All P (behind cursor ids)
unfolding behind
All-behind P cursor [] h = tt
All-behind P cursor (x ∷ xs) (p, h) =
    if_either (All P) (str_eq x cursor) h (All-behind P cursor xs h)

All-ranked_page :
    (P : String → Type 0) (cursor : Option String) (limit : ℕ) (ids : List String)
    → All P ids
    → All P (ranked_page cursor limit ids)
unfolding ranked_page
All-ranked_page P none limit ids h = All-take P limit ids h
All-ranked_page P (some c) limit ids h =
    if_either (All P) (str_eq c "") (All-take P limit ids h)
      (All-take P limit (behind c ids) (All-behind P c ids h))

take_none : (limit : ℕ) → take {A = String} limit [] ≡ []
take_none zero = refl
take_none (suc limit) = refl

ranked_page-none : (cursor : Option String) (limit : ℕ) → ranked_page cursor limit [] ≡ []
unfolding ranked_page behind
ranked_page-none none limit = take_none limit
ranked_page-none (some c) limit =
    if_either (λ l. l ≡ []) (str_eq c "") (take_none limit) (take_none limit)

ids_of-append : (ms ns : List Note) → ids_of (ms ++ ns) ≡ ids_of ms ++ ids_of ns
ids_of-append [] ns = refl
ids_of-append (m ∷ ms) ns = rw (ids_of-append ms ns)

last-ids_of : (n : Note) (ns : List Note) → last n.id (ids_of ns) ≡ last_id n ns
last-ids_of n [] = refl
last-ids_of n (m ∷ ms) = last-ids_of m ms

-- One page more, for the notes and for their ids.
ids_of-and_more :
    (next : String → List Note) (next_ids : String → List String) (page : List Note)
    → ((id : String) → ids_of (next id) ≡ next_ids id)
    → ids_of (and_more next page) ≡ and_next next_ids (ids_of page)
ids_of-and_more next next_ids [] h = refl
ids_of-and_more next next_ids (n ∷ ns) h =
    ids_of-append (n ∷ ns) (next (last_id n ns))
    ∙ ap (λ l. ids_of (n ∷ ns) ++ l) (h (last_id n ns) ∙ ap next_ids (sym (last-ids_of n ns)))

module _ {Db : Type 0} (d : NotesDatabase Db) (locale : String → String → Bool)
    (search : Db → String → String → List RankedId) where
  -- Page after page of a search by rank, each with the id of the last note of the page before as the
  -- cursor, until a page is empty.
  unfoldable pub read_notes :
      ℕ → Db → String → List String → String → Rank → ℕ → Option String → List Note
  read_notes zero db user_id fields q rank limit cursor = []
  read_notes (suc fuel) db user_id fields q rank limit cursor =
      and_more (λ id. read_notes fuel db user_id fields q rank limit (some id))
        (get_note_by_text d locale search db user_id fields q
          (record { order_by = none; limit = limit; cursor_id = cursor; rank = some rank }))

  -- The id of a note of the user.
  abbrev pub IsOwnNote : Db → String → String → Type 0
  IsOwnNote db user_id id = (r : NoteRow) × (d.note db id ≡ some r) × (r.user_id ≡ user_id)

  All-among :
      (db : Db) (user_id : String) (ids page : List String)
      → All (IsOwnNote db user_id) page
      → All (λ id. includes ids id ≡ true) page
      → All
          (λ id.
            among (d.find_many db (λ r. str_eq r.user_id user_id && includes ids r.id) none) id
            ≡ true)
          page
  All-among db user_id ids [] h k = tt
  All-among db user_id ids (id ∷ page) ((r, there, own), h) (inside, k) = (
    d.among-find_many db (λ x. str_eq x.user_id user_id && includes ids x.id) none id r there
        (ground (arith, d.note-id db id r there, own, inside, eq_iff r.user_id user_id)),
    All-among db user_id ids page h k,
  )

  ids_of-ranked_notes :
      (db : Db) (user_id : String) (fields : List String) (rank : Rank) (cursor : Option String)
      (limit : ℕ) (hits : List RankedId)
      → All (IsOwnNote db user_id) (row_ids hits)
      → ids_of (ranked_notes d locale search db user_id fields rank cursor limit hits)
        ≡ ranked_page cursor limit (row_ids (sort (comes_before locale rank) hits))
  unfolding ranked_notes
  ids_of-ranked_notes db user_id fields rank cursor limit hits own =
      let ids = ranked_page cursor limit (row_ids (sort (comes_before locale rank) hits)) in
      let own_ids =
        All-ranked_page (IsOwnNote db user_id) cursor limit _
          (All-sort (comes_before locale rank) (IsOwnNote db user_id) hits own) in
      ids_of-in_order fields _ ids (All-among db user_id ids ids own_ids (All-includes ids))

  ids_of-page_of :
      (db : Db) (user_id : String) (fields : List String) (rank : Rank) (cursor : Option String)
      (limit : ℕ) (hits : List RankedId)
      → All (IsOwnNote db user_id) (row_ids hits)
      → ids_of (
          page_of d locale search db user_id fields
            (record { order_by = none; limit = limit; cursor_id = cursor; rank = some rank })
            hits)
        ≡ ranked_page cursor limit (row_ids (sort (comes_before locale rank) hits))
  unfolding page_of ordered_page sort
  ids_of-page_of db user_id fields rank cursor limit [] own = sym (ranked_page-none cursor limit)
  ids_of-page_of db user_id fields rank cursor limit (x ∷ xs) own =
      ids_of-ranked_notes db user_id fields rank cursor limit (x ∷ xs) own

  ids_of-read_notes :
      (fuel : ℕ) (db : Db) (user_id : String) (fields : List String) (q : String) (rank : Rank)
      (limit : ℕ) (cursor : Option String)
      → All (IsOwnNote db user_id) (row_ids (search db user_id q))
      → ids_of (read_notes fuel db user_id fields q rank limit cursor)
        ≡ read_pages fuel limit cursor
            (row_ids (sort (comes_before locale rank) (search db user_id q)))
  unfolding read_notes read_pages get_note_by_text
  ids_of-read_notes zero db user_id fields q rank limit cursor own = refl
  ids_of-read_notes (suc fuel) db user_id fields q rank limit cursor own =
      let sorted = row_ids (sort (comes_before locale rank) (search db user_id q)) in
      ids_of-and_more (λ id. read_notes fuel db user_id fields q rank limit (some id))
        (λ id. read_pages fuel limit (some id) sorted) _
        (λ id. ids_of-read_notes fuel db user_id fields q rank limit (some id) own)
      ∙ ap (and_next (λ id. read_pages fuel limit (some id) sorted))
          (ids_of-page_of db user_id fields rank cursor limit (search db user_id q) own)

  -- Whoever reads a search by rank page after page, each with the last note's id of the page before
  -- as the cursor and with any positive limit, gets a note of the id of every hit exactly once, in
  -- the order of the ranks, best or worst first as asked: no hit is skipped and none comes twice.
  -- This is so if the hits' ids are distinct, not empty and those of notes of the user, and the hits
  -- and the notes stay the same meanwhile; one request more than there are hits is enough.
  pub read_notes-IsRanked :
      (db : Db) (user_id : String) (fields : List String) (q : String) (rank : Rank) (limit : ℕ)
      → IsUnique (row_ids (search db user_id q))
      → All (IsOwnNote db user_id) (row_ids (search db user_id q))
      → (sorted : List RankedId) × Perm sorted (search db user_id q)
        × IsRanked rank sorted
        × (ids_of (
              read_notes
                (suc (length (search db user_id q)))
                db
                user_id
                fields
                q
                rank
                (suc limit)
                none)
            ≡ row_ids sorted)
  read_notes-IsRanked db user_id fields q rank limit unique own =
      let hits = search db user_id q in
      let sorted = sort (comes_before locale rank) hits in
      (
        sorted,
        sort-perm (comes_before locale rank) hits,
        sort-IsRanked locale rank hits,
        ids_of-read_notes (suc (length hits)) db user_id fields q rank (suc limit) none own
            ∙ (ap (λ n. read_pages (suc n) (suc limit) none (row_ids sorted))
                  (length-row_ids-sort (comes_before locale rank) hits)
                ∙ read_pages-all limit (row_ids sorted)
                    (sort-IsUnique (comes_before locale rank) hits unique)),
      )
