-- ===== src/Notes/Service/Reading.antt =====
-- What the queries of the notes service answer.
use notes_md_app_be.Prelude.{
  String, ◌≡◌, refl, ap, subst, Bool, true, ◌&&◌, Option, none, some, List, [], ◌∷◌, str_eq, eq_iff,
  arith, All, ℕ, Bool-cases, inl, inr, ◌∙◌, and_left, and_right,
}
use notes_md_app_be.Core.Selectors.{includes, OrderBy}
use notes_md_app_be.Notes.Database.{NoteRow, NotesDatabase}
use notes_md_app_be.Notes.Service.{
  RankedId, NoteSearchOptions, Note, select, select_all, own_row, get_all_notes, get_note_by_id,
  get_note_by_parent_id, get_note_by_text, if_found, select_some, ordered_page, page_of,
  ranked_notes, in_order, find_row, Rank, row_ids, ranked_page, sort, comes_before, cursor_of,
}

pub data Query : Type 0 where
  all_notes : Query
  by_id : String → List String → Query
  by_parent_id : List String → List String → Option OrderBy → Query
  by_text : List String → String → NoteSearchOptions → Query

abbrev pub listed : Option Note → List Note
listed none = []
listed (some n) = n ∷ []

found-head :
    (x : NoteRow) (xs : List NoteRow) (id : String) (r : NoteRow)
    → str_eq x.id id ≡ true
    → find_row (x ∷ xs) id ≡ some r
    → x ≡ r
unfolding find_row
found-head x xs id r same e = ground (arith, same, e)

All-find_row :
    (P : NoteRow → Type 0) (rows : List NoteRow) (id : String) (r : NoteRow)
    → All P rows
    → find_row rows id ≡ some r
    → P r
unfolding find_row
All-find_row P [] id r h e = ground (arith, e)
All-find_row P (x ∷ xs) id r (p, h) e = elim (Bool-cases (str_eq x.id id)) [
  | inl same ↦ subst P (found-head x xs id r same e) p
  | inr other ↦ All-find_row P xs id r h (ground (arith, other, e))
]

All-if_found :
    (P : NoteRow → Type 0) (rows : List NoteRow) (id : String) (found : Option NoteRow)
    (rest : List NoteRow)
    → All P rows
    → find_row rows id ≡ found
    → All P rest
    → All P (if_found found rest)
All-if_found P rows id none rest h e k = k
All-if_found P rows id (some r) rest h e k = (All-find_row P rows id r h e, k)

module _ {Db : Type 0} (d : NotesDatabase Db) (locale : String → String → Bool)
    (search : Db → String → String → List RankedId) where
  unfoldable pub query : Db → String → Query → List Note
  query db user_id all_notes = get_all_notes d locale search db user_id
  query db user_id (by_id id selector) =
      listed (get_note_by_id d locale search db id selector user_id)
  query db user_id (by_parent_id ids selector order) =
      get_note_by_parent_id d locale search db ids selector order user_id
  query db user_id (by_text selector q options) =
      get_note_by_text d locale search db user_id selector q options

  -- A note of the user, of which some columns are selected.
  abbrev pub IsOwn : Db → String → Note → Type 0
  IsOwn db user_id n =
      (r : NoteRow) × ((d.note db r.id ≡ some r)
        × ((r.user_id ≡ user_id) × ((fields : List String) × (n ≡ select fields r))))

  abbrev IsOwnRow : Db → String → NoteRow → Type 0
  IsOwnRow db user_id r = (d.note db r.id ≡ some r) × (r.user_id ≡ user_id)

  select_all-IsOwn :
      (db : Db) (user : String) (fields : List String) (rows : List NoteRow)
      → All (IsOwnRow db user) rows
      → All (IsOwn db user) (select_all fields rows)
  unfolding select_all
  select_all-IsOwn db user fields [] h = tt
  select_all-IsOwn db user fields (r ∷ rs) ((there, own), h) =
      ((r, (there, (own, (fields, refl)))), select_all-IsOwn db user fields rs h)

  All-in_order :
      (P : NoteRow → Type 0) (rows : List NoteRow) (ids : List String)
      → All P rows
      → All P (in_order rows ids)
  unfolding in_order
  All-in_order P rows [] h = tt
  All-in_order P rows (id ∷ ids) h =
      All-if_found P rows id (find_row rows id) (in_order rows ids) h refl
        (All-in_order P rows ids h)

  rows-IsOwn :
      (db : Db) (user : String) (p : NoteRow → Bool) (rows : List NoteRow)
      → ((r : NoteRow) → p r ≡ true → str_eq r.user_id user ≡ true)
      → All (λ r. (d.note db r.id ≡ some r) × (p r ≡ true)) rows
      → All (IsOwnRow db user) rows
  rows-IsOwn db user p [] own h = tt
  rows-IsOwn db user p (r ∷ rs) own ((there, met), h) =
      ((there, (eq_iff r.user_id user).0 (own r met)), rows-IsOwn db user p rs own h)

  selected-IsOwn :
      (db : Db) (user : String) (fields : List String) (p : NoteRow → Bool) (order : Option OrderBy)
      → ((r : NoteRow) → p r ≡ true → str_eq r.user_id user ≡ true)
      → All (IsOwn db user) (select_all fields (d.find_many db p order))
  selected-IsOwn db user fields p order own =
      select_all-IsOwn db user fields (d.find_many db p order)
        (rows-IsOwn db user p (d.find_many db p order) own (d.All-find_many db p order))

  own_row-IsOwn :
      (db : Db) (user id : String) (fields : List String) (found : Option NoteRow)
      → d.note db id ≡ found
      → All (IsOwn db user) (listed (select_some fields (own_row user found)))
  unfolding own_row
  own_row-IsOwn db user id fields none e = tt
  own_row-IsOwn db user id fields (some r) e = elim (Bool-cases (str_eq r.user_id user)) [
    | inl own ↦ rw own (
      (
        r,
        (
          (ap (d.note db) (d.note-id db id r e) ∙ e),
          ((eq_iff r.user_id user).0 own, (fields, refl)),
        ),
      ),
      tt,
    )
    | inr other ↦ rw other tt
  ]

  get_note_by_id-IsOwn :
      (db : Db) (user id : String) (fields : List String)
      → All (IsOwn db user) (listed (get_note_by_id d locale search db id fields user))
  unfolding get_note_by_id
  get_note_by_id-IsOwn db user id fields =
      own_row-IsOwn db user id ("parentId" ∷ fields) (d.note db id) refl

  get_note_by_parent_id-IsOwn :
      (db : Db) (user : String) (ids fields : List String) (order : Option OrderBy)
      → All (IsOwn db user) (get_note_by_parent_id d locale search db ids fields order user)
  unfolding get_note_by_parent_id
  get_note_by_parent_id-IsOwn db user [] fields order = tt
  get_note_by_parent_id-IsOwn db user (i ∷ is) fields order =
      selected-IsOwn db user ("parentId" ∷ fields) _ order (λ r. and_right _ _)

  ranked_notes-IsOwn :
      (db : Db) (user : String) (fields : List String) (rank : Rank) (cursor : Option String)
      (limit : ℕ) (hits : List RankedId)
      → All (IsOwn db user) (ranked_notes d locale search db user fields rank cursor limit hits)
  unfolding ranked_notes
  ranked_notes-IsOwn db user fields rank cursor limit hits =
      let ids = ranked_page cursor limit (row_ids (sort (comes_before locale rank) hits)) in
      let p = λ (r : NoteRow). str_eq r.user_id user && includes ids r.id in
      select_all-IsOwn db user fields (in_order (d.find_many db p none) ids) (
        All-in_order (IsOwnRow db user) (d.find_many db p none) ids (
          rows-IsOwn db user p (d.find_many db p none) (λ r. and_left _ _)
            (d.All-find_many db p none)))

  ordered_page-IsOwn :
      (db : Db) (user : String) (fields : List String) (options : NoteSearchOptions)
      (hits : List RankedId) (rank : Option Rank)
      → All (IsOwn db user) (ordered_page d locale search db user fields options hits rank)
  unfolding ordered_page
  ordered_page-IsOwn db user fields options hits none =
      let p = λ (r : NoteRow). str_eq r.user_id user && includes (row_ids hits) r.id in
      let cursor = cursor_of options.cursor_id in
      select_all-IsOwn db user fields (d.find_page db p options.order_by cursor options.limit) (
        rows-IsOwn db user p (d.find_page db p options.order_by cursor options.limit)
          (λ r. and_left _ _) (d.All-find_page db p options.order_by cursor options.limit))
  ordered_page-IsOwn db user fields options hits (some rank) =
      ranked_notes-IsOwn db user fields rank options.cursor_id options.limit hits

  page_of-IsOwn :
      (db : Db) (user : String) (fields : List String) (options : NoteSearchOptions)
      (hits : List RankedId)
      → All (IsOwn db user) (page_of d locale search db user fields options hits)
  unfolding page_of
  page_of-IsOwn db user fields options [] = tt
  page_of-IsOwn db user fields options (x ∷ xs) =
      ordered_page-IsOwn db user fields options (x ∷ xs) options.rank

  -- Whatever a user asks, all notes, a note by its id, the notes below some parents, or a page of a
  -- search whatever the full-text index answers: every note of the answer is a selection of the
  -- columns of a row of the table, and the row is this user's.
  pub query-IsOwn : (db : Db) (user : String) (q : Query) → All (IsOwn db user) (query db user q)
  unfolding query get_all_notes get_note_by_text
  query-IsOwn db user all_notes = selected-IsOwn db user _ _ none (λ r own. own)
  query-IsOwn db user (by_id id fields) = get_note_by_id-IsOwn db user id fields
  query-IsOwn db user (by_parent_id ids fields order) =
      get_note_by_parent_id-IsOwn db user ids fields order
  query-IsOwn db user (by_text fields q options) =
      page_of-IsOwn db user fields options (search db user q)
