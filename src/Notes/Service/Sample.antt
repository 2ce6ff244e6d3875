-- ===== src/Notes/Service/Sample.antt =====
-- A database of notes for the tests: a list of rows, of which the first with an id counts.
use notes_md_app_be.Prelude.{
  String, ◌≡◌, refl, sym, ap, ◌∙◌, Bool, true, false, ◌&&◌, Option, none, some, List, [], ◌∷◌,
  str_eq, eq_iff, eq_refl, arith, if◌then◌else◌, keep, All, Bool-cases, inl, inr, take, All-take,
}
use notes_md_app_be.Core.Selectors.{includes}
use notes_md_app_be.Notes.Database.{
  NoteRow, NoteCreate, NoteUpdate, Written, written, not_found, failed, owns, is_connected,
  connected_id, connect_of, updated, among, NotesDatabase,
}
use notes_md_app_be.Notes.Service.{find_row, in_order, if_found}

abbrev pub ids_of : List NoteRow → List String
ids_of [] = []
ids_of (r ∷ rs) = r.id ∷ ids_of rs

abbrev pub rows_where : List NoteRow → (NoteRow → Bool) → List NoteRow
rows_where rows p = keep p (in_order rows (ids_of rows))

abbrev pub added : List NoteRow → NoteRow → Bool → Written (List NoteRow)
added rows r true = failed
added rows r false = written (r ∷ rows) r

abbrev pub new_row : NoteCreate → NoteRow
new_row c = record {
  id = c.title;
  user_id = c.user_id;
  parent_id = connected_id c.connect;
  title = c.title;
  content = c.content;
  created_at = 0;
  updated_at = 0;
}

abbrev pub is_found : Option NoteRow → Bool
is_found none = false
is_found (some r) = true

abbrev pub create_row : List NoteRow → NoteCreate → Written (List NoteRow)
create_row rows c =
    if is_connected (find_row rows) c.connect
    then added rows (new_row c) (is_found (find_row rows c.title))
    else not_found

abbrev pub changed : List NoteRow → NoteUpdate → Option NoteRow → Written (List NoteRow)
changed rows u none = not_found
changed rows u (some old) = written (updated u 1 old ∷ rows) (updated u 1 old)

abbrev pub update_row : List NoteRow → String → String → NoteUpdate → Written (List NoteRow)
update_row rows id user_id u =
    if owns user_id (find_row rows id) && is_connected (find_row rows) (connect_of u.parent)
    then changed rows u (find_row rows id)
    else not_found

pub find_row-id :
    (rows : List NoteRow) (id : String) (r : NoteRow) → find_row rows id ≡ some r → r.id ≡ id
unfolding find_row
find_row-id [] id r e = ground (arith, e)
find_row-id (x ∷ xs) id r e = elim (Bool-cases (str_eq x.id id)) [
  | inl same ↦ ground (arith, same, e, eq_iff x.id id)
  | inr other ↦ find_row-id xs id r (ground (arith, other, e))
]

abbrev pub IsRow : List NoteRow → NoteRow → Type 0
IsRow rows r = find_row rows r.id ≡ some r

found-IsRow :
    (rows : List NoteRow) (id : String) (found : Option NoteRow) (rest : List NoteRow)
    → find_row rows id ≡ found
    → All (IsRow rows) rest
    → All (IsRow rows) (if_found found rest)
found-IsRow rows id none rest e h = h
found-IsRow rows id (some r) rest e h = (ap (find_row rows) (find_row-id rows id r e) ∙ e, h)

pub in_order-IsRow :
    (rows : List NoteRow) (ids : List String) → All (IsRow rows) (in_order rows ids)
unfolding in_order
in_order-IsRow rows [] = tt
in_order-IsRow rows (id ∷ ids) =
    found-IsRow rows id (find_row rows id) (in_order rows ids) refl (in_order-IsRow rows ids)

pub All-kept :
    (rows : List NoteRow) (p : NoteRow → Bool) (xs : List NoteRow)
    → All (IsRow rows) xs
    → All (λ r. (find_row rows r.id ≡ some r) × (p r ≡ true)) (keep p xs)
All-kept rows p [] h = tt
All-kept rows p (x ∷ xs) (there, h) = elim (Bool-cases (p x)) [
  | inl met ↦ rw met ((there, met), All-kept rows p xs h)
  | inr other ↦ rw other (All-kept rows p xs h)
]

pub find_row-among :
    (rows : List NoteRow) (id : String) (r : NoteRow)
    → find_row rows id ≡ some r
    → includes (ids_of rows) id ≡ true
unfolding find_row includes
find_row-among [] id r e = ground (arith, e)
find_row-among (x ∷ xs) id r e = elim (Bool-cases (str_eq x.id id)) [
  | inl same ↦ rw same refl
  | inr other ↦ rw other (find_row-among xs id r (ground (arith, other, e)))
]

among-keep :
    (p : NoteRow → Bool) (x : NoteRow) (xs : List NoteRow) (id : String)
    → among (keep p xs) id ≡ true
    → among (keep p (x ∷ xs)) id ≡ true
among-keep p x xs id h = ground (arith, h)

among-if_found :
    (p : NoteRow → Bool) (found : Option NoteRow) (rest : List NoteRow) (id : String)
    → among (keep p rest) id ≡ true
    → among (keep p (if_found found rest)) id ≡ true
among-if_found p none rest id h = h
among-if_found p (some r) rest id h = among-keep p r rest id h

among-head :
    (p : NoteRow → Bool) (found : Option NoteRow) (r : NoteRow) (rest : List NoteRow) (id : String)
    → found ≡ some r
    → p r ≡ true
    → r.id ≡ id
    → among (keep p (if_found found rest)) id ≡ true
among-head p none r rest id e met same = ground (arith, e)
among-head p (some x) r rest id e met same = ground (arith, e, met, same, eq_refl id)

pub among-in_order :
    (rows : List NoteRow) (p : NoteRow → Bool) (ids : List String) (id : String) (r : NoteRow)
    → find_row rows id ≡ some r
    → p r ≡ true
    → includes ids id ≡ true
    → among (keep p (in_order rows ids)) id ≡ true
unfolding in_order includes
among-in_order rows p [] id r e met h = ground (arith, h)
among-in_order rows p (i ∷ is) id r e met h = elim (Bool-cases (str_eq i id)) [
  | inl same ↦
      among-head p (find_row rows i) r (in_order rows is) id
        (ap (find_row rows) ((eq_iff i id).0 same) ∙ e) met (find_row-id rows id r e)
  | inr other ↦
      among-if_found p (find_row rows i) (in_order rows is) id
        (among-in_order rows p is id r e met (ground (arith, other, h)))
]

pub sample-refused :
    (rows : List NoteRow) (c : NoteCreate)
    → is_connected (find_row rows) c.connect ≡ false
    → create_row rows c ≡ not_found
sample-refused rows c e = rw e refl

pub sample-created :
    (rows : List NoteRow) (c : NoteCreate) (rows' : List NoteRow) (r : NoteRow)
    → create_row rows c ≡ written rows' r
    → (rows' ≡ new_row c ∷ rows) × ((r ≡ new_row c) × (find_row rows c.title ≡ none))
sample-created rows c rows' r e = ground (arith, e)

pub sample-not_updated :
    (rows : List NoteRow) (id user : String) (u : NoteUpdate)
    → (owns user (find_row rows id) && is_connected (find_row rows) (connect_of u.parent)) ≡ false
    → update_row rows id user u ≡ not_found
sample-not_updated rows id user u e = rw e refl

pub changed-row :
    (rows : List NoteRow) (u : NoteUpdate) (found : Option NoteRow) (rows' : List NoteRow)
    (r : NoteRow)
    → changed rows u found ≡ written rows' r
    → (old : NoteRow) × ((found ≡ some old)
        × ((r ≡ updated u 1 old) × (rows' ≡ updated u 1 old ∷ rows)))
changed-row rows u none rows' r e = ground (arith, e)
changed-row rows u (some old) rows' r e = (old, (refl, (ground (arith, e), ground (arith, e))))

pub sample-updated :
    (rows : List NoteRow) (id user : String) (u : NoteUpdate) (rows' : List NoteRow) (r : NoteRow)
    → update_row rows id user u ≡ written rows' r
    → changed rows u (find_row rows id) ≡ written rows' r
sample-updated rows id user u rows' r e = ground (arith, e)

unfoldable pub sample : NotesDatabase (List NoteRow)
unfolding find_row
sample = record {
  note = find_row;
  find_many = λ rows p order. rows_where rows p;
  find_page = λ rows p order cursor limit. take limit (rows_where rows p);
  create = create_row;
  update = update_row;
  note-id = find_row-id;
  All-find_many = λ rows p order.
      All-kept rows p (in_order rows (ids_of rows)) (in_order-IsRow rows (ids_of rows));
  among-find_many = λ rows p order id r e met.
      among-in_order rows p (ids_of rows) id r e met (find_row-among rows id r e);
  All-find_page = λ rows p order cursor limit.
      All-take (λ r. (find_row rows r.id ≡ some r) × (p r ≡ true)) limit (rows_where rows p)
        (All-kept rows p (in_order rows (ids_of rows)) (in_order-IsRow rows (ids_of rows)));
  create-refused = sample-refused;
  create-written = λ rows c rows' r e.
      let (same, (row, fresh)) = sample-created rows c rows' r e in
      (
        ap (λ x. x.user_id) row,
        (
          ap (λ x. x.parent_id) row,
          (
            ap (λ x. find_row rows x.id) row ∙ fresh,
            λ id. ap (λ l. find_row l id) (same ∙ ap (λ x. x ∷ rows) (sym row)),
          ),
        ),
      );
  update-refused = sample-not_updated;
  update-written = λ rows id user u rows' r e.
      let (old, (there, (row, same))) =
        changed-row rows u (find_row rows id) rows' r (sample-updated rows id user u rows' r e) in
      (
        old,
        (
          there,
          (1, (row, λ other. ap (λ l. find_row l other) (same ∙ ap (λ x. x ∷ rows) (sym row)))),
        ),
      );
}
