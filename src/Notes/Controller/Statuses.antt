-- ===== src/Notes/Controller/Statuses.antt =====
-- The statuses of the requests for a note.
use notes_md_app_be.Prelude.{
  String, ◌≡◌, refl, ap, Bool, true, false, Option, none, some, List, [], or_else, All, ◌⊎◌, inl,
  inr, ◌∙◌, Bool-cases, str_eq, eq_iff, some_eq, none-some, subst, ◌∷◌,
}
use notes_md_app_be.Core.Selectors.{from_string_to_array, with_keys, includes}
use notes_md_app_be.Notes.Database.{NoteRow, NotesDatabase}
use notes_md_app_be.Notes.Service.{Note, RankedId, own_row}
use notes_md_app_be.Notes.Trees.{GetNoteQuery, Answer, NoteWithFamily, get_note_with_family}
use notes_md_app_be.Notes.Trees.Shown.{
  IsShown, Shows, asked, parent_of, tree_below, get_note_with_family-Shows,
}
use notes_md_app_be.Notes.Controller.{
  Response, ok, bad_request, note_not_found, all_allowed, allowed_note_fields,
  validate_and_normalize_fields, answer_response, get_note_by_id,
}

-- Every field that is named may be asked for.
abbrev pub AreAllowed : Option String → Type 0
AreAllowed raw =
    All (λ f. includes allowed_note_fields f ≡ true) (or_else (from_string_to_array raw) [])

-- The user has no note of this id.
abbrev pub IsMissing : Option NoteRow → String → Type 0
IsMissing found user = (r : NoteRow) → found ≡ some r → r.user_id ≡ user → ⊥

true-false : (b : Bool) → b ≡ true → b ≡ false → ⊥
true-false b e f = cc

all_allowed-cases :
    (fields : List String)
    → (All (λ f. includes allowed_note_fields f ≡ true) fields × (all_allowed fields ≡ true))
      ⊎ ((All (λ f. includes allowed_note_fields f ≡ true) fields → ⊥)
          × (all_allowed fields ≡ false))
unfolding all_allowed
all_allowed-cases [] = inl (tt, refl)
all_allowed-cases (f ∷ fs) = elim (Bool-cases (includes allowed_note_fields f)) [
  | inl good ↦ elim (all_allowed-cases fs) [
    | inl (h, e) ↦ inl ((good, h), rw (good, e) refl)
    | inr (h, e) ↦ inr (λ all. h all.1, rw (good, e) refl)
  ]
  | inr bad ↦ inr (λ all. true-false _ all.0 bad, rw bad refl)
]

-- A field that is refused, or a list of fields.
validated-cases :
    (raw : Option String)
    → (AreAllowed raw
        × ((fields : List String) × (validate_and_normalize_fields raw ≡ some fields)))
      ⊎ ((AreAllowed raw → ⊥) × (validate_and_normalize_fields raw ≡ none))
unfolding validate_and_normalize_fields
validated-cases raw = elim (all_allowed-cases (or_else (from_string_to_array raw) [])) [
  | inl (h, e) ↦ inl (h, (with_keys [] (or_else (from_string_to_array raw) []), rw e refl))
  | inr (h, e) ↦ inr (h, rw e refl)
]

own_row-cases :
    (user : String) (found : Option NoteRow)
    → ((r : NoteRow) × (found ≡ some r) × (r.user_id ≡ user) × (own_row user found ≡ some r))
      ⊎ (IsMissing found user × (own_row user found ≡ none))
unfolding own_row
own_row-cases user none = inr (λ r e own. none-some r e, refl)
own_row-cases user (some r) = elim (Bool-cases (str_eq r.user_id user)) [
  | inl same ↦ inl (r, refl, (eq_iff r.user_id user).0 same, rw same refl)
  | inr other ↦ inr (
    λ x e own.
        true-false _
          ((eq_iff r.user_id user).1 (ap (λ (y : NoteRow). y.user_id) (some_eq r x e) ∙ own)) other,
    rw other refl,
  )
]

module _ {Db : Type 0} (d : NotesDatabase Db) (locale : String → String → Bool)
    (search : Db → String → String → List RankedId) where
  -- The user's note, with the tree of the notes below it, and its parent if asked for.
  abbrev pub IsOfNote :
      Db → String → String → GetNoteQuery → Response (NoteWithFamily × Option Note) → Type 0
  IsOfNote db id sub query response =
      (r : NoteRow) × (d.note db id ≡ some r)
      × (r.user_id ≡ sub)
      × ((x : NoteWithFamily) × IsShown (asked d locale search query r) x
            (tree_below d locale search db query sub r)
          × (response
              ≡ ok (x, parent_of d locale search db query sub query.expand_parent r.parent_id)))

  -- 400, 404, or the note.
  abbrev pub HasStatus :
      Db → String → String → GetNoteQuery → Response (NoteWithFamily × Option Note) → Type 0
  HasStatus db id sub query response =
      (((AreAllowed query.fields × AreAllowed query.children_fields) → ⊥)
        × (response ≡ bad_request))
      ⊎ ((AreAllowed query.fields × AreAllowed query.children_fields)
          × (IsOfNote db id sub query response
              ⊎ (IsMissing (d.note db id) sub × (response ≡ note_not_found))))

  answer-HasStatus :
      (db : Db) (id sub : String) (query : GetNoteQuery) (reply : Answer)
      → Shows d locale search db query sub (own_row sub (d.note db id)) reply
      → IsOfNote db id sub query (answer_response reply)
        ⊎ (IsMissing (d.note db id) sub × (answer_response reply ≡ note_not_found))
  answer-HasStatus db id sub query reply shows = elim (own_row-cases sub (d.note db id)) [
    | inl (r, there, own, e) ↦
        let (x, shown, same) =
          subst (λ row. Shows d locale search db query sub row reply) e shows in
        inl (r, there, own, (x, shown, ap answer_response same))
    | inr (missing, e) ↦ inr (
      missing,
      ap answer_response (subst (λ row. Shows d locale search db query sub row reply) e shows),
    )
  ]

  -- A request for a note by its id is refused as bad exactly when it names a field that is not
  -- allowed, for the note or for its children; else it is answered by 404 exactly when no note of
  -- this id is the user's, and otherwise by 200 with the columns of the note's own row that were
  -- asked for, with all notes of the tree that is loaded below this note, as they stand in it, and,
  -- if the query asks for it, with the parent that the row names if that is the user's, too. It is
  -- never a server error.
  pub get_note_by_id-HasStatus :
      (db : Db) (id sub : String) (query : GetNoteQuery)
      → HasStatus db id sub query (get_note_by_id d locale search db id sub query)
  unfolding get_note_by_id
  get_note_by_id-HasStatus db id sub query = elim (validated-cases query.fields) [
    | inr (bad, e) ↦ inl (λ both. bad both.0, rw e refl)
    | inl (good, (fields, e)) ↦ elim (validated-cases query.children_fields) [
      | inr (bad, f) ↦ inl (λ both. bad both.1, rw (e, f) refl)
      | inl (fine, (children, f)) ↦ inr (
        (good, fine),
        rw (e, f)
            (answer-HasStatus db id sub query (get_note_with_family d locale search db id query sub)
              (get_note_with_family-Shows d locale search db id query sub)),
      )
    ]
  ]
