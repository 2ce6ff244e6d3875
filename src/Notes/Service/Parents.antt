-- ===== src/Notes/Service/Parents.antt =====
-- The parents of the notes in a table, when one row is written.
use notes_md_app_be.Prelude.{
  String, ◌≡◌, refl, sym, ap, subst, Bool, true, false, Option, none, some, if◌then◌else◌, str_eq,
  eq_iff, arith, Bool-cases, ◌⊎◌, inl, inr, ◌∙◌,
}
use notes_md_app_be.Notes.Database.{NoteRow, owns, connected_id, connect_of, new_parent}
use notes_md_app_be.Notes.Service.{Given, undefined, null, given, connect_given, parent_given}

pub connect-id :
    (g : Given) (user p : String)
    → connected_id (connect_given g user) ≡ some p
    → connect_given g user ≡ some (p, user)
connect-id undefined user p e = ground (arith, e)
connect-id null user p e = ground (arith, e)
connect-id (given id) user p e = ground (arith, e)

-- The parents after an update: an old one, or one that the query found among the user's notes.
pub parent-cases :
    (g : Given) (user p : String) (old : Option String)
    → new_parent (parent_given g user) old ≡ some p
    → (old ≡ some p) ⊎ (connect_of (parent_given g user) ≡ some (p, user))
parent-cases undefined user p old e = inl e
parent-cases null user p old e = ground (arith, e)
parent-cases (given id) user p old e = inr (ground (arith, e))

-- Every parent is a note of the same user.
abbrev pub owns_parent : (String → Option NoteRow) → String → Option String → Bool
owns_parent note user_id none = true
owns_parent note user_id (some p) = owns user_id (note p)

abbrev pub row_is_owned : (String → Option NoteRow) → Option NoteRow → Bool
row_is_owned note none = true
row_is_owned note (some r) = owns_parent note r.user_id r.parent_id

abbrev pub ParentsOwned : (String → Option NoteRow) → Type 0
ParentsOwned note = (id : String) → row_is_owned note (note id) ≡ true

-- The same of a row and its parent.
abbrev pub HaveOwnParents : (String → Option NoteRow) → Type 0
HaveOwnParents note =
    (id : String) (r : NoteRow) (p : String)
    → note id ≡ some r
    → r.parent_id ≡ some p
    → owns r.user_id (note p) ≡ true

pub HaveOwnParents-ParentsOwned :
    (note : String → Option NoteRow) → ParentsOwned note → HaveOwnParents note
HaveOwnParents-ParentsOwned note h id r p there parent =
    subst (λ o. owns_parent note r.user_id o ≡ true) parent
      (subst (λ o. row_is_owned note o ≡ true) there (h id))

pub owned_parent :
    (note : String → Option NoteRow) (id : String) (r : NoteRow) (parent : Option String)
    → HaveOwnParents note
    → note id ≡ some r
    → r.parent_id ≡ parent
    → owns_parent note r.user_id parent ≡ true
owned_parent note id r none h e f = refl
owned_parent note id r (some p) h e f = h id r p e f

pub owned_row :
    (note : String → Option NoteRow) (id : String) (found : Option NoteRow)
    → HaveOwnParents note
    → note id ≡ found
    → row_is_owned note found ≡ true
owned_row note id none h e = refl
owned_row note id (some r) h e = owned_parent note id r r.parent_id h e refl

pub ParentsOwned-HaveOwnParents :
    (note : String → Option NoteRow) → HaveOwnParents note → ParentsOwned note
ParentsOwned-HaveOwnParents note h id = owned_row note id (note id) h refl

abbrev pub stored : (String → Option NoteRow) → NoteRow → String → Option NoteRow
stored note r id = if str_eq r.id id then some r else note id

pub owns-stored :
    (note : String → Option NoteRow) (r : NoteRow) (user p : String)
    → (owns user (note r.id) ≡ true → str_eq r.user_id user ≡ true)
    → owns user (note p) ≡ true
    → owns user (stored note r p) ≡ true
owns-stored note r user p kept o = elim (Bool-cases (str_eq r.id p)) [
  | inl same ↦
      rw same (kept (subst (λ x. owns user (note x) ≡ true) (sym ((eq_iff r.id p).0 same)) o))
  | inr other ↦ rw other o
]

pub stored-same :
    (note : String → Option NoteRow) (r q : NoteRow) (id : String)
    → str_eq r.id id ≡ true
    → stored note r id ≡ some q
    → r ≡ q
stored-same note r q id same e = ground (arith, same, e)

pub stored-HaveOwnParents :
    (note note' : String → Option NoteRow) (r : NoteRow)
    → ((id : String) → note' id ≡ stored note r id)
    → ((user : String) → owns user (note r.id) ≡ true → str_eq r.user_id user ≡ true)
    → ((p : String) → r.parent_id ≡ some p → owns r.user_id (note p) ≡ true)
    → HaveOwnParents note
    → HaveOwnParents note'
stored-HaveOwnParents note note' r at kept own h id q p there parent = rw (at p) (
    owns-stored note r q.user_id p (kept q.user_id) (elim (Bool-cases (str_eq r.id id)) [
      | inl same ↦
          let eq = stored-same note r q id same (sym (at id) ∙ there) in
          subst (λ x. owns x.user_id (note p) ≡ true) eq (own p (ap (λ x. x.parent_id) eq ∙ parent))
      | inr other ↦ h id q p (ground (arith, there, at id, other)) parent
    ]))

pub eq_of_owns :
    (user : String) (found : Option NoteRow) (r : NoteRow)
    → found ≡ some r
    → owns user found ≡ true
    → r.user_id ≡ user
eq_of_owns user found r e o = (eq_iff r.user_id user).0 (subst (λ x. owns user x ≡ true) e o)

pub absent_or_there :
    (note : String → Option NoteRow) (a b : String) (r : NoteRow)
    → a ≡ b
    → note a ≡ none
    → note b ≡ some r
    → ⊥
absent_or_there note a b r e absent there =
    ground (arith, sym (subst (λ x. note x ≡ none) e absent) ∙ there)

pub not_the_owner :
    (note : String → Option NoteRow) (user a b : String) (r : NoteRow)
    → str_eq user r.user_id ≡ false
    → a ≡ b
    → note b ≡ some r
    → owns user (note a) ≡ true
    → ⊥
not_the_owner note user a b r other e there o =
    let same = eq_of_owns user (note b) r there (subst (λ x. owns user (note x) ≡ true) e o) in
    ground (arith, other, same, eq_iff user r.user_id)

pub stored-other :
    (note : String → Option NoteRow) (new : NoteRow) (id : String)
    → (new.id ≡ id → ⊥)
    → stored note new id ≡ note id
stored-other note new id differ = elim (Bool-cases (str_eq new.id id)) [
  | inl same ↦ elim (differ ((eq_iff new.id id).0 same)) [ ]
  | inr other ↦ rw other refl
]
