-- ===== src/Notes/Service/Ownership.antt =====
-- Whose notes the writes of the notes service reach.
use notes_md_app_be.Prelude.{
  String, ◌≡◌, refl, sym, ap, subst, Bool, true, false, ◌&&◌, some, List, [], ◌∷◌, str_eq, arith,
  Bool-cases, inl, inr, ◌∙◌, All, and_left, and_right,
}
use notes_md_app_be.Notes.Database.{
  NoteRow, NoteCreate, NoteUpdate, Written, written, not_found, failed, owns, is_connected,
  connect_of, NotesDatabase,
}
use notes_md_app_be.Notes.Service.{
  NoteBase, UpdateNote, to_persistence_create, to_persistence_update, RankedId, update_note,
  create_note, answer,
}
use notes_md_app_be.Notes.Service.Parents.{
  connect-id, parent-cases, ParentsOwned, HaveOwnParents, HaveOwnParents-ParentsOwned,
  ParentsOwned-HaveOwnParents, stored-HaveOwnParents, eq_of_owns, absent_or_there, not_the_owner,
  stored-other,
}

-- A write of a user.
pub data Request : Type 0 where
  creates : String → NoteBase → Request
  updates : String → String → UpdateNote → Request

abbrev pub requester : Request → String
requester (creates user_id note) = user_id
requester (updates user_id id note) = user_id

module _ {Db : Type 0} (d : NotesDatabase Db) (locale : String → String → Bool)
    (search : Db → String → String → List RankedId) where
  unfoldable pub serve : Db → Request → Db
  serve db (creates user_id note) = (create_note d locale search db note user_id).0
  serve db (updates user_id id note) = (update_note d locale search db note id user_id).0

  unfoldable pub serve_all : Db → List Request → Db
  serve_all db [] = db
  serve_all db (r ∷ rs) = serve_all (serve db r) rs

  create-connected :
      (db : Db) (c : NoteCreate) (db' : Db) (r : NoteRow)
      → d.create db c ≡ written db' r
      → is_connected (d.note db) c.connect ≡ true
  create-connected db c db' r e = elim (Bool-cases (is_connected (d.note db) c.connect)) [
    | inl t ↦ t
    | inr f ↦ ground (arith, e, d.create-refused db c f)
  ]

  update-connected :
      (db : Db) (id user : String) (u : NoteUpdate) (db' : Db) (r : NoteRow)
      → d.update db id user u ≡ written db' r
      → (owns user (d.note db id) && is_connected (d.note db) (connect_of u.parent)) ≡ true
  update-connected db id user u db' r e =
      elim (Bool-cases
        (owns user (d.note db id) && is_connected (d.note db) (connect_of u.parent))) [
          | inl t ↦ t
          | inr f ↦ ground (arith, e, d.update-refused db id user u f)
        ]

  created-HaveOwnParents :
      (db : Db) (note : NoteBase) (user : String) (db' : Db) (r : NoteRow)
      → HaveOwnParents (d.note db)
      → d.create db (to_persistence_create note user) ≡ written db' r
      → HaveOwnParents (d.note db')
  unfolding to_persistence_create
  created-HaveOwnParents db note user db' r h e =
      let (u, (c, (fresh, at))) = d.create-written db (to_persistence_create note user) db' r e in
      let connected = create-connected db (to_persistence_create note user) db' r e in
      stored-HaveOwnParents (d.note db) (d.note db') r at (λ user o. ground (arith, o, fresh))
        (λ p parent.
          let linked = connect-id note.parent_id user p (sym c ∙ parent) in
          subst (λ x. owns x (d.note db p) ≡ true) (sym u)
            (subst (λ o. is_connected (d.note db) o ≡ true) linked connected))
        h

  updated-HaveOwnParents :
      (db : Db) (id user : String) (note : UpdateNote) (db' : Db) (r : NoteRow)
      → HaveOwnParents (d.note db)
      → d.update db id user (to_persistence_update note user) ≡ written db' r
      → HaveOwnParents (d.note db')
  unfolding to_persistence_update
  updated-HaveOwnParents db id user note db' r h e =
      let (old, (there, (now, (row, at)))) =
        d.update-written db id user (to_persistence_update note user) db' r e in
      let ok = update-connected db id user (to_persistence_update note user) db' r e in
      stored-HaveOwnParents (d.note db) (d.note db') r at
        (λ user o.
          let same = ap (λ x. x.id) row ∙ d.note-id db id old there in
          subst (λ x. str_eq x user ≡ true) (sym (ap (λ x. x.user_id) row))
            (subst (λ x. owns user x ≡ true) (ap (d.note db) same ∙ there) o))
        (λ p parent.
          let own = eq_of_owns user (d.note db id) old there (and_left _ _ ok) in
          subst (λ x. owns x (d.note db p) ≡ true) (sym (ap (λ x. x.user_id) row))
            (elim (parent-cases note.parent_id user p old.parent_id
              (sym (ap (λ x. x.parent_id) row) ∙ parent)) [
                | inl before ↦ h id old p there before
                | inr linked ↦
                    subst (λ x. owns x (d.note db p) ≡ true) (sym own)
                      (subst (λ o. is_connected (d.note db) o ≡ true) linked (and_right _ _ ok))
              ]))
        h

  -- What a write keeps: what its row keeps, as an error leaves the database alone.
  kept_by_answer :
      (P : Db → Type 0) (db : Db) (w : Written Db)
      → ((db' : Db) (r : NoteRow) → w ≡ written db' r → P db')
      → P db
      → P (answer d locale search db w).0
  kept_by_answer P db (written db' r) k h = k db' r refl
  kept_by_answer P db not_found k h = h
  kept_by_answer P db failed k h = h

  serve-HaveOwnParents :
      (db : Db) (q : Request) → HaveOwnParents (d.note db) → HaveOwnParents (d.note (serve db q))
  unfolding serve create_note update_note
  serve-HaveOwnParents db (creates user note) h =
      kept_by_answer (λ x. HaveOwnParents (d.note x)) db
        (d.create db (to_persistence_create note user))
        (λ db' r. created-HaveOwnParents db note user db' r h) h
  serve-HaveOwnParents db (updates user id note) h =
      kept_by_answer (λ x. HaveOwnParents (d.note x)) db
        (d.update db id user (to_persistence_update note user))
        (λ db' r. updated-HaveOwnParents db id user note db' r h) h

  serve_all-HaveOwnParents :
      (db : Db) (qs : List Request)
      → HaveOwnParents (d.note db)
      → HaveOwnParents (d.note (serve_all db qs))
  unfolding serve_all
  serve_all-HaveOwnParents db [] h = h
  serve_all-HaveOwnParents db (q ∷ qs) h =
      serve_all-HaveOwnParents (serve db q) qs (serve-HaveOwnParents db q h)

  -- After any sequence of notes that users create and of updates that they make, the parent of
  -- every note is a note of the same user, if that was so before.
  pub serve_all-ParentsOwned :
      (db : Db) (qs : List Request)
      → ParentsOwned (d.note db)
      → ParentsOwned (d.note (serve_all db qs))
  serve_all-ParentsOwned db qs h =
      ParentsOwned-HaveOwnParents (d.note (serve_all db qs))
        (serve_all-HaveOwnParents db qs (HaveOwnParents-ParentsOwned (d.note db) h))

  -- `serve` leaves the notes of the others as they are.
  serve-others :
      (db : Db) (q : Request) (id : String) (r : NoteRow)
      → str_eq (requester q) r.user_id ≡ false
      → d.note db id ≡ some r
      → d.note (serve db q) id ≡ some r
  unfolding serve create_note update_note
  serve-others db (creates user note) id r other there =
      kept_by_answer (λ x. d.note x id ≡ some r) db (d.create db (to_persistence_create note user))
        (λ db' new e.
          let (u, (c, (fresh, at))) =
            d.create-written db (to_persistence_create note user) db' new e in
          at id
          ∙ (stored-other (d.note db) new id
                (λ same. absent_or_there (d.note db) new.id id r same fresh there)
              ∙ there))
        there
  serve-others db (updates user i note) id r other there =
      kept_by_answer (λ x. d.note x id ≡ some r) db
        (d.update db i user (to_persistence_update note user))
        (λ db' new e.
          let (old, (old_there, (now, (row, at)))) =
            d.update-written db i user (to_persistence_update note user) db' new e in
          let ok = update-connected db i user (to_persistence_update note user) db' new e in
          at id
          ∙ (stored-other (d.note db) new id (λ same.
                not_the_owner (d.note db) user i id r other
                  (sym (ap (λ x. x.id) row ∙ d.note-id db i old old_there) ∙ same) there
                  (and_left _ _ ok))
              ∙ there))
        there

  -- The requests of other users, in any number, leave a note of a user as it is: text, parent and
  -- times.
  pub serve_all-others :
      (db : Db) (qs : List Request) (id : String) (r : NoteRow)
      → All (λ q. str_eq (requester q) r.user_id ≡ false) qs
      → d.note db id ≡ some r
      → d.note (serve_all db qs) id ≡ some r
  unfolding serve_all
  serve_all-others db [] id r others there = there
  serve_all-others db (q ∷ qs) id r (other, others) there =
      serve_all-others (serve db q) qs id r others (serve-others db q id r other there)
