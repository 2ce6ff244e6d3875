-- ===== src/Notes/Database.antt =====
-- What the notes service uses of the database client: the table of notes of prisma/schema.prisma,
-- and the queries on it. The laws are those of a table with a unique key; a note or a parent that
-- the query does not find among the user's notes is the client's error P2025.
use notes_md_app_be.Prelude.{
  ℕ, String, ◌≡◌, refl, Bool, true, false, ◌&&◌, Option, none, some, List, [], ◌∷◌, if◌then◌else◌,
  str_eq, All, or_else, ◌⊎◌, inl, inr,
}
use notes_md_app_be.Core.Selectors.{OrderBy}

pub record NoteRow : Type 0 where
  pub id : String
  pub user_id : String
  pub parent_id : Option String
  pub title : String
  pub content : String
  pub created_at : ℕ
  pub updated_at : ℕ

-- `connect` names a parent and the user whose note it has to be.
pub record NoteCreate : Type 0 where
  pub title : String
  pub content : String
  pub user_id : String
  pub connect : Option (String × String)

pub data ParentUpdate : Type 0 where
  unchanged : ParentUpdate
  disconnect : ParentUpdate
  connect_to : String → String → ParentUpdate

pub record NoteUpdate : Type 0 where
  pub title : Option String
  pub content : Option String
  pub parent : ParentUpdate

pub data Written (Db : Type 0) : Type 0 where
  written : Db → NoteRow → Written Db
  not_found : Written Db
  failed : Written Db

pub Written-cases :
    {Db : Type 0} (w : Written Db)
    → ((db : Db) × ((r : NoteRow) × (w ≡ written db r))) ⊎ ((w ≡ not_found) ⊎ (w ≡ failed))
Written-cases (written db r) = inl (db, (r, refl))
Written-cases not_found = inr (inl refl)
Written-cases failed = inr (inr refl)

abbrev pub owns : String → Option NoteRow → Bool
owns user_id none = false
owns user_id (some r) = str_eq r.user_id user_id

abbrev pub is_connected : (String → Option NoteRow) → Option (String × String) → Bool
is_connected note none = true
is_connected note (some (id, user_id)) = owns user_id (note id)

abbrev pub connected_id : Option (String × String) → Option String
connected_id none = none
connected_id (some (id, user_id)) = some id

abbrev pub connect_of : ParentUpdate → Option (String × String)
connect_of unchanged = none
connect_of disconnect = none
connect_of (connect_to id user_id) = some (id, user_id)

abbrev pub new_parent : ParentUpdate → Option String → Option String
new_parent unchanged old = old
new_parent disconnect old = none
new_parent (connect_to id user_id) old = some id

-- A row after an update at a time.
abbrev pub updated : NoteUpdate → ℕ → NoteRow → NoteRow
updated u now r = record r {
  title = or_else u.title r.title;
  content = or_else u.content r.content;
  parent_id = new_parent u.parent r.parent_id;
  updated_at = now;
}

abbrev pub among : List NoteRow → String → Bool
among [] id = false
among (r ∷ rs) id = if str_eq r.id id then true else among rs id

pub record NotesDatabase (Db : Type 0) : Type 0 where
  -- findUnique by the key
  pub note : Db → String → Option NoteRow
  -- findMany: the rows that meet a condition, in an order
  pub find_many : Db → (NoteRow → Bool) → Option OrderBy → List NoteRow
  -- findMany after a cursor, with a limit
  pub find_page : Db → (NoteRow → Bool) → Option OrderBy → Option String → ℕ → List NoteRow
  pub create : Db → NoteCreate → Written Db
  -- update of the note with this id, if it is this user's
  pub update : Db → String → String → NoteUpdate → Written Db
  pub note-id : (db : Db) (id : String) (r : NoteRow) → note db id ≡ some r → r.id ≡ id
  pub All-find_many :
      (db : Db) (p : NoteRow → Bool) (order : Option OrderBy)
      → All (λ r. (note db r.id ≡ some r) × (p r ≡ true)) (find_many db p order)
  pub among-find_many :
      (db : Db) (p : NoteRow → Bool) (order : Option OrderBy) (id : String) (r : NoteRow)
      → note db id ≡ some r
      → p r ≡ true
      → among (find_many db p order) id ≡ true
  pub All-find_page :
      (db : Db) (p : NoteRow → Bool) (order : Option OrderBy) (cursor : Option String) (limit : ℕ)
      → All (λ r. (note db r.id ≡ some r) × (p r ≡ true)) (find_page db p order cursor limit)
  pub create-refused :
      (db : Db) (c : NoteCreate)
      → is_connected (note db) c.connect ≡ false
      → create db c ≡ not_found
  pub create-written :
      (db : Db) (c : NoteCreate) (db' : Db) (r : NoteRow)
      → create db c ≡ written db' r
      → (r.user_id ≡ c.user_id)
        × ((r.parent_id ≡ connected_id c.connect)
            × ((note db r.id ≡ none)
                × ((id : String) → note db' id ≡ (if str_eq r.id id then some r else note db id))))
  pub update-refused :
      (db : Db) (id user_id : String) (u : NoteUpdate)
      → (owns user_id (note db id) && is_connected (note db) (connect_of u.parent)) ≡ false
      → update db id user_id u ≡ not_found
  pub update-written :
      (db : Db) (id user_id : String) (u : NoteUpdate) (db' : Db) (r : NoteRow)
      → update db id user_id u ≡ written db' r
      → (old : NoteRow) × ((note db id ≡ some old)
          × ((now : ℕ) × ((r ≡ updated u now old)
                × ((other : String)
                    → note db' other ≡ (if str_eq r.id other then some r else note db other)))))
