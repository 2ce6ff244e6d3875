-- ===== src/Auth/Sample.antt =====
-- A database and a token library that meet the laws of Database.antt, for the tests.
use notes_md_app_be.Prelude.{
  ℕ, ◌+◌, ◌/◌, ◌≤◌, ◌<◌, String, ◌≡◌, refl, Bool, true, ◌&&◌, Option, none, some, [], ◌∷◌, str_eq,
  if◌then◌else◌, arith, eq_iff, Option-cases, Bool-cases, inl, inr, ltb, subst, ap, sym, ◌∙◌,
}
use notes_md_app_be.Prelude.Map
use notes_md_app_be.Prelude.Map.{Map}
use notes_md_app_be.Auth.Database.{
  User, RefreshTokenRow, Database, AccessTokenPayload, RefreshTokenPayload, Verified, payload,
  bad_token, Jwt, revoke_if, count_one, bumped,
}

pub record Row : Type 0 where
  pub user_id : String
  pub expires_at : ℕ
  pub revoked : Bool

pub record Account : Type 0 where
  pub email : String
  pub password : String
  pub token_version : ℕ

pub record Tables : Type 0 where
  pub rows : Map Row
  pub unique : Map.IsUnique rows
  pub accounts : Map Account

abbrev with_jti : String → Row → RefreshTokenRow
with_jti jti r = record {
  jti = jti;
  user_id = r.user_id;
  expires_at = r.expires_at;
  revoked = r.revoked;
}

abbrev as_row : RefreshTokenRow → Row
as_row r = record { user_id = r.user_id; expires_at = r.expires_at; revoked = r.revoked }

abbrev with_id : String → Account → User
with_id id a = record {
  id = id;
  email = a.email;
  password = a.password;
  token_version = a.token_version;
}

abbrev read_row : String → Option Row → Option RefreshTokenRow
read_row jti none = none
read_row jti (some r) = some (with_jti jti r)

abbrev read_user : String → Option Account → Option User
read_user id none = none
read_user id (some a) = some (with_id id a)

abbrev token : Tables → String → Option RefreshTokenRow
token db jti = read_row jti (Map.get db.rows jti)

abbrev user : Tables → String → Option User
user db id = read_user id (Map.get db.accounts id)

unfoldable pub find_email : Map Account → String → Option User
find_email [] email = none
find_email ((id, a) ∷ m) email =
    if str_eq a.email email then some (with_id id a) else find_email m email

unfoldable pub revoke_rows : (RefreshTokenRow → Bool) → Map Row → Map Row
revoke_rows p [] = []
revoke_rows p ((j, r) ∷ m) =
    (j, (if p (with_jti j r) then record r { revoked = true } else r)) ∷ revoke_rows p m

unfoldable pub count_rows : (RefreshTokenRow → Bool) → Map Row → ℕ
count_rows p [] = 0
count_rows p ((j, r) ∷ m) = (if p (with_jti j r) then 1 else 0) + count_rows p m

pub get-revoke_rows :
    (p : RefreshTokenRow → Bool) (m : Map Row) (jti : String)
    → read_row jti (Map.get (revoke_rows p m) jti) ≡ revoke_if p (read_row jti (Map.get m jti))
unfolding revoke_rows Map.get
get-revoke_rows p [] jti = refl
get-revoke_rows p ((j, r) ∷ m) jti = ground (arith, eq_iff j jti, get-revoke_rows p m jti)

get-revoke_rows-none :
    (p : RefreshTokenRow → Bool) (m : Map Row) (jti : String)
    → Map.get m jti ≡ none
    → Map.get (revoke_rows p m) jti ≡ none
unfolding revoke_rows Map.get
get-revoke_rows-none p [] jti e = refl
get-revoke_rows-none p ((j, r) ∷ m) jti e = ground (arith, get-revoke_rows-none p m jti)

pub revoke_rows-IsUnique :
    (p : RefreshTokenRow → Bool) (m : Map Row) → Map.IsUnique m → Map.IsUnique (revoke_rows p m)
unfolding revoke_rows
revoke_rows-IsUnique p [] u = tt
revoke_rows-IsUnique p ((j, r) ∷ m) (fresh, u) =
    (get-revoke_rows-none p m j fresh, revoke_rows-IsUnique p m u)

count_rows-absent :
    (p : RefreshTokenRow → Bool) (m : Map Row) (jti : String)
    → Map.get m jti ≡ none
    → count_rows (λ r. str_eq r.jti jti && p r) m ≡ 0
unfolding count_rows Map.get
count_rows-absent p [] jti e = refl
count_rows-absent p ((j, r) ∷ m) jti e = ground (arith, eq_iff j jti, count_rows-absent p m jti)

pub count_rows-one :
    (p : RefreshTokenRow → Bool) (m : Map Row) (jti : String)
    → Map.IsUnique m
    → count_rows (λ r. str_eq r.jti jti && p r) m ≡ count_one p (read_row jti (Map.get m jti))
unfolding count_rows Map.get
count_rows-one p [] jti u = refl
count_rows-one p ((j, r) ∷ m) jti (fresh, u) = elim (Bool-cases (str_eq j jti)) [
  | inl same ↦ ground (
    arith,
    same,
    count_rows-absent p m jti (subst (λ k. Map.get m k ≡ none) ((eq_iff j jti).0 same) fresh),
    ap (λ k. with_jti k r) ((eq_iff j jti).0 same),
  )
  | inr other ↦ ground (arith, other, count_rows-one p m jti u)
]

abbrev create_token : Tables → RefreshTokenRow → Option Tables
create_token db r = elim (Map.get db.rows r.jti) [
  | some old ↦ none
  | none ↦ some (record {
    rows = Map.set db.rows r.jti (as_row r);
    unique = Map.set-IsUnique db.rows r.jti (as_row r) db.unique;
    accounts = db.accounts;
  })
]

abbrev create_user : Tables → String → String → Option (Tables × User)
create_user db email password = elim (find_email db.accounts email) [
  | some old ↦ none
  | none ↦
      let a : Account = record { email = email; password = password; token_version = 0 } in
      some (
        record { rows = db.rows; unique = db.unique; accounts = Map.set db.accounts email a },
        with_id email a,
      )
]

abbrev bump : Tables → String → Option Tables
bump db id = elim (Map.get db.accounts id) [
  | none ↦ none
  | some a ↦ some (record {
    rows = db.rows;
    unique = db.unique;
    accounts = Map.set db.accounts id (record a { token_version = a.token_version + 1 });
  })
]

-- What can be read after an operation that may fail.
abbrev rows_after : Tables → Option Tables → Map Row
rows_after db none = db.rows
rows_after db (some db') = db'.rows

abbrev accounts_after : Tables → Option Tables → Map Account
accounts_after db none = db.accounts
accounts_after db (some db') = db'.accounts

pub rows-create :
    (db : Tables) (r : RefreshTokenRow) (db' : Tables)
    → create_token db r ≡ some db'
    → (Map.get db.rows r.jti ≡ none)
      × (db'.rows ≡ Map.set db.rows r.jti (as_row r))
      × (db'.accounts ≡ db.accounts)
rows-create db r db' e = elim (Option-cases (Map.get db.rows r.jti)) [
  | inr (old, found) ↦ absurd (ground (arith, found, e))
  | inl fresh ↦ (
    fresh,
    sym (ap (rows_after db) e) ∙ ground (arith, fresh),
    sym (ap (accounts_after db) e) ∙ ground (arith, fresh),
  )
]

pub token-create_lem :
    (db : Tables) (r : RefreshTokenRow) (db' : Tables) (jti : String)
    → create_token db r ≡ some db'
    → token db' jti ≡ (if str_eq r.jti jti then some r else token db jti)
token-create_lem db r db' jti e =
    let (fresh, written, same) = rows-create db r db' e in
    ground (arith, written, Map.get-set db.rows r.jti (as_row r) jti, eq_iff r.jti jti)

pub accounts-bump :
    (db : Tables) (id : String) (db' : Tables)
    → bump db id ≡ some db'
    → (a : Account) × (Map.get db.accounts id ≡ some a)
      × (db'.rows ≡ db.rows)
      × (db'.accounts ≡ Map.set db.accounts id (record a { token_version = a.token_version + 1 }))
accounts-bump db id db' e = elim (Option-cases (Map.get db.accounts id)) [
  | inl missing ↦ absurd (ground (arith, missing, e))
  | inr (a, found) ↦ (
    a,
    found,
    sym (ap (rows_after db) e) ∙ ground (arith, found),
    sym (ap (accounts_after db) e) ∙ ground (arith, found),
  )
]

pub user-bump_lem :
    (db : Tables) (id : String) (db' : Tables) (other : String)
    → bump db id ≡ some db'
    → user db' other ≡ (if str_eq id other then bumped (user db id) else user db other)
user-bump_lem db id db' other e =
    let (a, found, rows, written) = accounts-bump db id db' e in
    ground (
      arith,
      written,
      found,
      Map.get-set db.accounts id (record a { token_version = a.token_version + 1 }) other,
      eq_iff id other,
    )

pub token-jti_lem :
    (o : Option Row) (jti : String) (r : RefreshTokenRow) → read_row jti o ≡ some r → r.jti ≡ jti
token-jti_lem o jti r e = ground arith

pub user-id_lem :
    (o : Option Account) (id : String) (u : User) → read_user id o ≡ some u → u.id ≡ id
user-id_lem o id u e = ground arith

pub taken_lem :
    (db : Tables) (r old : RefreshTokenRow) → token db r.jti ≡ some old → create_token db r ≡ none
taken_lem db r old e = ground arith

abbrev pub database : Database Tables
database = record {
  token = token;
  user = user;
  user_by_email = λ db email. find_email db.accounts email;
  create_token = create_token;
  revoke_tokens = λ db p. (
    record {
      rows = revoke_rows p db.rows;
      unique = revoke_rows-IsUnique p db.rows db.unique;
      accounts = db.accounts;
    },
    count_rows p db.rows,
  );
  create_user = create_user;
  bump_token_version = bump;
  token-jti = λ db jti r e. token-jti_lem (Map.get db.rows jti) jti r e;
  user-id = λ db id u e. user-id_lem (Map.get db.accounts id) id u e;
  token-create = token-create_lem;
  create_token-taken = λ db r old e. taken_lem db r old e;
  token-revoke = λ db p jti. get-revoke_rows p db.rows jti;
  count-revoke = λ db p jti. count_rows-one p db.rows jti db.unique;
  user-create_token =
      λ db r db' id e. ap (λ m. read_user id (Map.get m id)) (rows-create db r db' e).2;
  user-revoke = λ db p id. refl;
  user-bump = user-bump_lem;
  token-bump =
      λ db id db' jti e. ap (λ m. read_row jti (Map.get m jti)) (accounts-bump db id db' e).2;
}

-- A signed token, with the time of its signature.
pub data Signed : Type 0 where
  access : AccessTokenPayload → ℕ → Signed
  refresh : RefreshTokenPayload → ℕ → Signed

abbrev verify_access : Signed → ℕ → Verified AccessTokenPayload
verify_access (access p t) now = if ltb (now / 1000) (t / 1000 + 900) then payload p else bad_token
verify_access (refresh p t) now = bad_token

abbrev verify_refresh : Signed → ℕ → Verified RefreshTokenPayload
verify_refresh (refresh p t) now =
    if ltb (now / 1000) (t / 1000 + 1209600) then payload p else bad_token
verify_refresh (access p t) now = bad_token

pub verify_refresh_same_lem :
    (s : Signed) (t now : ℕ) (p q : RefreshTokenPayload)
    → verify_refresh s t ≡ payload p
    → verify_refresh s now ≡ payload q
    → p ≡ q
verify_refresh_same_lem (refresh r at) t now p q e f = ground (arith, e, f)
verify_refresh_same_lem (access r at) t now p q e f = cc

pub verify-sign_access_lem :
    (p : AccessTokenPayload) (t now : ℕ)
    → t ≤ now
    → now / 1000 < t / 1000 + 900000 / 1000
    → verify_access (access p t) now ≡ payload p
verify-sign_access_lem p t now le lt = ground arith

pub verify-sign_refresh_lem :
    (p : RefreshTokenPayload) (t now : ℕ)
    → t ≤ now
    → now / 1000 < t / 1000 + 1209600000 / 1000
    → verify_refresh (refresh p t) now ≡ payload p
verify-sign_refresh_lem p t now le lt = ground arith

abbrev pub jwt : Jwt Signed
jwt = record {
  access_life = 900000;
  refresh_life = 1209600000;
  sign_access = access;
  verify_access = verify_access;
  sign_refresh = refresh;
  verify_refresh = verify_refresh;
  verify-sign_access = verify-sign_access_lem;
  verify-sign_refresh = verify-sign_refresh_lem;
  verify_refresh_same = verify_refresh_same_lem;
}
