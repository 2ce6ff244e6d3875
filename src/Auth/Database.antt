-- ===== src/Auth/Database.antt =====
-- What the services of modules/auth use of the database client and of the token library, neither of
-- which is part of this repository: prisma/schema.prisma gives the two tables, @nestjs/jwt the
-- signatures. Contents are read by unique keys; the laws are those of a table with a unique key.
use notes_md_app_be.Prelude.{
  ℕ, ◌+◌, ◌/◌, ◌≤◌, ◌<◌, String, ◌≡◌, Bool, true, ◌&&◌, Option, none, some, str_eq, if◌then◌else◌,
  ◌⊎◌, inl, inr, refl,
}

pub record User : Type 0 where
  pub id : String
  pub email : String
  pub password : String
  pub token_version : ℕ

pub record RefreshTokenRow : Type 0 where
  pub jti : String
  pub user_id : String
  pub expires_at : ℕ
  pub revoked : Bool

abbrev pub revoke_if : (RefreshTokenRow → Bool) → Option RefreshTokenRow → Option RefreshTokenRow
revoke_if p none = none
revoke_if p (some r) = some (if p r then record r { revoked = true } else r)

abbrev pub count_one : (RefreshTokenRow → Bool) → Option RefreshTokenRow → ℕ
count_one p none = 0
count_one p (some r) = if p r then 1 else 0

abbrev pub bumped : Option User → Option User
bumped none = none
bumped (some u) = some (record u { token_version = u.token_version + 1 })

-- `Db` is the state of the database.
pub record Database (Db : Type 0) : Type 0 where
  -- refreshToken.findUnique, user.findUnique by id and by email
  pub token : Db → String → Option RefreshTokenRow
  pub user : Db → String → Option User
  pub user_by_email : Db → String → Option User
  -- refreshToken.create; none: the id is taken
  pub create_token : Db → RefreshTokenRow → Option Db
  -- refreshToken.updateMany with `revoked: true` as data, and the number of rows that it wrote
  pub revoke_tokens : Db → (RefreshTokenRow → Bool) → Db × ℕ
  -- user.create; none: the email is taken
  pub create_user : Db → String → String → Option (Db × User)
  -- user.update with an increment of tokenVersion; none: no such user
  pub bump_token_version : Db → String → Option Db
  pub token-jti :
      (db : Db) (jti : String) (r : RefreshTokenRow) → token db jti ≡ some r → r.jti ≡ jti
  pub user-id : (db : Db) (id : String) (u : User) → user db id ≡ some u → u.id ≡ id
  pub token-create :
      (db : Db) (r : RefreshTokenRow) (db' : Db) (jti : String)
      → create_token db r ≡ some db'
      → token db' jti ≡ (if str_eq r.jti jti then some r else token db jti)
  pub create_token-taken :
      (db : Db) (r old : RefreshTokenRow) → token db r.jti ≡ some old → create_token db r ≡ none
  pub token-revoke :
      (db : Db) (p : RefreshTokenRow → Bool) (jti : String)
      → token (revoke_tokens db p).0 jti ≡ revoke_if p (token db jti)
  pub count-revoke :
      (db : Db) (p : RefreshTokenRow → Bool) (jti : String)
      → (revoke_tokens db (λ r. str_eq r.jti jti && p r)).1 ≡ count_one p (token db jti)
  pub user-create_token :
      (db : Db) (r : RefreshTokenRow) (db' : Db) (id : String)
      → create_token db r ≡ some db'
      → user db' id ≡ user db id
  pub user-revoke :
      (db : Db) (p : RefreshTokenRow → Bool) (id : String)
      → user (revoke_tokens db p).0 id ≡ user db id
  pub user-bump :
      (db : Db) (id : String) (db' : Db) (other : String)
      → bump_token_version db id ≡ some db'
      → user db' other ≡ (if str_eq id other then bumped (user db id) else user db other)
  pub token-bump :
      (db : Db) (id : String) (db' : Db) (jti : String)
      → bump_token_version db id ≡ some db'
      → token db' jti ≡ token db jti

-- The payloads, without the times that the library adds (`iat`, `exp`).
pub record AccessTokenPayload : Type 0 where
  pub sub : String
  pub email : String
  pub token_version : ℕ
  pub sid : Option String

pub record RefreshTokenPayload : Type 0 where
  pub sub : String
  pub email : String
  pub token_version : ℕ
  pub jti : String

-- What verifying a token gives: its payload, a JsonWebTokenError, or any other error.
pub data Verified (P : Type 0) : Type 0 where
  payload : P → Verified P
  bad_token : Verified P
  fault : Verified P

pub Verified-cases :
    {P : Type 0} (v : Verified P) → ((p : P) × (v ≡ payload p)) ⊎ ((v ≡ bad_token) ⊎ (v ≡ fault))
Verified-cases (payload p) = inl (p, refl)
Verified-cases bad_token = inr (inl refl)
Verified-cases fault = inr (inr refl)

-- The two JwtService configurations: signing at a time, and verifying at a time. `Token` is the type
-- of signed tokens, strings that the services never look into. Times are milliseconds, and the library
-- counts whole seconds: a token verifies from its signature on until the second in which it expires.
pub record Jwt (Token : Type 0) : Type 0 where
  pub access_life : ℕ
  pub refresh_life : ℕ
  pub sign_access : AccessTokenPayload → ℕ → Token
  pub verify_access : Token → ℕ → Verified AccessTokenPayload
  pub sign_refresh : RefreshTokenPayload → ℕ → Token
  pub verify_refresh : Token → ℕ → Verified RefreshTokenPayload
  pub verify-sign_access :
      (p : AccessTokenPayload) (t now : ℕ)
      → t ≤ now
      → now / 1000 < t / 1000 + access_life / 1000
      → verify_access (sign_access p t) now ≡ payload p
  pub verify-sign_refresh :
      (p : RefreshTokenPayload) (t now : ℕ)
      → t ≤ now
      → now / 1000 < t / 1000 + refresh_life / 1000
      → verify_refresh (sign_refresh p t) now ≡ payload p
  -- The payload is part of the token, whenever it is verified.
  pub verify_refresh_same :
      (token : Token) (t now : ℕ) (p q : RefreshTokenPayload)
      → verify_refresh token t ≡ payload p
      → verify_refresh token now ≡ payload q
      → p ≡ q
