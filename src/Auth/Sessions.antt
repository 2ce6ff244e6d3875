-- ===== src/Auth/Sessions.antt =====
-- modules/auth/services/auth.service.ts, guards/jwtAuthGuard.guard.ts, and the parts of
-- modules/users/users.service.ts and controllers/auth.controller.ts that they rest on. A cookie that
-- is missing or empty is `none`.
pub mod Revoking
pub mod Issuing
use notes_md_app_be.Prelude.{
  ℕ, String, Bool, true, false, Option, none, some, ◌==◌, if◌then◌else◌, List, str_eq,
}
use notes_md_app_be.Security.BruteForce.{BruteForceService, Readings, record_failure_many}
use notes_md_app_be.Auth.Database.{
  User, Database, AccessTokenPayload, RefreshTokenPayload, Verified, payload, bad_token, fault, Jwt,
}
use notes_md_app_be.Auth.Result.{
  AuthError, missing_refresh_token, invalid_refresh_token, refresh_token_revoked, session_revoked,
  token_does_not_exist, invalid_token, invalid_credentials, email_in_use, json_web_token,
  server_fault, Result, ok, err,
}
use notes_md_app_be.Auth.Tokens.{
  IssuedRefreshToken, create_token, create_access_token, rotate, revoke, authenticate,
}

-- The two cookies that a client gets.
pub record Tokens (Token : Type 0) : Type 0 where
  pub access_token : Token
  pub refresh_token : Token

module _ {Db Token : Type 0} (d : Database Db) (jwt : Jwt Token) where
  -- The access token for a session whose refresh token was just made.
  unfoldable pub with_access :
      User → ℕ → Db × Result (IssuedRefreshToken Token) → Db × Result (Tokens Token)
  with_access user now (db, ok refresh) = (
    db,
    ok (record {
      access_token = create_access_token d jwt user refresh.jti now;
      refresh_token = refresh.token;
    }),
  )
  with_access user now (db, err e) = (db, err e)

  unfoldable pub create_tokens : Db → User → String → ℕ → Db × Result (Tokens Token)
  unfolding with_access
  create_tokens db user jti now = with_access user now (create_token d jwt db user jti now)

  -- `refresh` for a token that verified.
  unfoldable pub refresh_session :
      Db → Token → RefreshTokenPayload → Option User → String → ℕ → Db × Result (Tokens Token)
  unfolding with_access
  refresh_session db old_token p none jti now = (db, err invalid_refresh_token)
  refresh_session db old_token p (some user) jti now =
      if p.token_version == user.token_version
      then with_access user now (rotate d jwt db old_token jti now)
      else (db, err refresh_token_revoked)

  unfoldable pub refresh : Db → Option Token → String → ℕ → Db × Result (Tokens Token)
  unfolding refresh_session
  refresh db none jti now = (db, err missing_refresh_token)
  refresh db (some old_token) jti now = elim (jwt.verify_refresh old_token now) [
    | payload p ↦ refresh_session db old_token p (d.user db p.sub) jti now
    | bad_token ↦ (db, err invalid_refresh_token)
    | fault ↦ (db, err server_fault)
  ]

  -- The body of the `try` of `login`; `matches` is bcrypt's comparison of a password with a hash.
  unfoldable pub try_login :
      (String → String → Bool) → Db → String → String → String → ℕ → Db × Result (Tokens Token)
  unfolding create_tokens
  try_login matches db email password jti now = elim (d.user_by_email db email) [
    | none ↦ (db, err invalid_credentials)
    | some user ↦
        if matches password user.password
        then create_tokens db user jti now
        else (db, err invalid_credentials)
  ]

  -- The `catch` of `login`: any failure counts against the keys of the client.
  abbrev count_failure :
      BruteForceService
      → List (String × Readings)
      → Db × Result (Tokens Token)
      → Db × BruteForceService × Result (Tokens Token)
  count_failure bf keys (db, ok tokens) = (db, bf, ok tokens)
  count_failure bf keys (db, err e) = (db, record_failure_many bf keys, err e)

  unfoldable pub login :
      (String → String → Bool)
      → Db
      → BruteForceService
      → String
      → String
      → List (String × Readings)
      → String
      → ℕ
      → Db × BruteForceService × Result (Tokens Token)
  login matches db bf email password keys jti now =
      count_failure bf keys (try_login matches db email password jti now)

  -- `register`, with `createUser` of the users: a taken email is a conflict, also when it was taken
  -- since the check.
  unfoldable pub register :
      (String → String) → Db → String → String → String → ℕ → Db × Result (Tokens Token)
  unfolding create_tokens
  register hash db email password jti now = elim (d.user_by_email db email) [
    | some existing ↦ (db, err email_in_use)
    | none ↦ elim (d.create_user db email (hash password)) [
      | none ↦ (db, err email_in_use)
      | some (db', user) ↦ create_tokens db' user jti now
    ]
  ]

  -- `logout`: the session named by the access token, if it names one.
  unfoldable pub logout : Db → AccessTokenPayload → Db
  logout db user = elim user.sid [
    | none ↦ db
    | some sid ↦ if str_eq sid "" then db else revoke d jwt db sid user.sub
  ]

  -- `revokeAll` with `bumpTokenVersion`.
  unfoldable pub revoke_all_sessions : Db → String → Db × Result Unit
  revoke_all_sessions db user_id = elim (d.bump_token_version db user_id) [
    | none ↦ (db, err server_fault)
    | some db' ↦ (db', ok tt)
  ]

  -- The `catch` of the guard: a bad token and a revoked session get the same answer, and any other
  -- error, such as a database that does not answer, is passed on.
  unfoldable pub hide_reason : Result AccessTokenPayload → Result (Option AccessTokenPayload)
  hide_reason (ok user) = ok (some user)
  hide_reason (err json_web_token) = err invalid_token
  hide_reason (err session_revoked) = err invalid_token
  hide_reason (err e) = err e

  -- `canActivate` of JwtAuthGuard: the payload that it puts on the request, if any.
  unfoldable pub can_activate :
      Db → Bool → Bool → Option Token → ℕ → Result (Option AccessTokenPayload)
  unfolding hide_reason
  can_activate db up is_public cookie now = if is_public then ok none else elim cookie [
    | none ↦ err token_does_not_exist
    | some token ↦ hide_reason (authenticate d jwt db up token now)
  ]
