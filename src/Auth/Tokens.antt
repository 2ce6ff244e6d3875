-- ===== src/Auth/Tokens.antt =====
-- modules/auth/services/refreshToken.serivce.ts and accessToken.service.ts. A request reads the
-- clock once; the random id of a new refresh token is an argument.
pub mod Rotation
pub mod Race
use notes_md_app_be.Prelude.{
  ℕ, ◌+◌, String, Bool, true, false, not, ◌&&◌, Option, none, some, ltb, ◌==◌, if◌then◌else◌,
  str_eq,
}
use notes_md_app_be.Auth.Database.{
  User, RefreshTokenRow, Database, AccessTokenPayload, RefreshTokenPayload, Verified, payload,
  bad_token, fault, Jwt,
}
use notes_md_app_be.Auth.Result.{
  invalid_refresh_token, refresh_token_reuse, refresh_token_expired, user_not_found,
  session_revoked, json_web_token, server_fault, Result, ok, err,
}

pub record IssuedRefreshToken (Token : Type 0) : Type 0 where
  pub token : Token
  pub jti : String

module _ {Db Token : Type 0} (d : Database Db) (jwt : Jwt Token) where
  -- `createToken` of the refresh tokens.
  unfoldable pub create_token : Db → User → String → ℕ → Db × Result (IssuedRefreshToken Token)
  create_token db user jti now =
      elim (d.create_token db (record {
        jti = jti;
        user_id = user.id;
        expires_at = now + jwt.refresh_life;
        revoked = false;
      })) [
        | none ↦ (db, err server_fault)
        | some db' ↦ (
          db',
          ok (record {
            token =
                jwt.sign_refresh
                  (record {
                    sub = user.id;
                    email = user.email;
                    token_version = user.token_version;
                    jti = jti;
                  })
                  now;
            jti = jti;
          }),
        )
      ]

  -- `rotate` up to the write: the token verifies, and its row is there, not revoked and not expired.
  unfoldable pub check_row :
      Option RefreshTokenRow → RefreshTokenPayload → ℕ → Result RefreshTokenPayload
  check_row none p now = err refresh_token_reuse
  check_row (some r) p now =
      if r.revoked
      then err refresh_token_reuse
      else if ltb r.expires_at now
      then err refresh_token_expired
      else ok p

  unfoldable pub check : Db → Token → ℕ → Result RefreshTokenPayload
  unfolding check_row
  check db old_token now = elim (jwt.verify_refresh old_token now) [
    | payload p ↦ check_row (d.token db p.jti) p now
    | bad_token ↦ err invalid_refresh_token
    | fault ↦ err invalid_refresh_token
  ]

  -- The atomic write of `rotate`, and the number of rows that it changed.
  unfoldable pub claim : Db → String → Db × ℕ
  claim db jti = d.revoke_tokens db (λ r. str_eq r.jti jti && not r.revoked)

  -- `rotate` after the write.
  unfoldable pub issue :
      Db × ℕ → RefreshTokenPayload → String → ℕ → Db × Result (IssuedRefreshToken Token)
  issue (db, count) p jti now =
      if count == 1
      then elim (d.user db p.sub) [
        | none ↦ (db, err user_not_found)
        | some user ↦ create_token db user jti now
      ]
      else (db, err refresh_token_reuse)

  unfoldable pub rotate : Db → Token → String → ℕ → Db × Result (IssuedRefreshToken Token)
  rotate db old_token jti now = elim (check db old_token now) [
    | err e ↦ (db, err e)
    | ok p ↦ issue (claim db p.jti) p jti now
  ]

  -- `revoke`: one session, of this user only.
  unfoldable pub revoke : Db → String → String → Db
  revoke db jti user_id =
      (d.revoke_tokens db (λ r. str_eq r.jti jti && (str_eq r.user_id user_id && not r.revoked))).0

  -- `revokeAll` of the refresh tokens.
  unfoldable pub revoke_all : Db → String → Db
  revoke_all db user_id = (d.revoke_tokens db (λ r. str_eq r.user_id user_id && not r.revoked)).0

  -- `createToken` of the access tokens: an empty session id is left out.
  unfoldable pub create_access_token : User → String → ℕ → Token
  create_access_token user sid now =
      jwt.sign_access
        (record {
          sub = user.id;
          email = user.email;
          token_version = user.token_version;
          sid = if str_eq sid "" then none else some sid;
        })
        now

  -- `authenticate` after the user was looked up.
  unfoldable pub check_session : Option User → AccessTokenPayload → Result AccessTokenPayload
  check_session none p = err session_revoked
  check_session (some user) p =
      if user.token_version == p.token_version then ok p else err session_revoked

  -- `authenticate`; `up` tells whether the database answers the lookup.
  unfoldable pub authenticate : Db → Bool → Token → ℕ → Result AccessTokenPayload
  unfolding check_session
  authenticate db up token now = elim (jwt.verify_access token now) [
    | payload p ↦ if up then check_session (d.user db p.sub) p else err server_fault
    | bad_token ↦ err json_web_token
    | fault ↦ err server_fault
  ]
