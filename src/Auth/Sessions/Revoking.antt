-- ===== src/Auth/Sessions/Revoking.antt =====
-- Ending sessions: logging out here, and logging out everywhere.
use notes_md_app_be.Prelude.{
  ℕ, ◌≤◌, String, ◌≡◌, ◌≢◌, Bool, true, false, some, ◌==◌, if◌then◌else◌, str_eq, ◌⊎◌, inl, inr,
  arith, eq_iff, eq_refl, Option-cases, Bool-cases,
}
use notes_md_app_be.Auth.Database.{
  User, RefreshTokenRow, Database, AccessTokenPayload, RefreshTokenPayload, payload, Jwt, bumped,
}
use notes_md_app_be.Auth.Result.{
  AuthError, refresh_token_revoked, refresh_token_reuse, invalid_refresh_token, invalid_token, ok,
  err,
}
use notes_md_app_be.Auth.Tokens.{rotate, revoke, authenticate}
use notes_md_app_be.Auth.Tokens.Rotation.{spent, check-spent, token-revoke_lem}
use notes_md_app_be.Auth.Sessions.{refresh, logout, revoke_all_sessions, can_activate}

module _ {Db Token : Type 0} (d : Database Db) (jwt : Jwt Token) where
  user-revoke_all :
      (db : Db) (id : String) (db' : Db) (other : String)
      → revoke_all_sessions d jwt db id ≡ (db', ok tt)
      → d.user db' other ≡ (if str_eq id other then bumped (d.user db id) else d.user db other)
  unfolding revoke_all_sessions
  user-revoke_all db id db' other e = elim (Option-cases (d.bump_token_version db id)) [
    | inl failed ↦ ground (arith, e, failed)
    | inr (db₁, done) ↦ ground (arith, e, done, d.user-bump db id db₁ other done)
  ]

  -- After logging out everywhere no refresh token of the user that was issued before is accepted.
  pub refresh-revoke_all :
      (db : Db) (user : User) (db' : Db) (t : Token) (p : RefreshTokenPayload) (jti : String)
      (now : ℕ)
      → revoke_all_sessions d jwt db p.sub ≡ (db', ok tt)
      → d.user db p.sub ≡ some user
      → jwt.verify_refresh t now ≡ payload p
      → p.token_version ≤ user.token_version
      → refresh d jwt db' (some t) jti now ≡ (db', err refresh_token_revoked)
  unfolding refresh
  refresh-revoke_all db user db' t p jti now e found verified old =
      ground (arith, verified, found, user-revoke_all db p.sub db' p.sub e, eq_refl p.sub)

  -- Nor is any access token of the user that was issued before.
  pub can_activate-revoke_all :
      (db : Db) (user : User) (db' : Db) (t : Token) (p : AccessTokenPayload) (now : ℕ)
      → revoke_all_sessions d jwt db p.sub ≡ (db', ok tt)
      → d.user db p.sub ≡ some user
      → jwt.verify_access t now ≡ payload p
      → p.token_version ≤ user.token_version
      → can_activate d jwt db' true false (some t) now ≡ err invalid_token
  unfolding can_activate authenticate
  can_activate-revoke_all db user db' t p now e found verified old =
      ground (arith, verified, found, user-revoke_all db p.sub db' p.sub e, eq_refl p.sub)

  -- Logging out everywhere leaves the access tokens of other users as they are.
  pub can_activate-revoke_all_ne :
      (db : Db) (db' : Db) (id : String) (t : Token) (p : AccessTokenPayload) (up : Bool) (now : ℕ)
      → revoke_all_sessions d jwt db id ≡ (db', ok tt)
      → jwt.verify_access t now ≡ payload p
      → id ≢ p.sub
      → can_activate d jwt db' up false (some t) now ≡ can_activate d jwt db up false (some t) now
  unfolding can_activate authenticate
  can_activate-revoke_all_ne db db' id t p up now e verified ne =
      ground (arith, verified, eq_iff id p.sub, user-revoke_all db id db' p.sub e)

  rotate-spent :
      (db : Db) (t : Token) (p : RefreshTokenPayload) (jti : String) (now : ℕ)
      → jwt.verify_refresh t now ≡ payload p
      → spent (d.token db p.jti) ≡ true
      → rotate d jwt db t jti now ≡ (db, err refresh_token_reuse)
  unfolding rotate
  rotate-spent db t p jti now verified h = ground (arith, check-spent d jwt db t now p verified h)

  refresh-spent :
      (db : Db) (t : Token) (p : RefreshTokenPayload) (jti : String) (now : ℕ)
      → jwt.verify_refresh t now ≡ payload p
      → spent (d.token db p.jti) ≡ true
      → (e : AuthError) × (refresh d jwt db (some t) jti now ≡ (db, err e))
  unfolding refresh
  refresh-spent db t p jti now verified h = elim (Option-cases (d.user db p.sub)) [
    | inl missing ↦ (invalid_refresh_token, ground (arith, verified, missing))
    | inr (user, found) ↦ elim (Bool-cases (p.token_version == user.token_version)) [
      | inl current ↦ (
        refresh_token_reuse,
        ground (arith, verified, found, current, rotate-spent db t p jti now verified h),
      )
      | inr old ↦ (refresh_token_revoked, ground (arith, verified, found, old))
    ]
  ]

  logout-revoke :
      (db : Db) (me : AccessTokenPayload) (sid : String)
      → me.sid ≡ some sid
      → sid ≢ ""
      → logout d jwt db me ≡ revoke d jwt db sid me.sub
  unfolding logout
  logout-revoke db me sid named filled = ground (arith, named, eq_iff sid "")

  spent-logout :
      (db : Db) (me : AccessTokenPayload) (sid : String) (r : RefreshTokenRow)
      → me.sid ≡ some sid
      → sid ≢ ""
      → d.token db sid ≡ some r
      → r.user_id ≡ me.sub
      → spent (d.token (logout d jwt db me) sid) ≡ true
  spent-logout db me sid r named filled found mine = ground (
    arith,
    logout-revoke db me sid named filled,
    token-revoke_lem d jwt db sid me.sub sid,
    found,
    mine,
    eq_refl sid,
    eq_iff r.user_id me.sub,
  )

  -- After a logout the refresh token of that session gets no new tokens.
  pub refresh-logout :
      (db : Db) (me : AccessTokenPayload) (sid : String) (r : RefreshTokenRow) (t : Token)
      (p : RefreshTokenPayload) (jti : String) (now : ℕ)
      → me.sid ≡ some sid
      → sid ≢ ""
      → d.token db sid ≡ some r
      → r.user_id ≡ me.sub
      → jwt.verify_refresh t now ≡ payload p
      → p.jti ≡ sid
      → (e : AuthError) × (refresh d jwt (logout d jwt db me) (some t) jti now
          ≡ (logout d jwt db me, err e))
  refresh-logout db me sid r t p jti now named filled found mine verified same =
      refresh-spent (logout d jwt db me) t p jti now verified
        (rw same (spent-logout db me sid r named filled found mine))

  -- A logout touches no other session: every other refresh token keeps its row, also one with the
  -- same id if it belongs to another user.
  pub token-logout :
      (db : Db) (me : AccessTokenPayload) (other : String) (r : RefreshTokenRow)
      → d.token db other ≡ some r
      → (me.sid ≢ some other) ⊎ (r.user_id ≢ me.sub)
      → d.token (logout d jwt db me) other ≡ some r
  unfolding logout
  token-logout db me other r found apart = elim (Option-cases me.sid) [
    | inl nameless ↦ ground (arith, nameless, found)
    | inr (sid, named) ↦ ground (
      arith,
      named,
      found,
      eq_iff other sid,
      eq_iff r.user_id me.sub,
      token-revoke_lem d jwt db sid me.sub other,
    )
  ]
