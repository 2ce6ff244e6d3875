-- ===== src/Auth/Sessions/Issuing.antt =====
-- What the tokens that a client gets are good for, and what the guard lets through.
use notes_md_app_be.Prelude.{
  ℕ, ◌+◌, ◌/◌, ◌≤◌, ◌<◌, String, ◌≡◌, ◌≢◌, refl, Bool, true, false, Option, none, some, inl, inr,
  arith, eq_iff, Option-cases, ap, ◌↔◌, List, ◌∙◌,
}
use notes_md_app_be.Security.BruteForce.{BruteForceService, Readings, record_failure_many}
use notes_md_app_be.Auth.Database.{
  User, RefreshTokenRow, Database, AccessTokenPayload, RefreshTokenPayload, payload, Jwt,
  Verified-cases,
}
use notes_md_app_be.Auth.Result.{invalid_credentials, ok, err, Result-cases}
use notes_md_app_be.Auth.Tokens.{
  IssuedRefreshToken, create_token, create_access_token, authenticate, check,
}
use notes_md_app_be.Auth.Tokens.Rotation.{check-create_token}
use notes_md_app_be.Auth.Sessions.{Tokens, create_tokens, login, try_login, can_activate}

-- The payloads of a session of `user` whose id is `sid`.
abbrev pub access_payload : User → String → AccessTokenPayload
access_payload user sid = record {
  sub = user.id;
  email = user.email;
  token_version = user.token_version;
  sid = some sid;
}

abbrev pub refresh_payload : User → String → RefreshTokenPayload
refresh_payload user sid = record {
  sub = user.id;
  email = user.email;
  token_version = user.token_version;
  jti = sid;
}

module _ {Db Token : Type 0} (d : Database Db) (jwt : Jwt Token) where
  jti-create_token :
      (db : Db) (user : User) (jti : String) (now : ℕ) (db' : Db) (t : IssuedRefreshToken Token)
      → create_token d jwt db user jti now ≡ (db', ok t)
      → t.jti ≡ jti
  unfolding create_token
  jti-create_token db user jti now db' t e = ground arith

  user-create_token_lem :
      (db : Db) (user : User) (jti : String) (now : ℕ) (db' : Db) (t : IssuedRefreshToken Token)
      → create_token d jwt db user jti now ≡ (db', ok t)
      → d.user db user.id ≡ some user
      → d.user db' user.id ≡ some user
  unfolding create_token
  user-create_token_lem db user jti now db' t e found =
      let row : RefreshTokenRow = record {
        jti = jti;
        user_id = user.id;
        expires_at = now + jwt.refresh_life;
        revoked = false;
      } in
      elim (Option-cases (d.create_token db row)) [
        | inl failed ↦ ground (arith, failed, e)
        | inr (db₁, made) ↦
            ground (arith, made, e, found, d.user-create_token db row db₁ user.id made)
      ]

  create_tokens-eq-ok :
      (db : Db) (user : User) (jti : String) (now : ℕ) (db' : Db) (ts : Tokens Token)
      → create_tokens d jwt db user jti now ≡ (db', ok ts)
      → (t : IssuedRefreshToken Token) × (create_token d jwt db user jti now ≡ (db', ok t))
        × (ts.access_token ≡ create_access_token d jwt user jti now)
        × (ts.refresh_token ≡ t.token)
  unfolding create_tokens
  create_tokens-eq-ok db user jti now db' ts e =
      elim (Result-cases (create_token d jwt db user jti now).1) [
        | inl (t, made) ↦ (
          t,
          ground (arith, made, e),
          ground (
            arith,
            made,
            e,
            jti-create_token db user jti now (create_token d jwt db user jti now).0 t,
          ),
          ground (arith, made, e),
        )
        | inr (why, bad) ↦ ground (arith, bad, e)
      ]

  access_accepted :
      (db : Db) (user : User) (jti : String) (now later : ℕ)
      → jti ≢ ""
      → d.user db user.id ≡ some user
      → jwt.verify_access (jwt.sign_access (access_payload user jti) now) later
        ≡ payload (access_payload user jti)
      → can_activate d jwt db true false (some (create_access_token d jwt user jti now)) later
        ≡ ok (some (access_payload user jti))
  unfolding can_activate create_access_token authenticate
  access_accepted db user jti now later filled found genuine =
      ground (arith, eq_iff jti "", found, genuine)

  -- The two tokens of a new session, of a user in the database and with an id that is not empty, are
  -- accepted from then on until the second in which the first
  -- of them expires, where times are milliseconds and both the time of signing and the clock count
  -- in whole seconds: the access token by the guard and the refresh token for a rotation, and both
  -- stand for the same session.
  pub create_tokens-accepted :
      (db : Db) (user : User) (jti : String) (now : ℕ) (db' : Db) (ts : Tokens Token) (later : ℕ)
      → jti ≢ ""
      → d.user db user.id ≡ some user
      → create_tokens d jwt db user jti now ≡ (db', ok ts)
      → now ≤ later
      → later / 1000 < now / 1000 + jwt.access_life / 1000
      → later / 1000 < now / 1000 + jwt.refresh_life / 1000
      → (can_activate d jwt db' true false (some ts.access_token) later
          ≡ ok (some (access_payload user jti)))
        × (check d jwt db' ts.refresh_token later ≡ ok (refresh_payload user jti))
  create_tokens-accepted db user jti now db' ts later filled found made le soon late =
      let (t, created, access, refresh) = create_tokens-eq-ok db user jti now db' ts made in
      let kept = user-create_token_lem db user jti now db' t created found in
      let genuine = jwt.verify-sign_access (access_payload user jti) now later le soon in
      (
        rw access (access_accepted db' user jti now later filled kept genuine),
        rw
            (
              refresh,
              check-create_token d jwt db user jti now db' t later created le late,
              jti-create_token db user jti now db' t created,
            )
            refl,
      )

  -- The token stands for a session of a user who exists and has not logged out everywhere since.
  pub record IsGenuine (db : Db) (up : Bool) (t : Token) (now : ℕ) (p : AccessTokenPayload)
      : Type 0 where
    pub verified : jwt.verify_access t now ≡ payload p
    pub answered : up ≡ true
    pub user : User
    pub found : d.user db p.sub ≡ some user
    pub current : user.token_version ≡ p.token_version

  authenticate-IsGenuine :
      (db : Db) (up : Bool) (t : Token) (now : ℕ) (p : AccessTokenPayload)
      → authenticate d jwt db up t now ≡ ok p
      → IsGenuine db up t now p
  unfolding authenticate
  authenticate-IsGenuine db up t now p e = elim (Verified-cases (jwt.verify_access t now)) [
    | inr (inl bad) ↦ ground (arith, bad, e)
    | inr (inr bad) ↦ ground (arith, bad, e)
    | inl (q, fine) ↦ elim (Option-cases (d.user db q.sub)) [
      | inl missing ↦ ground (arith, e, fine, missing)
      | inr (user, found) ↦
          let same : q ≡ p = ground (arith, e, fine, found) in
          record {
            verified = fine ∙ ap payload same;
            answered = ground (arith, e, fine, found);
            user = user;
            found = rw (← same) found;
            current = ground (arith, e, fine, found);
          }
    ]
  ]

  IsGenuine-authenticate :
      (db : Db) (up : Bool) (t : Token) (now : ℕ) (p : AccessTokenPayload)
      → IsGenuine db up t now p
      → authenticate d jwt db up t now ≡ ok p
  unfolding authenticate
  IsGenuine-authenticate db up t now p g =
      ground (arith, g.verified, g.answered, g.found, g.current)

  -- What the guard lets through.
  pub data IsAdmitted (db : Db) (up is_public : Bool) (cookie : Option Token) (now : ℕ)
      (who : Option AccessTokenPayload) : Type 0 where
    public : is_public ≡ true → who ≡ none → IsAdmitted db up is_public cookie now who
    known :
        (t : Token) (p : AccessTokenPayload)
        → is_public ≡ false
        → cookie ≡ some t
        → who ≡ some p
        → IsGenuine db up t now p
        → IsAdmitted db up is_public cookie now who

  can_activate-IsAdmitted :
      (db : Db) (up is_public : Bool) (cookie : Option Token) (now : ℕ)
      (who : Option AccessTokenPayload)
      → can_activate d jwt db up is_public cookie now ≡ ok who
      → IsAdmitted db up is_public cookie now who
  unfolding can_activate
  can_activate-IsAdmitted db up true cookie now who e = public refl (ground (arith, e))
  can_activate-IsAdmitted db up false none now who e = cc e
  can_activate-IsAdmitted db up false (some t) now who e =
      elim (Result-cases (authenticate d jwt db up t now)) [
        | inl (p, fine) ↦
            known t p refl refl (ground (arith, e, fine))
              (authenticate-IsGenuine db up t now p fine)
        | inr (why, bad) ↦ ground (arith, e, bad)
      ]

  IsAdmitted-can_activate :
      (db : Db) (up is_public : Bool) (cookie : Option Token) (now : ℕ)
      (who : Option AccessTokenPayload)
      → IsAdmitted db up is_public cookie now who
      → can_activate d jwt db up is_public cookie now ≡ ok who
  unfolding can_activate
  IsAdmitted-can_activate db up is_public cookie now who (public p w) = ground arith
  IsAdmitted-can_activate db up is_public cookie now who (known t p q c w g) =
      ground (arith, IsGenuine-authenticate db up t now p g)

  -- The guard lets a request through exactly when its endpoint is public, or its cookie holds a
  -- token that verifies for a user who exists, as the database tells, and whose token version is
  -- that of the token: only in the second case the request is given a user.
  pub can_activate-eq-ok :
      (db : Db) (up is_public : Bool) (cookie : Option Token) (now : ℕ)
      (who : Option AccessTokenPayload)
      → (can_activate d jwt db up is_public cookie now ≡ ok who)
        ↔ IsAdmitted db up is_public cookie now who
  can_activate-eq-ok db up is_public cookie now who = (
    can_activate-IsAdmitted db up is_public cookie now who,
    IsAdmitted-can_activate db up is_public cookie now who,
  )

  -- A login fails with one answer for an unknown email and for a wrong password.
  pub login-refused :
      (matches : String → String → Bool) (db : Db) (bf : BruteForceService)
      (email password : String) (keys : List (String × Readings)) (jti : String) (now : ℕ)
      → ((user : User)
          → d.user_by_email db email ≡ some user
          → matches password user.password ≡ false)
      → login d jwt matches db bf email password keys jti now
        ≡ (db, record_failure_many bf keys, err invalid_credentials)
  unfolding login try_login
  login-refused matches db bf email password keys jti now wrong =
      elim (Option-cases (d.user_by_email db email)) [
        | inl missing ↦ ground (arith, missing)
        | inr (user, found) ↦ ground (arith, found, wrong user found)
      ]
