-- ===== src/Auth/Tokens/Rotation.antt =====
-- What a rotation and a logout do to the refresh tokens.
use notes_md_app_be.Prelude.{
  ℕ, ◌+◌, ◌/◌, ◌≤◌, ◌<◌, String, ◌≡◌, refl, Bool, true, false, not, ◌&&◌, Option, none, some, ◌==◌,
  str_eq, ◌⊎◌, inl, inr, arith, eq_iff, eq_refl, Option-cases, Bool-cases, ap,
}
use notes_md_app_be.Auth.Database.{
  User, RefreshTokenRow, Database, RefreshTokenPayload, payload, Jwt, revoke_if, Verified-cases,
}
use notes_md_app_be.Auth.Result.{invalid_refresh_token, refresh_token_reuse, ok, err, Result-cases}
use notes_md_app_be.Auth.Tokens.{
  IssuedRefreshToken, create_token, check, claim, issue, rotate, revoke,
}

-- The row is there and revoked.
abbrev pub spent : Option RefreshTokenRow → Bool
spent none = false
spent (some r) = r.revoked

module _ {Db Token : Type 0} (d : Database Db) (jwt : Jwt Token) where
  pub spent-claim :
      (db : Db) (jti : String)
      → (claim d jwt db jti).1 ≡ 1
      → spent (d.token (claim d jwt db jti).0 jti) ≡ true
  unfolding claim
  spent-claim db jti e = elim (Option-cases (d.token db jti)) [
    | inl missing ↦ ground (arith, missing, d.count-revoke db (λ r. not r.revoked) jti)
    | inr (r, found) ↦ ground (
      arith,
      found,
      d.count-revoke db (λ r. not r.revoked) jti,
      d.token-revoke db (λ r. str_eq r.jti jti && not r.revoked) jti,
      d.token-jti db jti r found,
      eq_refl jti,
    )
  ]

  pub spent-create_token :
      (db : Db) (user : User) (new : String) (now : ℕ) (jti : String)
      → spent (d.token db jti) ≡ true
      → spent (d.token (create_token d jwt db user new now).0 jti) ≡ true
  unfolding create_token
  spent-create_token db user new now jti h =
      let row : RefreshTokenRow = record {
        jti = new;
        user_id = user.id;
        expires_at = now + jwt.refresh_life;
        revoked = false;
      } in
      elim (Option-cases (d.create_token db row)) [
        | inl failed ↦ ground (arith, failed)
        | inr (db', made) ↦ elim (Option-cases (d.token db jti)) [
          | inl missing ↦ ground (arith, missing)
          | inr (r, found) ↦ ground (
            arith,
            made,
            found,
            d.token-create db row db' jti made,
            eq_iff new jti,
            d.create_token-taken db row r,
          )
        ]
      ]

  -- The token that `createToken` gives can be rotated from then on until it expires, and stands for
  -- the session of that user and id.
  pub check-create_token :
      (db : Db) (user : User) (jti : String) (now : ℕ) (db' : Db) (t : IssuedRefreshToken Token)
      (later : ℕ)
      → create_token d jwt db user jti now ≡ (db', ok t)
      → now ≤ later
      → later / 1000 < now / 1000 + jwt.refresh_life / 1000
      → check d jwt db' t.token later
        ≡ ok (record {
          sub = user.id;
          email = user.email;
          token_version = user.token_version;
          jti = t.jti;
        })
  unfolding create_token check
  check-create_token db user jti now db' t later e le lt =
      let row : RefreshTokenRow = record {
        jti = jti;
        user_id = user.id;
        expires_at = now + jwt.refresh_life;
        revoked = false;
      } in
      let p : RefreshTokenPayload = record {
        sub = user.id;
        email = user.email;
        token_version = user.token_version;
        jti = jti;
      } in
      elim (Option-cases (d.create_token db row)) [
        | inl failed ↦ ground (arith, failed, e)
        | inr (db₁, made) ↦ ground (
          arith,
          made,
          e,
          d.token-create db row db₁ jti made,
          eq_refl jti,
          jwt.verify-sign_refresh p now later le lt,
        )
      ]

  pub check-spent :
      (db : Db) (t : Token) (now : ℕ) (p : RefreshTokenPayload)
      → jwt.verify_refresh t now ≡ payload p
      → spent (d.token db p.jti) ≡ true
      → check d jwt db t now ≡ err refresh_token_reuse
  unfolding check
  check-spent db t now p e h = elim (Option-cases (d.token db p.jti)) [
    | inl missing ↦ ground (arith, e, missing)
    | inr (r, found) ↦ ground (arith, e, found)
  ]

  check-eq-ok :
      (db : Db) (t : Token) (now : ℕ) (p : RefreshTokenPayload)
      → check d jwt db t now ≡ ok p
      → jwt.verify_refresh t now ≡ payload p
  unfolding check
  check-eq-ok db t now p e = ground arith

  issue-eq-ok :
      (db : Db) (n : ℕ) (p : RefreshTokenPayload) (jti : String) (now : ℕ) (db' : Db)
      (i : IssuedRefreshToken Token)
      → issue d jwt (db, n) p jti now ≡ (db', ok i)
      → (n ≡ 1)
        × ((u : User) × (d.user db p.sub ≡ some u)
            × (create_token d jwt db u jti now ≡ (db', ok i)))
  unfolding issue
  issue-eq-ok db n p jti now db' i e = elim (Bool-cases (n == 1)) [
    | inl one ↦ elim (Option-cases (d.user db p.sub)) [
      | inl missing ↦ ground (arith, e, one, missing)
      | inr (u, found) ↦ (ground arith, (u, found, ground (arith, e, one, found)))
    ]
    | inr other ↦ ground (arith, e, other)
  ]

  rotate-eq-ok :
      (db : Db) (t : Token) (jti : String) (now : ℕ) (db' : Db) (i : IssuedRefreshToken Token)
      → rotate d jwt db t jti now ≡ (db', ok i)
      → (p : RefreshTokenPayload) × (check d jwt db t now ≡ ok p)
        × (issue d jwt (claim d jwt db p.jti) p jti now ≡ (db', ok i))
  unfolding rotate
  rotate-eq-ok db t jti now db' i e = elim (Result-cases (check d jwt db t now)) [
    | inl (p, fine) ↦ (p, fine, ground (arith, e, fine))
    | inr (why, bad) ↦ ground (arith, e, bad)
  ]

  spent-rotate :
      (db : Db) (t : Token) (jti : String) (now : ℕ) (db' : Db) (i : IssuedRefreshToken Token)
      → rotate d jwt db t jti now ≡ (db', ok i)
      → (p : RefreshTokenPayload) × (jwt.verify_refresh t now ≡ payload p)
        × (spent (d.token db' p.jti) ≡ true)
  spent-rotate db t jti now db' i e =
      let (p, fine, issued) = rotate-eq-ok db t jti now db' i e in
      let (db₁, n) = claim d jwt db p.jti in
      let (one, (u, found, made)) = issue-eq-ok db₁ n p jti now db' i issued in
      (
        p,
        check-eq-ok db t now p fine,
        rw (← ap (λ r. r.0) made)
            (spent-create_token db₁ u jti now p.jti (spent-claim db p.jti one)),
      )

  check-after :
      (db : Db) (t : Token) (now later : ℕ) (p : RefreshTokenPayload)
      → jwt.verify_refresh t now ≡ payload p
      → spent (d.token db p.jti) ≡ true
      → (check d jwt db t later ≡ err refresh_token_reuse)
        ⊎ (check d jwt db t later ≡ err invalid_refresh_token)
  check-after db t now later p e h = elim (Verified-cases (jwt.verify_refresh t later)) [
    | inl (q, same) ↦
        inl
          (check-spent db t later q same (rw (jwt.verify_refresh_same t now later p q e same) at h))
    | inr (inl bad) ↦ inr (unfold check in ground (arith, bad))
    | inr (inr bad) ↦ inr (unfold check in ground (arith, bad))
  ]

  -- Of two rotations with the same token only the first succeeds: afterwards the token is refused,
  -- as used or, when it no longer verifies, as invalid, and the database stays as it is.
  pub rotate-rotate :
      (db : Db) (t : Token) (jti : String) (now : ℕ) (db' : Db) (i : IssuedRefreshToken Token)
      (jti' : String) (later : ℕ)
      → rotate d jwt db t jti now ≡ (db', ok i)
      → (rotate d jwt db' t jti' later ≡ (db', err refresh_token_reuse))
        ⊎ (rotate d jwt db' t jti' later ≡ (db', err invalid_refresh_token))
  unfolding rotate
  rotate-rotate db t jti now db' i jti' later e =
      let (p, verified, used) = spent-rotate db t jti now db' i e in
      elim (check-after db' t now later p verified used) [
        | inl reused ↦ inl (rw (reused, rotate) refl)
        | inr invalid ↦ inr (rw (invalid, rotate) refl)
      ]

  -- `revoke` ends the session of its user's token, and changes no other row: not that of another id,
  -- and not this one if it belongs to another user.
  pub token-revoke_lem :
      (db : Db) (jti user_id other : String)
      → d.token (revoke d jwt db jti user_id) other
        ≡ revoke_if (λ r. str_eq other jti && str_eq r.user_id user_id) (d.token db other)
  unfolding revoke
  token-revoke_lem db jti user_id other = elim (Option-cases (d.token db other)) [
    | inl missing ↦ ground (
      arith,
      missing,
      d.token-revoke db (λ r. str_eq r.jti jti && (str_eq r.user_id user_id && not r.revoked))
          other,
    )
    | inr (r, found) ↦ ground (
      arith,
      found,
      d.token-jti db other r found,
      d.token-revoke db (λ r. str_eq r.jti jti && (str_eq r.user_id user_id && not r.revoked))
          other,
    )
  ]
