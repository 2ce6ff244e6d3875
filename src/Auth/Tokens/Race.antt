-- ===== src/Auth/Tokens/Race.antt =====
-- Rotations at the same time. Each is cut where it awaits the database: the check of the row, the
-- atomic write, and the new row; between these any other request may run.
use notes_md_app_be.Prelude.{
  ℕ, zero, suc, ◌+◌, ◌≤◌, String, ◌≡◌, refl, false, not, ◌&&◌, Option, none, some, ◌==◌,
  if◌then◌else◌, str_eq, inl, inr, arith, eq_iff, eq_refl, Option-cases, Bool-cases, ap, List, [],
  ◌∷◌, get_elem?, ==_iff,
}
use notes_md_app_be.Auth.Database.{User, RefreshTokenRow, Database, RefreshTokenPayload, Jwt}
use notes_md_app_be.Auth.Result.{AuthError, refresh_token_reuse, Result, ok, err, Result-cases}
use notes_md_app_be.Auth.Tokens.{
  IssuedRefreshToken, create_token, check, claim, issue, rotate, revoke,
}
use notes_md_app_be.Auth.Tokens.Rotation.{token-revoke_lem}

-- How far a rotation is: what it still has to do, or how it ended.
pub data Phase (Token : Type 0) : Type 0 where
  waiting : Token → Phase Token
  checked : RefreshTokenPayload → Phase Token
  claimed : RefreshTokenPayload → Phase Token
  finished : RefreshTokenPayload → IssuedRefreshToken Token → Phase Token
  failed : AuthError → Phase Token

-- The rotation that wrote `revoked` on this id.
abbrev pub won : {Token : Type 0} → String → Phase Token → ℕ
won jti (claimed p) = if str_eq p.jti jti then 1 else 0
won jti (finished p i) = if str_eq p.jti jti then 1 else 0
won jti _ = 0

abbrev pub winners : {Token : Type 0} → String → List (Phase Token) → ℕ
winners jti [] = 0
winners jti (ph ∷ phs) = won jti ph + winners jti phs

-- Rotations that have not begun.
abbrev pub starts : {Token : Type 0} → List Token → List (Phase Token)
starts [] = []
starts (t ∷ tokens) = waiting t ∷ starts tokens

abbrev put : {Token : Type 0} → List (Phase Token) → ℕ → Phase Token → List (Phase Token)
put [] n ph = []
put (x ∷ phs) zero ph = ph ∷ phs
put (x ∷ phs) (suc n) ph = x ∷ put phs n ph

-- The next turn of rotation `n`, with a fresh id at a time; or a logout of one session.
pub data Turn : Type 0 where
  turn : ℕ → String → ℕ → Turn
  logout : String → String → Turn

-- 0 once the row is there and revoked, which it then stays: no rotation can win its id any more.
abbrev open_row : Option RefreshTokenRow → ℕ
open_row none = 1
open_row (some r) = if r.revoked then 0 else 1

-- What a rotation that ended answers.
abbrev pub answer_of : {Token : Type 0} → Phase Token → Option (Result (IssuedRefreshToken Token))
answer_of (finished p i) = some (ok i)
answer_of (failed e) = some (err e)
answer_of _ = none

abbrev pub first_answer :
    {Token : Type 0} → List (Phase Token) → Option (Result (IssuedRefreshToken Token))
first_answer [] = none
first_answer (ph ∷ phs) = answer_of ph

module _ {Db Token : Type 0} (d : Database Db) (jwt : Jwt Token) where
  abbrev after_issue : RefreshTokenPayload → Result (IssuedRefreshToken Token) → Phase Token
  after_issue p (ok i) = finished p i
  after_issue p (err e) = failed e

  unfoldable pub advance : Db → Phase Token → String → ℕ → Db × Phase Token
  advance db (waiting t) jti now = elim (check d jwt db t now) [
    | ok p ↦ (db, checked p)
    | err e ↦ (db, failed e)
  ]
  advance db (checked p) jti now =
      let (db', count) = claim d jwt db p.jti in
      if count == 1 then (db', claimed p) else (db', failed refresh_token_reuse)
  advance db (claimed p) jti now =
      let (db', result) = issue d jwt (db, 1) p jti now in (db', after_issue p result)
  advance db ph jti now = (db, ph)

  unfoldable pub take_turn : Db × List (Phase Token) → Turn → Db × List (Phase Token)
  take_turn (db, phs) (turn n jti now) = elim (get_elem? phs n) [
    | none ↦ (db, phs)
    | some ph ↦ let (db', ph') = advance db ph jti now in (db', put phs n ph')
  ]
  take_turn (db, phs) (logout jti user_id) = (revoke d jwt db jti user_id, phs)

  unfoldable pub race : Db × List (Phase Token) → List Turn → Db × List (Phase Token)
  race s [] = s
  race s (t ∷ ts) = race (take_turn s t) ts

  open_row-create_token :
      (db : Db) (user : User) (new : String) (now : ℕ) (jti : String)
      → open_row (d.token (create_token d jwt db user new now).0 jti) ≤ open_row (d.token db jti)
  unfolding create_token
  open_row-create_token db user new now jti =
      let row : RefreshTokenRow = record {
        jti = new;
        user_id = user.id;
        expires_at = now + jwt.refresh_life;
        revoked = false;
      } in
      elim (Option-cases (d.create_token db row)) [
        | inl failed_ ↦ ground (arith, failed_)
        | inr (db', made) ↦ elim (Option-cases (d.token db jti)) [
          | inl missing ↦ ground (arith, made, missing, d.token-create db row db' jti made)
          | inr (r, found) ↦ ground (
            arith,
            made,
            found,
            d.token-create db row db' jti made,
            eq_iff new jti,
            d.create_token-taken db row r,
          )
        ]
      ]

  open_row-issue :
      (db : Db) (p : RefreshTokenPayload) (new : String) (now : ℕ) (jti : String)
      → open_row (d.token (issue d jwt (db, 1) p new now).0 jti) ≤ open_row (d.token db jti)
  unfolding issue
  open_row-issue db p new now jti = elim (Option-cases (d.user db p.sub)) [
    | inl missing ↦ ground (arith, missing)
    | inr (u, found) ↦ ground (arith, found, open_row-create_token db u new now jti)
  ]

  open_row-claim :
      (db : Db) (jti other : String)
      → (if (claim d jwt db jti).1 == 1 then (if str_eq jti other then 1 else 0) else 0)
          + open_row (d.token (claim d jwt db jti).0 other)
        ≤ open_row (d.token db other)
  unfolding claim
  open_row-claim db jti other = elim (Bool-cases (str_eq jti other)) [
    | inl same ↦ elim (Option-cases (d.token db other)) [
      | inl missing ↦ ground (
        arith,
        same,
        missing,
        ap (d.token db) ((eq_iff jti other).0 same),
        d.count-revoke db (λ r. not r.revoked) jti,
        d.token-revoke db (λ r. str_eq r.jti jti && not r.revoked) other,
      )
      | inr (r, found) ↦ ground (
        arith,
        same,
        found,
        ap (d.token db) ((eq_iff jti other).0 same),
        d.token-jti db other r found,
        (eq_iff jti other).0 same,
        eq_refl jti,
        eq_iff r.jti jti,
        d.count-revoke db (λ r. not r.revoked) jti,
        d.token-revoke db (λ r. str_eq r.jti jti && not r.revoked) other,
      )
    ]
    | inr differs ↦ elim (Option-cases (d.token db other)) [
      | inl missing ↦ ground (
        arith,
        differs,
        missing,
        d.token-revoke db (λ r. str_eq r.jti jti && not r.revoked) other,
      )
      | inr (r, found) ↦
          ground (
            arith,
            differs,
            found,
            d.token-revoke db (λ r. str_eq r.jti jti && not r.revoked) other,
          )
    ]
  ]

  open_row-revoke :
      (db : Db) (jti user_id other : String)
      → open_row (d.token (revoke d jwt db jti user_id) other) ≤ open_row (d.token db other)
  open_row-revoke db jti user_id other = elim (Option-cases (d.token db other)) [
    | inl missing ↦ ground (arith, missing, token-revoke_lem d jwt db jti user_id other)
    | inr (r, found) ↦ ground (arith, found, token-revoke_lem d jwt db jti user_id other)
  ]

  -- No turn makes room for a second winner.
  won-advance :
      (db : Db) (ph : Phase Token) (new : String) (now : ℕ) (jti : String)
      → won jti (advance db ph new now).1 + open_row (d.token (advance db ph new now).0 jti)
        ≤ won jti ph + open_row (d.token db jti)
  unfolding advance
  won-advance db (waiting t) new now jti = ground arith
  won-advance db (checked p) new now jti = ground (arith, open_row-claim db p.jti jti)
  won-advance db (claimed p) new now jti = ground (arith, open_row-issue db p new now jti)
  won-advance db (finished p i) new now jti = omega arith
  won-advance db (failed e) new now jti = omega arith

  winners-put :
      (phs : List (Phase Token)) (n : ℕ) (ph ph' : Phase Token) (jti : String)
      → get_elem? phs n ≡ some ph
      → winners jti (put phs n ph') + won jti ph ≡ winners jti phs + won jti ph'
  winners-put [] n ph ph' jti e = cc
  winners-put (x ∷ phs) zero ph ph' jti e = ground (arith, e)
  winners-put (x ∷ phs) (suc n) ph ph' jti e = omega (arith, winners-put phs n ph ph' jti e)

  winners-take_turn :
      (s : Db × List (Phase Token)) (t : Turn) (jti : String)
      → winners jti (take_turn s t).1 + open_row (d.token (take_turn s t).0 jti)
        ≤ winners jti s.1 + open_row (d.token s.0 jti)
  unfolding take_turn
  winners-take_turn (db, phs) (turn n new now) jti = elim (Option-cases (get_elem? phs n)) [
    | inl missing ↦ ground (arith, missing)
    | inr (ph, found) ↦ ground (
      arith,
      found,
      won-advance db ph new now jti,
      winners-put phs n ph (advance db ph new now).1 jti found,
    )
  ]
  winners-take_turn (db, phs) (logout id user_id) jti =
      omega (arith, open_row-revoke db id user_id jti)

  winners-race :
      (s : Db × List (Phase Token)) (ts : List Turn) (jti : String)
      → winners jti (race s ts).1 + open_row (d.token (race s ts).0 jti)
        ≤ winners jti s.1 + open_row (d.token s.0 jti)
  unfolding race
  winners-race s [] jti = omega arith
  winners-race s (t ∷ ts) jti =
      omega (arith, winners-race (take_turn s t) ts jti, winners-take_turn s t jti)

  winners-waiting : (tokens : List Token) (jti : String) → winners jti (starts tokens) ≡ 0
  winners-waiting [] jti = refl
  winners-waiting (t ∷ tokens) jti = omega (arith, winners-waiting tokens jti)

  open_row-le : (o : Option RefreshTokenRow) → open_row o ≤ 1
  open_row-le o = ground arith

  -- However the turns of any number of rotations and of logouts are interleaved, at most one
  -- rotation wins the write on a refresh token, so at most one goes on to a new session.
  pub race-one_winner :
      (db : Db) (tokens : List Token) (ts : List Turn) (jti : String)
      → winners jti (race (db, starts tokens) ts).1 ≤ 1
  race-one_winner db tokens ts jti = omega (
    arith,
    winners-race (db, starts tokens) ts jti,
    winners-waiting tokens jti,
    open_row-le (d.token db jti),
  )

  issue-other :
      (db : Db) (count : ℕ) (p : RefreshTokenPayload) (new : String) (now : ℕ)
      → (count == 1) ≡ false
      → issue d jwt (db, count) p new now ≡ (db, err refresh_token_reuse)
  unfolding issue
  issue-other db count p new now e = ground (arith, e)

  -- Three turns with nothing between them are `rotate`: the same database and the same answer.
  pub race-alone :
      (db : Db) (t : Token) (new : String) (now : ℕ)
      → ((race (db, waiting t ∷ []) (turn 0 new now ∷ turn 0 new now ∷ turn 0 new now ∷ [])).0
          ≡ (rotate d jwt db t new now).0)
        × (first_answer
              (race (db, waiting t ∷ []) (turn 0 new now ∷ turn 0 new now ∷ turn 0 new now ∷ [])).1
            ≡ some (rotate d jwt db t new now).1)
  unfolding race take_turn advance rotate
  race-alone db t new now = elim (Result-cases (check d jwt db t now)) [
    | inr (e, bad) ↦ (ground (arith, bad), ground (arith, bad))
    | inl (p, fine) ↦ elim (Bool-cases ((claim d jwt db p.jti).1 == 1)) [
      | inl one ↦
          let here : Db = (claim d jwt db p.jti).0 in
          let same =
            ap (λ n. issue d jwt (here, n) p new now) ((==_iff (claim d jwt db p.jti).1 1).0 one) in
          elim (Result-cases (issue d jwt (here, 1) p new now).1) [
            | inl (i, made) ↦
                (ground (arith, fine, one, same), ground (arith, fine, one, same, made))
            | inr (e, bad) ↦ (ground (arith, fine, one, same), ground (arith, fine, one, same, bad))
          ]
      | inr other ↦
          let none_won =
            issue-other (claim d jwt db p.jti).0 (claim d jwt db p.jti).1 p new now other in
          (ground (arith, fine, other, none_won), ground (arith, fine, other, none_won))
    ]
  ]
