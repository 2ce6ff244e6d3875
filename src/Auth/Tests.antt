-- ===== src/Auth/Tests.antt =====
-- Runs of the sessions over the sample database, and the instances of their theorems.
use mathlib.Core.Bool.{false≢true}
use notes_md_app_be.Prelude.{
  ◌≤◌, String, ◌≡◌, refl, true, false, Option, some, List, [], ◌∷◌, arith, eq_iff, ◌⊎◌, ◌↔◌,
}
use notes_md_app_be.Prelude.Map
use notes_md_app_be.Auth.Database.{User}
use notes_md_app_be.Auth.Result.{
  Result, ok, err, AuthError, refresh_token_reuse, invalid_refresh_token, refresh_token_revoked,
  invalid_token,
}
use notes_md_app_be.Auth.Tokens.{
  IssuedRefreshToken, create_token, check, check_row, claim, issue, rotate, create_access_token,
  revoke,
}
use notes_md_app_be.Auth.Tokens.Rotation.{rotate-rotate}
use notes_md_app_be.Auth.Tokens.Race.{
  Turn, turn, logout, race, starts, winners, take_turn, advance, race-one_winner,
}
use notes_md_app_be.Auth.Sessions
use notes_md_app_be.Auth.Sessions.{
  Tokens, create_tokens, with_access, refresh, login, try_login, revoke_all_sessions, can_activate,
}
use notes_md_app_be.Auth.Sessions.Revoking.{
  refresh-revoke_all, can_activate-revoke_all, refresh-logout,
}
use notes_md_app_be.Auth.Sessions.Issuing.{
  access_payload, refresh_payload, create_tokens-accepted, IsAdmitted, can_activate-eq-ok,
}
use notes_md_app_be.Auth.Sample
use notes_md_app_be.Auth.Sample.{
  Tables, Signed, database, jwt, find_email, revoke_rows, count_rows, revoke_rows-IsUnique,
}

-- One account and two of its sessions.
abbrev ann : User
ann = record { id = "ann"; email = "a@x"; password = "hash"; token_version = 3 }

sample-IsUnique : Map.IsUnique {V = Sample.Row} (
    ("s1", record { user_id = "ann"; expires_at = 5000; revoked = false })
    ∷ ("s2", record { user_id = "ann"; expires_at = 5000; revoked = false })
    ∷ [])
unfolding Map.get
sample-IsUnique = (refl, (refl, tt))

s1-ne-s2 : ◌≡◌ {A = Option String} (some "s1") (some "s2") → ⊥
s1-ne-s2 e = ground (arith, e, eq_iff "s1" "s2")

abbrev db : Tables
db = record {
  rows =
      ("s1", record { user_id = "ann"; expires_at = 5000; revoked = false })
      ∷ ("s2", record { user_id = "ann"; expires_at = 5000; revoked = false })
      ∷ [];
  unique = sample-IsUnique;
  accounts = ("ann", record { email = "a@x"; password = "hash"; token_version = 3 }) ∷ [];
}

abbrev token : Signed
token = Sample.refresh (refresh_payload ann "s1") 1000

abbrev card : Signed
card = Sample.access (access_payload ann "s1") 1000

abbrev rotated : Tables × Result (IssuedRefreshToken Signed)
rotated = rotate database jwt db token "s3" 2000

rotated_ok : rotated ≡ (
  rotated.0,
  ok (record { token = Sample.refresh (refresh_payload ann "s3") 2000; jti = "s3" }),
)
unfolding rotate check check_row claim issue create_token Map.get Map.set revoke_rows count_rows
rotated_ok = refl

rotate-rotate_example :
    (rotate database jwt rotated.0 token "s4" 3000 ≡ (rotated.0, err refresh_token_reuse))
    ⊎ (rotate database jwt rotated.0 token "s4" 3000 ≡ (rotated.0, err invalid_refresh_token))
rotate-rotate_example =
    rotate-rotate database jwt db token "s3" 2000 rotated.0
      (record { token = Sample.refresh (refresh_payload ann "s3") 2000; jti = "s3" }) "s4" 3000
      rotated_ok

-- Two requests with the same refresh token check it before either writes.
abbrev interleaved : List Turn
interleaved =
    turn 0 "s3" 2000
    ∷ turn 1 "s4" 2000
    ∷ turn 1 "s4" 2001
    ∷ turn 0 "s3" 2001
    ∷ logout "s2" "ann"
    ∷ turn 1 "s4" 2002
    ∷ []

race_won : winners "s1" (race database jwt (db, starts (token ∷ token ∷ [])) interleaved).1 ≡ 1
unfolding race take_turn advance rotate check check_row claim issue create_token Map.get Map.set
    revoke_rows count_rows revoke
race_won = refl

race-one_winner_example :
    winners "s1" (race database jwt (db, starts (token ∷ token ∷ [])) interleaved).1 ≤ 1
race-one_winner_example = race-one_winner database jwt db (token ∷ token ∷ []) interleaved "s1"

abbrev three_turns : List Turn
three_turns = turn 0 "s3" 2000 ∷ turn 0 "s3" 2000 ∷ turn 0 "s3" 2000 ∷ []

abbrev everywhere : Tables
everywhere = (revoke_all_sessions database jwt db "ann").0

everywhere_ok : revoke_all_sessions database jwt db "ann" ≡ (everywhere, ok tt)
unfolding revoke_all_sessions Map.get Map.set
everywhere_ok = refl

found_ann : database.user db "ann" ≡ some ann
unfolding Map.get
found_ann = refl

refresh-revoke_all_example :
    refresh database jwt everywhere (some token) "s4" 3000 ≡ (everywhere, err refresh_token_revoked)
refresh-revoke_all_example =
    refresh-revoke_all database jwt db ann everywhere token (refresh_payload ann "s1") "s4" 3000
      everywhere_ok found_ann refl (omega arith)

can_activate-revoke_all_example :
    can_activate database jwt everywhere true false (some card) 3000 ≡ err invalid_token
can_activate-revoke_all_example =
    can_activate-revoke_all database jwt db ann everywhere card (access_payload ann "s1") 3000
      everywhere_ok found_ann refl (omega arith)

refresh-logout_example :
    (e : AuthError) × (refresh database jwt
        (Sessions.logout database jwt db (access_payload ann "s1"))
        (some token)
        "s4"
        3000
      ≡ (Sessions.logout database jwt db (access_payload ann "s1"), err e))
unfolding Map.get
refresh-logout_example =
    refresh-logout database jwt db (access_payload ann "s1") "s1"
      (record { jti = "s1"; user_id = "ann"; expires_at = 5000; revoked = false }) token
      (refresh_payload ann "s1") "s4" 3000 refl (λ e. false≢true ((eq_iff "s1" "").1 e)) refl refl
      refl refl

abbrev logged_in : Tables × Result (Tokens Signed)
logged_in = create_tokens database jwt db ann "s3" 2000

logged_in_ok : logged_in ≡ (
  logged_in.0,
  ok (record {
    access_token = Sample.access (access_payload ann "s3") 2000;
    refresh_token = Sample.refresh (refresh_payload ann "s3") 2000;
  }),
)
unfolding create_tokens create_token create_access_token Map.get Map.set
logged_in_ok = refl

create_tokens-accepted_example :
    (can_activate database jwt logged_in.0 true false
        (some (Sample.access (access_payload ann "s3") 2000))
        3000
      ≡ ok (some (access_payload ann "s3")))
    × (check database jwt logged_in.0 (Sample.refresh (refresh_payload ann "s3") 2000) 3000
        ≡ ok (refresh_payload ann "s3"))
create_tokens-accepted_example =
    create_tokens-accepted database jwt db ann "s3" 2000 logged_in.0
      (record {
        access_token = Sample.access (access_payload ann "s3") 2000;
        refresh_token = Sample.refresh (refresh_payload ann "s3") 2000;
      })
      3000 (λ e. false≢true ((eq_iff "s3" "").1 e)) found_ann logged_in_ok (omega arith)
      (omega arith) (omega arith)

can_activate-eq-ok_example :
    (can_activate database jwt db true false (some card) 3000 ≡ ok (some (access_payload ann "s1")))
    ↔ IsAdmitted database jwt db true false (some card) 3000 (some (access_payload ann "s1"))
can_activate-eq-ok_example =
    can_activate-eq-ok database jwt db true false (some card) 3000 (some (access_payload ann "s1"))
