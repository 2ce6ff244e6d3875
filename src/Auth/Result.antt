-- ===== src/Auth/Result.antt =====
-- The exceptions of modules/auth as values.
use notes_md_app_be.Prelude.{◌≡◌, refl, ◌⊎◌, inl, inr}

-- One constructor for each message; `server_fault` is any other error, which becomes a 500.
pub data AuthError : Type 0 where
  missing_refresh_token invalid_refresh_token refresh_token_reuse refresh_token_expired : AuthError
  refresh_token_revoked user_not_found session_revoked token_does_not_exist invalid_token :
      AuthError
  invalid_credentials email_in_use json_web_token server_fault : AuthError

pub data Result (A : Type 0) : Type 0 where
  ok : A → Result A
  err : AuthError → Result A

pub Result-cases :
    {A : Type 0} (r : Result A) → ((a : A) × (r ≡ ok a)) ⊎ ((e : AuthError) × (r ≡ err e))
Result-cases (ok a) = inl (a, refl)
Result-cases (err e) = inr (e, refl)
