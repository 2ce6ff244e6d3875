-- ===== src/Ai/Credentials.antt =====
-- modules/ai/credentials/aiCredentials.service.ts: which account a run of the assistant uses. The
-- tables and the cipher are arguments, and so is `toLowerCase` of the runtime.
pub mod Allowed
pub mod Saving
pub mod Usable
mod Tests
use notes_md_app_be.Prelude.{
  String, Bool, true, false, Option, none, some, List, [], ◌∷◌, if◌then◌else◌, str_eq,
}

pub data CredentialType : Type 0 where
  claude_oauth_token anthropic_api_key : CredentialType

pub record AiCredential (Sealed : Type 0) : Type 0 where
  pub type : CredentialType
  pub secret : Sealed

pub data AiAuth : Type 0 where
  server : AiAuth
  oauth_token : String → AiAuth
  api_key : String → AiAuth

-- The two answers of status 403.
pub data Resolved : Type 0 where
  auth : AiAuth → Resolved
  credentials_required credentials_invalid : Resolved

-- The settings and what lies outside: a user's credential, their email, and `decrypt` for a user,
-- which fails on a secret that was not sealed for them with the same key.
pub record Accounts (Sealed : Type 0) : Type 0 where
  pub server_login_emails : List String
  pub credential : String → Option (AiCredential Sealed)
  pub email : String → Option String
  pub decrypt : Sealed → String → Option String
  pub to_lower_case : String → String

unfoldable pub includes : List String → String → Bool
includes [] x = false
includes (y ∷ ys) x = if str_eq y x then true else includes ys x

abbrev pub is_empty : List String → Bool
is_empty [] = true
is_empty (x ∷ xs) = false

abbrev pub auth_of : CredentialType → String → AiAuth
auth_of claude_oauth_token secret = oauth_token secret
auth_of anthropic_api_key secret = api_key secret

module _ {Sealed : Type 0} (a : Accounts Sealed) where
  unfoldable pub can_use_server_login : String → Bool
  can_use_server_login user_id =
      if is_empty a.server_login_emails then false else elim (a.email user_id) [
        | none ↦ false
        | some email ↦ includes a.server_login_emails (a.to_lower_case email)
      ]

  unfoldable pub to_auth : String → AiCredential Sealed → Resolved
  to_auth user_id row = elim (a.decrypt row.secret user_id) [
    | none ↦ credentials_invalid
    | some secret ↦ auth (auth_of row.type secret)
  ]

  unfoldable pub resolve : String → Bool → Resolved
  resolve user_id needs_account =
      if needs_account
      then elim (a.credential user_id) [
        | some row ↦ to_auth user_id row
        | none ↦ if can_use_server_login user_id then auth server else credentials_required
      ]
      else auth server
