-- ===== src/Ai/Credentials/Saving.antt =====
-- modules/ai/credentials/aiCredentials.service.ts and credential.types.ts: saving, showing and
-- removing a credential. A table of credentials is a map by user.
use Prim.Native.String.{String}
use Prim.Native.Char.{Char, code}
use notes_md_app_be.Prelude.{
  ℕ, suc, ◌-◌, ltb, Bool, false, ◌&&◌, ◌||◌, Option, none, some, List, ◌==◌, leb, if◌then◌else◌,
}
use mathlib.Core.Option
use notes_md_app_be.Prelude.Map
use notes_md_app_be.Prelude.Map.{Map}
use notes_md_app_be.Security.SecretBox.{Cipher, encrypt, decrypt}
use notes_md_app_be.Ai.Credentials.{
  CredentialType, claude_oauth_token, anthropic_api_key, AiCredential, Accounts,
}

pub record CredentialRow : Type 0 where
  pub type : CredentialType
  pub secret : String
  pub hint : String
  pub updated_at : ℕ

-- What is shown of a credential.
pub record CredentialStatus : Type 0 where
  pub type : CredentialType
  pub hint : String
  pub updated_at : ℕ

pub data Saved : Type 0 where
  saved : Map CredentialRow → CredentialStatus → Saved
  wrong_type wrong_format : CredentialType → Saved

-- `replace` of the characters that a token never has; which ones these are is Unicode's.
unfoldable pub cleaned : (Char → Bool) → String → String
cleaned is_space String.[] = ""
cleaned is_space (String.◌∷◌ c s) =
    let rest = cleaned is_space s in if is_space c then rest else String.◌∷◌ c rest

abbrev pub is_digit : ℕ → Bool
is_digit c = leb 48 c && leb c 57

-- `[A-Za-z0-9_-]`
abbrev pub is_token_char : ℕ → Bool
is_token_char c =
    is_digit c || ((leb 65 c && leb c 90) || ((leb 97 c && leb c 122) || (c == 95 || c == 45)))

-- At least so many characters, all of a token.
unfoldable pub is_token : ℕ → String → Bool
is_token least String.[] = least == 0
is_token least (String.◌∷◌ c s) =
    let rest = is_token (least - 1) s in is_token_char (code c) && rest

-- Two digits, a dash, and a token of 20 characters or more.
abbrev pub is_numbered_token : String → Bool
is_numbered_token (String.◌∷◌ a (String.◌∷◌ b (String.◌∷◌ dash s))) =
    is_digit (code a) && (is_digit (code b) && (code dash == 45 && is_token 20 s))
is_numbered_token String.[] = false
is_numbered_token (String.◌∷◌ a String.[]) = false
is_numbered_token (String.◌∷◌ a (String.◌∷◌ b String.[])) = false

-- The text behind a prefix.
unfoldable pub behind_prefix : String → String → Option String
behind_prefix String.[] s = some s
behind_prefix (String.◌∷◌ p ps) String.[] = none
behind_prefix (String.◌∷◌ p ps) (String.◌∷◌ c s) =
    let rest = behind_prefix ps s in if code p == code c then rest else none

abbrev pub prefix_of : CredentialType → String
prefix_of claude_oauth_token = "sk-ant-oat"
prefix_of anthropic_api_key = "sk-ant-api"

-- `CREDENTIAL_FORMATS`
unfoldable pub has_format : CredentialType → String → Bool
has_format type value = elim (behind_prefix (prefix_of type) value) [
  | none ↦ false
  | some rest ↦ is_numbered_token rest
]

abbrev pub other_type : CredentialType → CredentialType
other_type claude_oauth_token = anthropic_api_key
other_type anthropic_api_key = claude_oauth_token

abbrev pub format_error : CredentialType → String → Saved
format_error type value =
    if has_format (other_type type) value then wrong_type type else wrong_format type

abbrev pub size : String → ℕ
size String.[] = 0
size (String.◌∷◌ c s) = suc (size s)

-- `slice(-4)`
unfoldable pub last_four : String → String
last_four String.[] = ""
last_four (String.◌∷◌ c s) =
    let rest = last_four s in if ltb 3 (size s) then rest else String.◌∷◌ c s

abbrev pub status_of : CredentialRow → CredentialStatus
status_of row = record { type = row.type; hint = row.hint; updated_at = row.updated_at }

unfoldable pub get_status : Map CredentialRow → String → Option CredentialStatus
get_status table user_id = Option.map status_of (Map.get table user_id)

unfoldable pub remove : Map CredentialRow → String → Map CredentialRow
remove table user_id = Map.delete table user_id

module _ {Iv Tag Bytes : Type 0} (c : Cipher Iv Tag Bytes) (is_space : Char → Bool) where
  abbrev pub new_row : Iv → ℕ → String → CredentialType → String → CredentialRow
  new_row iv now user_id type value = record {
    type = type;
    secret = encrypt c iv value user_id;
    hint = String.◌∷◌ "…" (last_four value);
    updated_at = now;
  }

  abbrev pub save_value : Map CredentialRow → Iv → ℕ → String → CredentialType → String → Saved
  save_value table iv now user_id type value =
      if has_format type value
      then saved (Map.set table user_id (new_row iv now user_id type value))
          (status_of (new_row iv now user_id type value))
      else format_error type value

  -- `save`, with the vector that the cipher draws and the time of the write.
  unfoldable pub save : Map CredentialRow → Iv → ℕ → String → CredentialType → String → Saved
  save table iv now user_id type secret =
      save_value table iv now user_id type (cleaned is_space secret)

  abbrev pub to_credential : CredentialRow → AiCredential String
  to_credential row = record { type = row.type; secret = row.secret }

  -- The accounts of the runs, over this table and this cipher.
  abbrev pub accounts_of :
      Map CredentialRow
      → List String
      → (String → Option String)
      → (String → String)
      → Accounts String
  accounts_of table emails email to_lower_case = record {
    server_login_emails = emails;
    credential = λ user_id. Option.map to_credential (Map.get table user_id);
    email = email;
    decrypt = decrypt c;
    to_lower_case = to_lower_case;
  }
