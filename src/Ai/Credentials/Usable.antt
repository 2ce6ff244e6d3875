-- ===== src/Ai/Credentials/Usable.antt =====
-- A credential that was saved is the one that the user's runs get.
use Prim.Native.String.{String}
use Prim.Native.Char.{Char}
use mathlib.Core.Option
use notes_md_app_be.Prelude.{
  ℕ, ◌≡◌, refl, sym, ap, ◌∙◌, Bool, true, false, Option, none, some, List, if◌then◌else◌, str_eq,
  eq_refl,
}
use notes_md_app_be.Prelude.Map
use notes_md_app_be.Prelude.Map.{Map, get-set, get-delete}
use notes_md_app_be.Security.SecretBox.{Cipher}
use notes_md_app_be.Security.SecretBox.Sealing.{decrypt-encrypt}
use notes_md_app_be.Ai.Credentials.{
  CredentialType, AiCredential, Accounts, auth, auth_of, resolve, to_auth,
}
use notes_md_app_be.Ai.Credentials.Saving.{
  CredentialRow, Saved, saved, wrong_type, wrong_format, cleaned, has_format, save, new_row,
  other_type, to_credential, accounts_of, get_status, status_of,
}

get-set_same :
    (table : Map CredentialRow) (user_id : String) (row : CredentialRow)
    → Map.get (Map.set table user_id row) user_id ≡ some row
get-set_same table user_id row =
    get-set table user_id row user_id
    ∙ ap (λ b. if b then some row else Map.get table user_id) (eq_refl user_id)

resolve-some :
    (a : Accounts String) (user_id : String) (row : AiCredential String) (text : String)
    → a.credential user_id ≡ some row
    → a.decrypt row.secret user_id ≡ some text
    → resolve a user_id true ≡ auth (auth_of row.type text)
unfolding resolve to_auth
resolve-some a user_id row text e f = rw e (rw (f, to_auth) refl)

module _ {Iv Tag Bytes : Type 0} (c : Cipher Iv Tag Bytes) (is_space : Char → Bool)
    (emails : List String) (email : String → Option String) (to_lower_case : String → String) where
  abbrev pub runs_with : Map CredentialRow → Accounts String
  runs_with table = accounts_of c is_space table emails email to_lower_case

  resolve-set :
      (table : Map CredentialRow) (iv : Iv) (now : ℕ) (user_id : String) (type : CredentialType)
      (value : String)
      → resolve
          (runs_with (Map.set table user_id (new_row c is_space iv now user_id type value)))
          user_id
          true
        ≡ auth (auth_of type value)
  resolve-set table iv now user_id type value =
      let row = new_row c is_space iv now user_id type value in
      resolve-some (runs_with (Map.set table user_id row)) user_id (to_credential c is_space row)
        value (ap (Option.map (to_credential c is_space)) (get-set_same table user_id row))
        (decrypt-encrypt c iv value user_id user_id
          ∙ ap (λ b. if b then some value else none) (eq_refl user_id))

  -- What a save leaves: the user's runs get the cleaned secret, and nothing changes for the others.
  abbrev pub IsUsable : Map CredentialRow → String → CredentialType → String → Saved → Type 0
  IsUsable table user_id type value (saved table' status) =
      (has_format type value ≡ true)
      × ((resolve (runs_with table') user_id true ≡ auth (auth_of type value))
          × ((get_status table' user_id ≡ some status)
              × ((other : String)
                  → Map.get table' other ≡ (
                      if str_eq user_id other
                      then Map.get table' user_id
                      else Map.get table other))))
  IsUsable table user_id type value (wrong_type t) =
      (has_format type value ≡ false) × (has_format (other_type type) value ≡ true)
  IsUsable table user_id type value (wrong_format t) =
      (has_format type value ≡ false) × (has_format (other_type type) value ≡ false)

  save_value-IsUsable :
      (table : Map CredentialRow) (iv : Iv) (now : ℕ) (user_id : String) (type : CredentialType)
      (value : String) (b other : Bool)
      → has_format type value ≡ b
      → has_format (other_type type) value ≡ other
      → IsUsable table user_id type value (
          if b
          then saved
              (Map.set table user_id (new_row c is_space iv now user_id type value))
              (status_of (new_row c is_space iv now user_id type value))
          else if other
          then wrong_type type
          else wrong_format type)
  unfolding get_status
  save_value-IsUsable table iv now user_id type value true other e f =
      let row = new_row c is_space iv now user_id type value in
      (
        e,
        (
          resolve-set table iv now user_id type value,
          (
            ap (Option.map status_of) (get-set_same table user_id row),
            λ o.
                get-set table user_id row o
                ∙ ap (λ found. if str_eq user_id o then found else Map.get table o)
                    (sym (get-set_same table user_id row)),
          ),
        ),
      )
  save_value-IsUsable table iv now user_id type value false true e f = (e, f)
  save_value-IsUsable table iv now user_id type value false false e f = (e, f)

  -- A credential is saved exactly when the cleaned secret has the format of its type, and a refusal
  -- says whether it has that of the other type. After a save every run of the user that needs an
  -- account gets this secret, sealed and opened again, the status shows it, and the rows of other
  -- users are as they were.
  pub save-IsUsable :
      (table : Map CredentialRow) (iv : Iv) (now : ℕ) (user_id : String) (type : CredentialType)
      (secret : String)
      → IsUsable table user_id type
          (cleaned is_space secret)
          (save c is_space table iv now user_id type secret)
  unfolding save
  save-IsUsable table iv now user_id type secret =
      save_value-IsUsable table iv now user_id type (cleaned is_space secret) _ _ refl refl
