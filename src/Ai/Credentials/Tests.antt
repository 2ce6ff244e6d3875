-- ===== src/Ai/Credentials/Tests.antt =====
-- Accounts at concrete inputs.
use notes_md_app_be.Prelude.{
  String, ◌==◌, Bool, Option, refl, true, none, some, [], ◌∷◌, if◌then◌else◌, str_eq,
}
use notes_md_app_be.Ai.Credentials.{api_key, Accounts, anthropic_api_key, resolve, to_auth}
use Prim.Native.Char.{Char, code}
use notes_md_app_be.Security.SecretBox.Sample.{sample}
use notes_md_app_be.Ai.Credentials.Saving.{cleaned, save}
use notes_md_app_be.Ai.Credentials.Usable.{IsUsable, save-IsUsable}
use notes_md_app_be.Ai.Credentials.Allowed.{IsAllowed, resolve-IsAllowed}

-- A sealed secret is the user and the text.
abbrev accounts : Accounts (String × String)
accounts = record {
  server_login_emails = "root@x" ∷ [];
  credential = λ user.
      if str_eq user "ann"
      then some (record { type = anthropic_api_key; secret = ("ann", "k") })
      else none;
  email = λ user. some "root@x";
  decrypt = λ (user, text) for_user. if str_eq user for_user then some text else none;
  to_lower_case = λ email. email;
}

resolve-IsAllowed_example : IsAllowed accounts "ann" true (api_key "k")
unfolding resolve to_auth
resolve-IsAllowed_example = resolve-IsAllowed accounts "ann" true (api_key "k") refl

abbrev is_space : Char → Bool
is_space c = code c == 32

abbrev no_email : String → Option String
no_email user = none

abbrev as_it_is : String → String
as_it_is email = email

save-IsUsable_example :
    IsUsable sample is_space [] no_email as_it_is [] "ann" anthropic_api_key
      (cleaned is_space "sk-ant-api03-abcdefghij 0123456789")
      (save sample is_space [] "iv" 7 "ann" anthropic_api_key "sk-ant-api03-abcdefghij 0123456789")
save-IsUsable_example =
    save-IsUsable sample is_space [] no_email as_it_is [] "iv" 7 "ann" anthropic_api_key
      "sk-ant-api03-abcdefghij 0123456789"
