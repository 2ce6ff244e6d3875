-- ===== src/Ai/Credentials/Allowed.antt =====
-- Whose account a run may use.
use notes_md_app_be.Prelude.{
  String, ◌≡◌, refl, Bool, true, false, none, some, Bool-cases, Option-cases, inl, inr, ◌∙◌, subst,
  if◌then◌else◌, List, [], ◌∷◌, ◌⊎◌, str_eq, eq_iff, arith,
}
use notes_md_app_be.Ai.Credentials.{
  AiCredential, AiAuth, server, Resolved, auth, credentials_required, credentials_invalid, Accounts,
  can_use_server_login, to_auth, resolve, auth_of, includes, is_empty,
}

-- The text stands in the list.
abbrev pub IsListed : String → List String → Type 0
IsListed x [] = ⊥
IsListed x (y ∷ ys) = (y ≡ x) ⊎ IsListed x ys

false-true : false ≡ true → ⊥
false-true e = cc

includes-IsListed : (ys : List String) (x : String) → includes ys x ≡ true → IsListed x ys
unfolding includes
includes-IsListed [] x e = elim (false-true e) [ ]
includes-IsListed (y ∷ ys) x e = elim (Bool-cases (str_eq y x)) [
  | inl same ↦ inl ((eq_iff y x).0 same)
  | inr other ↦ inr (includes-IsListed ys x (ground (arith, other, e)))
]

IsListed-includes : (ys : List String) (x : String) → IsListed x ys → includes ys x ≡ true
unfolding includes
IsListed-includes [] x h = elim (h) [ ]
IsListed-includes (y ∷ ys) x (inl same) = ground (arith, eq_iff y x, same)
IsListed-includes (y ∷ ys) x (inr later) = ground (arith, eq_iff y x, IsListed-includes ys x later)

not_empty :
    (ys : List String) (x : String)
    → includes ys x ≡ true
    → (if is_empty ys then false else includes ys x) ≡ true
unfolding includes
not_empty [] x e = e
not_empty (y ∷ ys) x e = e

module _ {Sealed : Type 0} (a : Accounts Sealed) where
  -- The account that a run of a user gets.
  pub data IsAllowed (user_id : String) : Bool → AiAuth → Type 0 where
    not_needed : IsAllowed user_id false server
    own :
        (row : AiCredential Sealed) (secret : String)
        → a.credential user_id ≡ some row
        → a.decrypt row.secret user_id ≡ some secret
        → IsAllowed user_id true (auth_of row.type secret)
    server_login :
        (email : String)
        → a.credential user_id ≡ none
        → a.email user_id ≡ some email
        → IsListed (a.to_lower_case email) a.server_login_emails
        → IsAllowed user_id true server

  abbrev AllowedIf : String → Bool → Resolved → Type 0
  AllowedIf user_id needs (auth x) = IsAllowed user_id needs x
  AllowedIf user_id needs credentials_required = Unit
  AllowedIf user_id needs credentials_invalid = Unit

  IsListed-can_use :
      (user_id email : String)
      → a.email user_id ≡ some email
      → IsListed (a.to_lower_case email) a.server_login_emails
      → can_use_server_login a user_id ≡ true
  unfolding can_use_server_login includes
  IsListed-can_use user_id email known listed =
      let there = IsListed-includes a.server_login_emails (a.to_lower_case email) listed in
      rw (known, can_use_server_login) (not_empty a.server_login_emails _ there)

  can_use-IsListed :
      (user_id : String)
      → can_use_server_login a user_id ≡ true
      → (email : String) × (a.email user_id ≡ some email)
        × IsListed (a.to_lower_case email) a.server_login_emails
  unfolding can_use_server_login
  can_use-IsListed user_id e = elim (Option-cases (a.email user_id)) [
    | inl missing ↦ elim (false-true (ground (arith, e, missing))) [ ]
    | inr (email, known) ↦ (
      email,
      known,
      includes-IsListed a.server_login_emails (a.to_lower_case email) (ground (arith, e, known)),
    )
  ]

  to_auth-some :
      (user_id : String) (row : AiCredential Sealed) (secret : String)
      → a.decrypt row.secret user_id ≡ some secret
      → to_auth a user_id row ≡ auth (auth_of row.type secret)
  unfolding to_auth
  to_auth-some user_id row secret e = rw (e, to_auth) refl

  to_auth-none :
      (user_id : String) (row : AiCredential Sealed)
      → a.decrypt row.secret user_id ≡ none
      → to_auth a user_id row ≡ credentials_invalid
  unfolding to_auth
  to_auth-none user_id row e = rw (e, to_auth) refl

  resolve-own :
      (user_id : String) (row : AiCredential Sealed)
      → a.credential user_id ≡ some row
      → resolve a user_id true ≡ to_auth a user_id row
  unfolding resolve
  resolve-own user_id row e = rw (e, resolve) refl

  resolve-server :
      (user_id : String)
      → a.credential user_id ≡ none
      → resolve a user_id true
        ≡ (if can_use_server_login a user_id then auth server else credentials_required)
  unfolding resolve
  resolve-server user_id e = rw (e, resolve) refl

  resolve-AllowedIf :
      (user_id : String) (needs : Bool) → AllowedIf user_id needs (resolve a user_id needs)
  unfolding resolve
  resolve-AllowedIf user_id false = not_needed
  resolve-AllowedIf user_id true = elim (Option-cases (a.credential user_id)) [
    | inl missing ↦
        rw (resolve-server user_id missing) (elim (Bool-cases (can_use_server_login a user_id)) [
          | inl listed ↦
              let (email, known, there) = can_use-IsListed user_id listed in
              rw listed (server_login email missing known there)
          | inr unlisted ↦ rw unlisted tt
        ])
    | inr (row, there) ↦
        rw (resolve-own user_id row there) (elim (Option-cases (a.decrypt row.secret user_id)) [
          | inl bad ↦ rw (to_auth-none user_id row bad) tt
          | inr (secret, good) ↦
              rw (to_auth-some user_id row secret good) (own row secret there good)
        ])
  ]

  -- A run that needs an account gets the user's own credential, decrypted for this user, or, for a
  -- user who saved none and whose email, in lower case, stands in the list of the settings, the login
  -- of the server, and nothing else: an empty list lets nobody use it, and a saved credential that
  -- cannot be decrypted never falls back to it. A run that needs no account uses the login of the
  -- server.
  pub resolve-IsAllowed :
      (user_id : String) (needs : Bool) (x : AiAuth)
      → resolve a user_id needs ≡ auth x
      → IsAllowed user_id needs x
  resolve-IsAllowed user_id needs x e =
      subst (AllowedIf user_id needs) e (resolve-AllowedIf user_id needs)

  -- Every account that a run may use is the one that it gets.
  pub IsAllowed-resolve :
      (user_id : String) (needs : Bool) (x : AiAuth)
      → IsAllowed user_id needs x
      → resolve a user_id needs ≡ auth x
  unfolding resolve
  IsAllowed-resolve user_id _ _ not_needed = refl
  IsAllowed-resolve user_id _ _ (own row secret there good) =
      resolve-own user_id row there ∙ to_auth-some user_id row secret good
  IsAllowed-resolve user_id _ _ (server_login email missing known there) =
      resolve-server user_id missing ∙ rw (IsListed-can_use user_id email known there) refl
