-- ===== src/Core/Config/Secrets.antt =====
-- What a secret of the configuration is.
use Prim.Native.String.{String}
use notes_md_app_be.Prelude.{
  ℕ, ◌≡◌, ◌↔◌, refl, sym, ap, subst, Bool, true, false, ◌&&◌, not, Option, none, some,
  if◌then◌else◌, arith, ltb, some_eq, none-some,
}
use notes_md_app_be.Text.{Text, is_nonempty}
use notes_md_app_be.Core.Config.{
  ConfigError, is_required, too_short, placeholder, Read, value, config_error, codes, contains,
  raw_env, or_fallback, checked_secret, env_secret,
}

-- Long enough, and in production not the placeholder that everybody knows.
unfoldable pub is_secret : Bool → (Text → ℕ) → ℕ → Text → Bool
is_secret is_prod byte_length min_bytes s =
    is_nonempty s
    && (not (ltb (byte_length s) min_bytes) && not (is_prod && contains (codes "change-me") s))

-- The text of the environment, or in development the fallback.
abbrev pub source_of : Bool → Option Text → Option Text → Option Text
source_of is_prod (some raw) fallback = some raw
source_of true none fallback = none
source_of false none fallback = fallback

value_eq : {T : Type 0} (x y : T) → value x ≡ value y → x ≡ y
value_eq x y e = ground (arith, e)

no_value : {T : Type 0} (y : T) (e : ConfigError) → config_error e ≡ value y → ⊥
no_value y e h = ground (arith, h)

not_true : false ≡ true → ⊥
not_true e = ground (arith, e)

abbrev check : Bool → Bool → Bool → Text → Read Text
check nonempty short known raw =
    if not nonempty
    then config_error is_required
    else if short
    then config_error too_short
    else if known
    then config_error placeholder
    else value raw

check_iff :
    (nonempty short known : Bool) (raw s : Text)
    → (check nonempty short known raw ≡ value s)
      ↔ ((some raw ≡ some s) × ((nonempty && (not short && not known)) ≡ true))
check_iff false short known raw s =
    (λ e. elim (no_value s is_required e) [ ], λ (e, f). elim (not_true f) [ ])
check_iff true true known raw s =
    (λ e. elim (no_value s too_short e) [ ], λ (e, f). elim (not_true f) [ ])
check_iff true false true raw s =
    (λ e. elim (no_value s placeholder e) [ ], λ (e, f). elim (not_true f) [ ])
check_iff true false false raw s =
    (λ e. (ap some (value_eq raw s e), refl), λ (e, f). ap value (some_eq raw s e))

module _ (env : String → Option Text) (is_prod : Bool) (byte_length : Text → ℕ)
    (min_bytes : ℕ) where
  or_fallback-eq :
      (raw fallback : Option Text) (b : Bool)
      → or_fallback env b raw fallback ≡ source_of b raw fallback
  or_fallback-eq (some raw) fallback b = refl
  or_fallback-eq none fallback true = refl
  or_fallback-eq none fallback false = refl

  checked_secret_iff :
      (chosen : Option Text) (s : Text)
      → (checked_secret env is_prod byte_length min_bytes chosen ≡ value s)
        ↔ ((chosen ≡ some s) × (is_secret is_prod byte_length min_bytes s ≡ true))
  unfolding is_secret
  checked_secret_iff none s =
      (λ e. elim (no_value s is_required e) [ ], λ (e, f). elim (none-some s e) [ ])
  checked_secret_iff (some raw) s =
      let (to, back) =
        check_iff (is_nonempty raw) (ltb (byte_length raw) min_bytes)
          (is_prod && contains (codes "change-me") raw) raw s in
      (
        λ e. (
          ((to e).0),
          subst (λ x. is_secret is_prod byte_length min_bytes x ≡ true) (some_eq raw s (to e).0)
              (to e).1,
        ),
        λ (e, f). back (
          e,
          subst (λ x. is_secret is_prod byte_length min_bytes x ≡ true) (sym (some_eq raw s e)) f,
        ),
      )

  -- A secret is accepted exactly when it is long enough, not empty and, in production, free of the
  -- public placeholder; it is the environment's text, and only in development, where that is
  -- missing, the fallback. Everything else is an error at the start.
  pub env_secret_iff :
      (name : String) (fallback : Option Text) (s : Text)
      → (env_secret env is_prod byte_length name fallback min_bytes ≡ value s) ↔ (
          (source_of is_prod (raw_env env name) fallback ≡ some s)
          × (is_secret is_prod byte_length min_bytes s ≡ true))
  unfolding env_secret
  env_secret_iff name fallback s =
      subst
        (λ chosen. (checked_secret env is_prod byte_length min_bytes chosen ≡ value s) ↔ (
          (source_of is_prod (raw_env env name) fallback ≡ some s)
          × (is_secret is_prod byte_length min_bytes s ≡ true)))
        (sym (or_fallback-eq (raw_env env name) fallback is_prod))
        (checked_secret_iff (source_of is_prod (raw_env env name) fallback) s)
