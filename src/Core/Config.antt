-- ===== src/Core/Config.antt =====
-- core/config/env.ts: reading the environment. The environment, the conversion of texts to numbers,
-- their order and the length of a text in UTF-8 are arguments.
pub mod Secrets
mod Tests
use Prim.Native.String.{String}
use Prim.Native.String
use Prim.Native.Char.{code}
use notes_md_app_be.Prelude.{
  ℕ, ◌+◌, Bool, true, false, ◌&&◌, ◌||◌, not, Option, none, some, List, [], ◌∷◌, ◌==◌, leb, ltb,
  length, if◌then◌else◌,
}
use notes_md_app_be.Text.{Text, trim, is_nonempty}

pub data ConfigError : Type 0 where
  required_in_production is_required too_short not_finite below_min above_max not_boolean
        placeholder :
      ConfigError

pub data Read (T : Type 0) : Type 0 where
  value : T → Read T
  config_error : ConfigError → Read T

pub record Opts (T : Type 0) : Type 0 where
  pub default : Option T
  pub required_in_prod : Bool

abbrev pub codes : String → Text
codes String.[] = []
codes (String.◌∷◌ c s) = code c ∷ codes s

abbrev pub lower : ℕ → ℕ
lower c = if leb 65 c && leb c 90 then c + 32 else c

-- Whether a text begins with another one, whatever the case of its letters.
unfoldable pub begins_with : Text → Text → Bool
begins_with [] text = true
begins_with (p ∷ ps) [] = false
begins_with (p ∷ ps) (c ∷ cs) = lower c == p && begins_with ps cs

-- A test for a word in lower case anywhere in a text.
unfoldable pub contains : Text → Text → Bool
contains word [] = begins_with word []
contains word (c ∷ cs) = begins_with word (c ∷ cs) || contains word cs

-- `^word$`
abbrev pub is_word : String → Text → Bool
is_word word text = begins_with (codes word) text && length text == length (codes word)

abbrev pub if_nonempty : Text → Option Text
if_nonempty [] = none
if_nonempty (c ∷ cs) = some (c ∷ cs)

abbrev pub trimmed : Option Text → Option Text
trimmed none = none
trimmed (some v) = if_nonempty (trim v)

unfoldable pub raw_env : (String → Option Text) → String → Option Text
raw_env env name = trimmed (env name)

abbrev pub default_of : {T : Type 0} → Option T → Read T
default_of none = config_error is_required
default_of (some d) = value d

abbrev pub parsed : {T : Type 0} → Bool → (Text → Read T) → Opts T → Option Text → Read T
parsed is_prod parse opts none =
    if is_prod && opts.required_in_prod
    then config_error required_in_production
    else default_of opts.default
parsed is_prod parse opts (some raw) = parse raw

module _ (env : String → Option Text) (is_prod : Bool) where
  unfoldable pub get_env : {T : Type 0} → String → (Text → Read T) → Opts T → Read T
  get_env name parse opts = parsed is_prod parse opts (raw_env env name)

  -- A least length of 0 is none.
  unfoldable pub env_string : String → ℕ → Opts Text → Read Text
  env_string name min_length opts =
      get_env name (λ v. if ltb (length v) min_length then config_error too_short else value v) opts

  abbrev pub in_range :
      {Num : Type 0} → (Num → Num → Bool) → Option Num → Option Num → Num → Read Num
  in_range less none none n = value n
  in_range less (some least) none n = if less n least then config_error below_min else value n
  in_range less none (some most) n = if less most n then config_error above_max else value n
  in_range less (some least) (some most) n =
      if less n least
      then config_error below_min
      else if less most n
      then config_error above_max
      else value n

  abbrev pub finite_in_range :
      {Num : Type 0} → (Num → Num → Bool) → Option Num → Option Num → Option Num → Read Num
  finite_in_range less least most none = config_error not_finite
  finite_in_range less least most (some n) = in_range less least most n

  -- `to_number` is `Number`, where that is finite.
  unfoldable pub env_number :
      {Num : Type 0}
      → (Text → Option Num)
      → (Num → Num → Bool)
      → String
      → Option Num
      → Option Num
      → Opts Num
      → Read Num
  env_number to_number less name least most opts =
      get_env name (λ v. finite_in_range less least most (to_number v)) opts

  abbrev pub boolean_of : Text → Read Bool
  boolean_of v =
      if is_word "1" v || (is_word "true" v || (is_word "yes" v || is_word "on" v))
      then value true
      else if is_word "0" v || (is_word "false" v || (is_word "no" v || is_word "off" v))
      then value false
      else config_error not_boolean

  unfoldable pub env_boolean : String → Opts Bool → Read Bool
  env_boolean name opts = get_env name boolean_of opts

  -- The environment's text, or in development the fallback.
  abbrev pub or_fallback : Option Text → Option Text → Option Text
  or_fallback (some raw) fallback = some raw
  or_fallback none fallback = if is_prod then none else fallback

  abbrev pub checked_secret : (Text → ℕ) → ℕ → Option Text → Read Text
  checked_secret byte_length min_bytes none = config_error is_required
  checked_secret byte_length min_bytes (some raw) =
      if not (is_nonempty raw)
      then config_error is_required
      else if ltb (byte_length raw) min_bytes
      then config_error too_short
      else if is_prod && contains (codes "change-me") raw
      then config_error placeholder
      else value raw

  unfoldable pub env_secret : (Text → ℕ) → String → Option Text → ℕ → Read Text
  env_secret byte_length name dev_fallback min_bytes =
      checked_secret byte_length min_bytes (or_fallback (raw_env env name) dev_fallback)
