-- ===== src/Security/SecretBox.antt =====
-- infrastructure/security/crypto/secretBox.ts: the format of a sealed secret. The cipher, base64 and
-- the random initialisation vectors are arguments.
pub mod Sealing
pub mod Sample
mod Tests
use Prim.Native.String.{String}
use Prim.Native.String
use Prim.Native.Char.{code}
use notes_md_app_be.Prelude.{
  ℕ, ◌≡◌, Bool, true, false, not, ◌&&◌, Option, none, some, List, [], ◌∷◌, if◌then◌else◌, str_eq,
  ◌==◌,
}
use notes_md_app_be.Core.Selectors.{split_on}

abbrev pub version : String
version = "v1"

abbrev pub colon : ℕ
colon = 58

-- Two texts joined by a colon.
unfoldable pub with_colon : String → String → String
with_colon String.[] t = String.◌∷◌ ":" t
with_colon (String.◌∷◌ c s) t = String.◌∷◌ c (with_colon s t)

unfoldable pub has_colon : String → Bool
has_colon String.[] = false
has_colon (String.◌∷◌ c s) = if code c == colon then true else has_colon s

-- A text without a colon.
abbrev pub IsPart : String → Type 0
IsPart s = has_colon s ≡ false

abbrev pub is_blank : String → Bool
is_blank String.[] = true
is_blank (String.◌∷◌ c s) = false

-- AES-256-GCM under the service's key, with a context that is authenticated, and the texts that
-- stand for its bytes. A secret opens in its own context, and in no other.
pub record Cipher (Iv Tag Bytes : Type 0) : Type 0 where
  pub seal : Iv → String → String → Tag × Bytes
  pub unseal : Iv → Tag → Bytes → String → Option String
  pub iv_text : Iv → String
  pub tag_text : Tag → String
  pub bytes_text : Bytes → String
  pub text_iv : String → Iv
  pub text_tag : String → Tag
  pub text_bytes : String → Bytes
  pub text_iv-iv_text : (iv : Iv) → text_iv (iv_text iv) ≡ iv
  pub text_tag-tag_text : (tag : Tag) → text_tag (tag_text tag) ≡ tag
  pub text_bytes-bytes_text : (b : Bytes) → text_bytes (bytes_text b) ≡ b
  pub iv_text-IsPart : (iv : Iv) → IsPart (iv_text iv) × (is_blank (iv_text iv) ≡ false)
  pub tag_text-IsPart : (tag : Tag) → IsPart (tag_text tag) × (is_blank (tag_text tag) ≡ false)
  pub bytes_text-IsPart : (b : Bytes) → IsPart (bytes_text b)
  pub unseal-seal :
      (iv : Iv) (text context other : String)
      → unseal iv (seal iv text context).0 (seal iv text context).1 other
        ≡ (if str_eq context other then some text else none)

module _ {Iv Tag Bytes : Type 0} (c : Cipher Iv Tag Bytes) where
  -- With the initialisation vector that is drawn.
  unfoldable pub encrypt : Iv → String → String → String
  encrypt iv plaintext context =
      let (tag, ciphertext) = c.seal iv plaintext context in
      with_colon version
        (with_colon (c.iv_text iv) (with_colon (c.tag_text tag) (c.bytes_text ciphertext)))

  -- `none` where it throws: too few parts, another version, or an empty vector or tag.
  unfoldable pub decrypt_parts : List String → String → Option String
  decrypt_parts (v ∷ iv ∷ tag ∷ ciphertext ∷ rest) context =
      if str_eq v version && (not (is_blank iv) && not (is_blank tag))
      then c.unseal (c.text_iv iv) (c.text_tag tag) (c.text_bytes ciphertext) context
      else none
  decrypt_parts [] context = none
  decrypt_parts (v ∷ []) context = none
  decrypt_parts (v ∷ iv ∷ []) context = none
  decrypt_parts (v ∷ iv ∷ tag ∷ []) context = none

  unfoldable pub decrypt : String → String → Option String
  decrypt payload context = decrypt_parts (split_on colon payload) context
