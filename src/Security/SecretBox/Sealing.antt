-- ===== src/Security/SecretBox/Sealing.antt =====
-- What is sealed opens again, for the same owner only.
use Prim.Native.String.{String}
use Prim.Native.Char.{Char, code}
use notes_md_app_be.Prelude.{
  ◌≡◌, refl, ap, subst, ◌∙◌, true, false, none, some, [], ◌∷◌, if◌then◌else◌, str_eq, ◌==◌,
  Bool-cases, inl, inr, arith,
}
use notes_md_app_be.Core.Selectors.{split_on}
use notes_md_app_be.Security.SecretBox.{
  version, colon, has_colon, with_colon, IsPart, Cipher, encrypt, decrypt_parts, decrypt,
}

later : (c : Char) (s : String) → (code c == colon) ≡ false → IsPart (String.◌∷◌ c s) → IsPart s
unfolding has_colon
later c s other h = subst (λ b. (if b then true else has_colon s) ≡ false) other h

-- The text in front of the first colon.
split-with_colon :
    (s t : String) → IsPart s → split_on colon (with_colon s t) ≡ s ∷ split_on colon t
unfolding split_on with_colon has_colon
split-with_colon String.[] t h = refl
split-with_colon (String.◌∷◌ c s) t h = elim (Bool-cases (code c == colon)) [
  | inl same ↦ ground (arith, h, same)
  | inr other ↦ rw (other, split-with_colon s t (later c s other h)) refl
]

split-part : (s : String) → IsPart s → split_on colon s ≡ s ∷ []
unfolding split_on has_colon
split-part String.[] h = refl
split-part (String.◌∷◌ c s) h = elim (Bool-cases (code c == colon)) [
  | inl same ↦ ground (arith, h, same)
  | inr other ↦ rw (other, split-part s (later c s other h)) refl
]

module _ {Iv Tag Bytes : Type 0} (c : Cipher Iv Tag Bytes) where
  split-encrypt :
      (iv : Iv) (text context : String)
      → split_on colon (encrypt c iv text context)
        ≡ version
          ∷ c.iv_text iv
          ∷ c.tag_text (c.seal iv text context).0
          ∷ c.bytes_text (c.seal iv text context).1
          ∷ []
  unfolding encrypt has_colon
  split-encrypt iv text context =
      let (tag, bytes) = c.seal iv text context in
      split-with_colon version _ refl
      ∙ ap (λ l. version ∷ l)
          (split-with_colon (c.iv_text iv) _ (c.iv_text-IsPart iv).0
            ∙ ap (λ l. c.iv_text iv ∷ l)
                (split-with_colon (c.tag_text tag) _ (c.tag_text-IsPart tag).0
                  ∙ ap (λ l. c.tag_text tag ∷ l)
                      (split-part (c.bytes_text bytes) (c.bytes_text-IsPart bytes))))

  -- A secret that was sealed for an owner opens for this owner as what it was, and for nobody else,
  -- for any text and any initialisation vector.
  pub decrypt-encrypt :
      (iv : Iv) (text context other : String)
      → decrypt c (encrypt c iv text context) other
        ≡ (if str_eq context other then some text else none)
  unfolding decrypt decrypt_parts
  decrypt-encrypt iv text context other =
      let (tag, bytes) = c.seal iv text context in
      ap (λ parts. decrypt_parts c parts other) (split-encrypt iv text context)
      ∙ rw
          (
            (c.iv_text-IsPart iv).1,
            (c.tag_text-IsPart tag).1,
            c.text_iv-iv_text iv,
            c.text_tag-tag_text tag,
            c.text_bytes-bytes_text bytes,
          )
          (c.unseal-seal iv text context other)
