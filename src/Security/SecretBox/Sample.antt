-- ===== src/Security/SecretBox/Sample.antt =====
-- A cipher for the tests, which hides nothing: the tag is the context, and colons are escaped.
use Prim.Native.String.{String}
use Prim.Native.Char.{code}
use text.Mathlib.TextEquality.{Char-path}
use notes_md_app_be.Prelude.{
  ◌≡◌, refl, sym, ap, subst, ◌∙◌, Bool, true, false, none, some, ◌==◌, ==_iff, if◌then◌else◌,
  str_eq, Bool-cases, inl, inr,
}
use notes_md_app_be.Security.SecretBox.{colon, has_colon, Cipher}

unfoldable pub escape : String → String
escape String.[] = ""
escape (String.◌∷◌ c s) =
    let rest = escape s in
    if code c == colon then String.◌∷◌ "a" rest else String.◌∷◌ "b" (String.◌∷◌ c rest)

-- The flag tells that the next character stands for itself.
unfoldable pub unescape : Bool → String → String
unescape b String.[] = ""
unescape true (String.◌∷◌ c s) = String.◌∷◌ c (unescape false s)
unescape false (String.◌∷◌ c s) =
    let colon_and = String.◌∷◌ ":" (unescape false s) in
    let next = unescape true s in if code c == 97 then colon_and else next

abbrev pub after_first : String → String
after_first String.[] = ""
after_first (String.◌∷◌ c s) = s

pub unescape-escape : (s : String) → unescape false (escape s) ≡ s
unfolding escape unescape
unescape-escape String.[] = refl
unescape-escape (String.◌∷◌ c s) = elim (Bool-cases (code c == colon)) [
  | inl same ↦ rw same (
      ap (String.◌∷◌ ":") (unescape-escape s)
      ∙ ap (λ x. String.◌∷◌ x s) (Char-path ":" c (sym ((==_iff (code c) colon).0 same))))
  | inr other ↦ rw other (ap (String.◌∷◌ c) (unescape-escape s))
]

pub has_colon-escape : (s : String) → has_colon (escape s) ≡ false
unfolding escape has_colon
has_colon-escape String.[] = refl
has_colon-escape (String.◌∷◌ c s) = elim (Bool-cases (code c == colon)) [
  | inl same ↦
      subst
        (λ b.
          has_colon
            (if b then String.◌∷◌ "a" (escape s) else String.◌∷◌ "b" (String.◌∷◌ c (escape s)))
          ≡ false)
        (sym same) (has_colon-escape s)
  | inr other ↦
      subst
        (λ b.
          has_colon
            (if b then String.◌∷◌ "a" (escape s) else String.◌∷◌ "b" (String.◌∷◌ c (escape s)))
          ≡ false)
        (sym other)
        (subst (λ b. (if b then true else has_colon (escape s)) ≡ false) (sym other)
          (has_colon-escape s))
]

unfoldable pub sample : Cipher String String String
unfolding has_colon
sample = record {
  seal = λ iv text context. (context, text);
  unseal = λ iv tag bytes other. if str_eq tag other then some bytes else none;
  iv_text = λ iv. String.◌∷◌ "i" (escape iv);
  tag_text = λ tag. String.◌∷◌ "t" (escape tag);
  bytes_text = escape;
  text_iv = λ s. unescape false (after_first s);
  text_tag = λ s. unescape false (after_first s);
  text_bytes = unescape false;
  text_iv-iv_text = unescape-escape;
  text_tag-tag_text = unescape-escape;
  text_bytes-bytes_text = unescape-escape;
  iv_text-IsPart = λ iv. (has_colon-escape iv, refl);
  tag_text-IsPart = λ tag. (has_colon-escape tag, refl);
  bytes_text-IsPart = has_colon-escape;
  unseal-seal = λ iv text context other. refl;
}
