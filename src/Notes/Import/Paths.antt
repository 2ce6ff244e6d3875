-- ===== src/Notes/Import/Paths.antt =====
-- modules/notes/import/importPath.ts. `nfc` stands for the Unicode normalization of the runtime.
pub mod Safety
use notes_md_app_be.Prelude.{
  ℕ, ◌+◌, Bool, true, false, not, ◌&&◌, ◌||◌, List, [], ◌∷◌, ◌++◌, leb, ◌==◌, if◌then◌else◌,
}
use notes_md_app_be.Text.{Text, is_nonempty, trim, any}

abbrev pub slash : ℕ
slash = 47

abbrev pub backslash : ℕ
backslash = 92

abbrev pub dot : ℕ
dot = 46

pub data NormalizedImportPath : Type 0 where
  accepted : List Text → NormalizedImportPath
  invalid_path hidden : NormalizedImportPath

abbrev pub is_control : ℕ → Bool
is_control c = leb c 31 || c == 127

abbrev pub is_letter : ℕ → Bool
is_letter c = (leb 65 c && leb c 90) || (leb 97 c && leb c 122)

abbrev pub has_drive : Text → Bool
has_drive [] = false
has_drive (a ∷ []) = false
has_drive (a ∷ b ∷ []) = false
has_drive (a ∷ b ∷ c ∷ cs) = is_letter a && (b == 58 && c == slash)

abbrev pub starts_with : ℕ → Text → Bool
starts_with c [] = false
starts_with c (d ∷ ds) = d == c

-- `replace(/\\/g, '/')`
unfoldable pub slashes : Text → Text
slashes [] = []
slashes (c ∷ cs) = (if c == backslash then slash else c) ∷ slashes cs

unfoldable pub cons_first : ℕ → List Text → List Text
cons_first c [] = (c ∷ []) ∷ []
cons_first c (s ∷ ss) = (c ∷ s) ∷ ss

-- `split('/')`
unfoldable pub split : Text → List Text
split [] = [] ∷ []
split (c ∷ cs) = let rest = split cs in if c == slash then [] ∷ rest else cons_first c rest

abbrev pub is_dots : Text → Bool
is_dots [] = false
is_dots (a ∷ []) = a == dot
is_dots (a ∷ b ∷ []) = a == dot && b == dot
is_dots (a ∷ b ∷ c ∷ cs) = false

abbrev pub is_bad : Text → Bool
is_bad segment = not (is_nonempty (trim segment)) || is_dots segment

-- `segments.some(...)`
unfoldable pub some_segment : (Text → Bool) → List Text → Bool
some_segment p [] = false
some_segment p (s ∷ ss) = p s || some_segment p ss

unfoldable pub check_segments : List Text → NormalizedImportPath
check_segments segments =
    if some_segment is_bad segments
    then invalid_path
    else if some_segment (starts_with dot) segments
    then hidden
    else accepted segments

unfoldable pub check_path : Text → NormalizedImportPath
check_path normalized =
    if not (is_nonempty normalized)
      || (starts_with slash normalized || (has_drive normalized || any is_control normalized))
    then invalid_path
    else check_segments (split normalized)

unfoldable pub normalize_import_path : (Text → Text) → Text → NormalizedImportPath
normalize_import_path nfc path = check_path (slashes (nfc path))

-- `IMPORTABLE_EXTENSION` on a path: `.md`, `.markdown` or `.txt` at its end, in any case.
abbrev pub lower : ℕ → ℕ
lower c = if leb 65 c && leb c 90 then c + 32 else c

unfoldable pub is_extension : Text → Text → Bool
is_extension [] [] = true
is_extension [] (d ∷ ds) = false
is_extension (c ∷ cs) [] = false
is_extension (c ∷ cs) (d ∷ ds) = lower c == d && is_extension cs ds

abbrev pub extensions : List Text
extensions =
    (46 ∷ 109 ∷ 100 ∷ [])
    ∷ (46 ∷ 109 ∷ 97 ∷ 114 ∷ 107 ∷ 100 ∷ 111 ∷ 119 ∷ 110 ∷ [])
    ∷ (46 ∷ 116 ∷ 120 ∷ 116 ∷ [])
    ∷ []

unfoldable pub is_importable_path : Text → Bool
is_importable_path [] = false
is_importable_path (c ∷ cs) =
    some_segment (is_extension (c ∷ cs)) extensions || is_importable_path cs
