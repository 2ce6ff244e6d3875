-- ===== src/Core/Limiters/Counting.antt =====
-- How often a key is let through.
use notes_md_app_be.Prelude.{
  ℕ, ◌+◌, ◌-◌, min, String, ◌≡◌, ◌≢◌, refl, Bool, true, false, ◌&&◌, Option, none, some, List, [],
  ◌∷◌, leb, Bool-cases, inl, inr, if◌then◌else◌, str_eq, eq_iff, arith, ◌∙◌,
}
use notes_md_app_be.Prelude.Map
use notes_md_app_be.Prelude.Map.{Map, get-set}
use notes_md_app_be.Core.Limiters.{allow, allow_all, current}

abbrev pub is_key : String → Option String → Bool
is_key k none = false
is_key k (some key) = str_eq key k

-- The calls with a key, and those of them that were let through.
abbrev pub calls : String → List (Option String) → ℕ
calls k [] = 0
calls k (key ∷ keys) = (if is_key k key then 1 else 0) + calls k keys

abbrev pub granted : String → List (Option String) → List Bool → ℕ
granted k [] answers = 0
granted k (key ∷ keys) [] = 0
granted k (key ∷ keys) (a ∷ answers) = (if is_key k key && a then 1 else 0) + granted k keys answers

-- One call: the key's counter goes up when the call is let through, and only then.
allow-cases :
    (max : ℕ) (m : Map ℕ) (key : Option String) (k : String)
    → k ≢ ""
    → (current (allow max m key).0 k
        ≡ current m k + (if is_key k key && (allow max m key).1 then 1 else 0))
      × ((is_key k key && (allow max m key).1)
          ≡ (is_key k key && (if leb max (current m k) then false else true)))
unfolding allow
allow-cases max m none k h = (omega arith, refl)
allow-cases max m (some key) k h =
    ground (arith, eq_iff key "", eq_iff key k, get-set m key (current m key + 1) k)

granted-from :
    (max : ℕ) (m : Map ℕ) (keys : List (Option String)) (k : String)
    → k ≢ ""
    → granted k keys (allow_all max m keys) ≡ min (max - current m k) (calls k keys)
unfolding allow_all
granted-from max m [] k h = omega arith
granted-from max m (key ∷ keys) k h =
    let (c, g) = allow-cases max m key k h in
    ground (arith, c, g, granted-from max (allow max m key).0 keys k h)

minus_zero : (n : ℕ) → n - 0 ≡ n
minus_zero n = omega arith

allow-empty :
    (max : ℕ) (m : Map ℕ) (key : Option String) → (is_key "" key && (allow max m key).1) ≡ false
unfolding allow
allow-empty max m none = refl
allow-empty max m (some key) = ground arith

granted-empty :
    (max : ℕ) (m : Map ℕ) (keys : List (Option String)) → granted "" keys (allow_all max m keys) ≡ 0
unfolding allow_all
granted-empty max m [] = refl
granted-empty max m (key ∷ keys) =
    ground (arith, allow-empty max m key, granted-empty max (allow max m key).0 keys)

-- However calls with different keys are mixed, a key that is not empty is let through as often as it
-- asks, up to the limit, and the empty key never.
pub granted-allow_all :
    (max : ℕ) (keys : List (Option String)) (k : String)
    → granted k keys (allow_all max [] keys) ≡ (if str_eq k "" then 0 else min max (calls k keys))
unfolding Map.get
granted-allow_all max keys k = elim (Bool-cases (str_eq k "")) [
  | inl empty ↦ rw empty (rw ((eq_iff k "").0 empty) (granted-empty max [] keys))
  | inr other ↦
      let h : k ≢ "" = λ same. ground (arith, eq_iff k "", other, same) in
      rw other (granted-from max [] keys k h ∙ rw (minus_zero max) refl)
]
