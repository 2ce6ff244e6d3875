-- ===== src/Prelude/Map.antt =====
-- A JavaScript `Map` with string keys: its entries in insertion order. `set` writes an existing
-- key in place, and puts a new key at the end.
use mathlib.Core.Path.{◌≡◌, refl}
use mathlib.Core.Logic.{inl, inr}
use mathlib.Core.Bool.{Bool}
use mathlib.Core.List.{List, [], ◌∷◌}
use mathlib.Core.Option.{Option, none, some}
use native.Mathlib.Omega.{arith}
use Prim.Native.String.{String}
use text.Mathlib.Text.{◌==◌ as str_eq}
use text.Mathlib.TextEquality.{eq_iff}
use notes_md_app_be.Prelude.Tests.{if◌then◌else◌, Bool-cases}

abbrev pub Map {ℓ} : Type ℓ → Type ℓ
Map V = List (String × V)

module _ {ℓ} {V : Type ℓ} where
  unfoldable pub get : Map V → String → Option V
  get [] k = none
  get ((j, v) ∷ m) k = if str_eq j k then some v else get m k

  unfoldable pub set : Map V → String → V → Map V
  set [] k v = (k, v) ∷ []
  set ((j, w) ∷ m) k v = if str_eq j k then (j, v) ∷ m else (j, w) ∷ set m k v

  unfoldable pub delete : Map V → String → Map V
  delete [] k = []
  delete ((j, v) ∷ m) k = let rest = delete m k in if str_eq j k then rest else (j, v) ∷ rest

  -- Keeps the entries that pass a test, like a loop that deletes the others.
  unfoldable pub retain : (V → Bool) → Map V → Map V
  retain p [] = []
  retain p ((j, v) ∷ m) = let rest = retain p m in if p v then (j, v) ∷ rest else rest

  pub get-set :
      (m : Map V) (k : String) (v : V) (j : String)
      → get (set m k v) j ≡ (if str_eq k j then some v else get m j)
  unfolding get set
  get-set [] k v j = refl
  get-set ((i, w) ∷ m) k v j = ground (arith, eq_iff k j, eq_iff i k, eq_iff i j, get-set m k v j)

  pub get-delete :
      (m : Map V) (k j : String) → get (delete m k) j ≡ (if str_eq k j then none else get m j)
  unfolding get delete
  get-delete [] k j = ground arith
  get-delete ((i, w) ∷ m) k j = ground (arith, eq_iff k j, eq_iff i k, eq_iff i j, get-delete m k j)

  -- No key stands twice. Every operation keeps it.
  abbrev pub IsUnique : Map V → Type ℓ
  IsUnique [] = Unit
  IsUnique ((k, v) ∷ m) = (get m k ≡ none) × IsUnique m

  abbrev pub only_if : (V → Bool) → Option V → Option V
  only_if p none = none
  only_if p (some v) = if p v then some v else none

  pub set-IsUnique : (m : Map V) (k : String) (v : V) → IsUnique m → IsUnique (set m k v)
  unfolding set get
  set-IsUnique [] k v u = (refl, tt)
  set-IsUnique ((i, w) ∷ m) k v (fresh, u) = elim (Bool-cases (str_eq i k)) [
    | inl same ↦ rw same (fresh, u)
    | inr other ↦
        rw other (ground (arith, get-set m k v i, eq_iff k i, eq_iff i k), set-IsUnique m k v u)
  ]

  pub get-delete-none : (m : Map V) (k j : String) → get m j ≡ none → get (delete m k) j ≡ none
  get-delete-none m k j e = ground (arith, get-delete m k j)

  pub delete-IsUnique : (m : Map V) (k : String) → IsUnique m → IsUnique (delete m k)
  unfolding delete
  delete-IsUnique [] k u = tt
  delete-IsUnique ((i, w) ∷ m) k (fresh, u) = elim (Bool-cases (str_eq i k)) [
    | inl same ↦ rw same (delete-IsUnique m k u)
    | inr other ↦ rw other (get-delete-none m k i fresh, delete-IsUnique m k u)
  ]

  pub get-retain-none :
      (p : V → Bool) (m : Map V) (j : String) → get m j ≡ none → get (retain p m) j ≡ none
  unfolding retain get
  get-retain-none p [] j e = refl
  get-retain-none p ((i, w) ∷ m) j e = ground (arith, get-retain-none p m j)

  pub get-retain :
      (p : V → Bool) (m : Map V) (j : String)
      → IsUnique m
      → get (retain p m) j ≡ only_if p (get m j)
  unfolding retain get
  get-retain p [] j u = refl
  get-retain p ((i, w) ∷ m) j (fresh, u) =
      ground (arith, eq_iff i j, get-retain p m j u, get-retain-none p m i fresh)

  pub retain-IsUnique : (p : V → Bool) (m : Map V) → IsUnique m → IsUnique (retain p m)
  unfolding retain
  retain-IsUnique p [] u = tt
  retain-IsUnique p ((i, w) ∷ m) (fresh, u) = elim (Bool-cases (p w)) [
    | inl kept ↦ rw kept (get-retain-none p m i fresh, retain-IsUnique p m u)
    | inr gone ↦ rw gone (retain-IsUnique p m u)
  ]
