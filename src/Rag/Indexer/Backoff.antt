-- ===== src/Rag/Indexer/Backoff.antt =====
-- How long a note that fails again and again has to wait.
use notes_md_app_be.Prelude.{
  ℕ, ◌+◌, ◌-◌, ◌*◌, ◌^◌, min, ◌≡◌, refl, String, none, some, List, [], ◌∷◌, ◌++◌, length,
  if◌then◌else◌, str_eq, eq_refl, arith, ◌∙◌,
}
use notes_md_app_be.Prelude.Map
use notes_md_app_be.Prelude.Map.{Map, get-set}
use notes_md_app_be.Rag.Indexer.{FailedNote, attempts_of, delay, mark_failed}

pub get-mark_failed :
    (m : Map FailedNote) (id : String) (now : ℕ) (k : String)
    → Map.get (mark_failed m id now) k ≡ (
        if str_eq id k
        then some (record {
          attempts = attempts_of (Map.get m id) + 1;
          retry_at = now + delay (attempts_of (Map.get m id) + 1);
        })
        else Map.get m k)
unfolding mark_failed
get-mark_failed m id now k = get-set m id _ k

-- The failures of a note at these times, the first one first.
unfoldable pub fail_at : Map FailedNote → String → List ℕ → Map FailedNote
fail_at m id [] = m
fail_at m id (t ∷ ts) = fail_at (mark_failed m id t) id ts

attempts-fail_at :
    (m : Map FailedNote) (id : String) (ts : List ℕ)
    → attempts_of (Map.get (fail_at m id ts) id) ≡ attempts_of (Map.get m id) + length ts
unfolding fail_at
attempts-fail_at m id [] = omega arith
attempts-fail_at m id (t ∷ ts) =
    attempts-fail_at (mark_failed m id t) id ts
    ∙ (rw (get-mark_failed m id t id, eq_refl id) (omega arith))

fail_at-append :
    (m : Map FailedNote) (id : String) (ts : List ℕ) (t : ℕ)
    → fail_at m id (ts ++ t ∷ []) ≡ mark_failed (fail_at m id ts) id t
unfolding fail_at
fail_at-append m id [] t = refl
fail_at-append m id (u ∷ ts) t = fail_at-append (mark_failed m id u) id ts t

pub zero_plus : (n : ℕ) → 0 + n ≡ n
zero_plus n = omega arith

plus_one : (n : ℕ) → n + 1 - 1 ≡ n
plus_one n = omega arith

delay-suc : (n : ℕ) → delay (n + 1) ≡ min (60000 * 2 ^ n) 3600000
unfolding delay
delay-suc n = rw (plus_one n) refl

-- After the failures at these times and one at `t`, a note that had none waits until `t` and a minute
-- doubled for each failure before, but never more than an hour.
pub get-fail_at :
    (m : Map FailedNote) (id : String) (ts : List ℕ) (t : ℕ)
    → Map.get m id ≡ none
    → Map.get (fail_at m id (ts ++ t ∷ [])) id
      ≡ some
          (record { attempts = length ts + 1; retry_at = t + min (60000 * 2 ^ length ts) 3600000 })
get-fail_at m id ts t e =
    rw
      (
        fail_at-append m id ts t,
        get-mark_failed (fail_at m id ts) id t id,
        eq_refl id,
        attempts-fail_at m id ts,
        e,
        zero_plus (length ts),
        delay-suc (length ts),
      )
      refl
