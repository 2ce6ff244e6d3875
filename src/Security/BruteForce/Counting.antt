-- ===== src/Security/BruteForce/Counting.antt =====
-- How many failures lock a key.
use notes_md_app_be.Prelude.{
  ℕ, ◌+◌, ◌≤◌, ◌<◌, min, String, ◌≡◌, Bool-cases, inl, inr, Option, none, some, arith, eq_iff,
  str_eq, if◌then◌else◌, leb, refl, List, [], ◌∷◌, false, All, count_if, eq_refl, subst, sym,
}
use native.Mathlib.Nat.{zero-add, add-zero, add_assoc}
use notes_md_app_be.Prelude.Map
use notes_md_app_be.Prelude.Map.{Map}
use notes_md_app_be.Security.BruteForce.{
  BruteForceEntry, BruteForceService, Readings, locked, expired, is_locked, sweep_expired,
  count_attempt, window_ms, lock_ms, max_attempts, record_failure, record_failure_many,
}
use notes_md_app_be.Security.BruteForce.Invariant.{
  touched, left, get-sweep_expired, get-record_failure, record_failure-IsUnique,
}

-- Every reading lies in one window from `t` on.
abbrev pub InWindow : ℕ → String × Readings → Type 0
InWindow t (key, c) =
    (t ≤ c.entry_now)
    × (c.sweep_now ≤ t + window_ms)
    × (c.entry_now ≤ t + window_ms)
    × (c.check_now ≤ t + window_ms)
    × (t ≤ c.lock_now)

abbrev LockCounts : ℕ → ℕ → Option ℕ → Type 0
LockCounts t n none = n < max_attempts
LockCounts t n (some u) = (max_attempts ≤ n) × (t + lock_ms ≤ u)

-- The entry after `n` failures in the window from `t`.
abbrev Counts : ℕ → ℕ → Option BruteForceEntry → Type 0
Counts t n none = n ≡ 0
Counts t n (some e) =
    (0 < n)
    × (t ≤ e.first_attempt_time)
    × (e.attempts ≡ min n max_attempts)
    × LockCounts t n e.locked_until

Counts-left :
    (t n : ℕ) (key : String) (o : Option BruteForceEntry) (c : Readings)
    → InWindow t (key, c)
    → Counts t n o
    → Counts t (n + 1) (some (left (touched o c.entry_now) c))
unfolding left touched count_attempt expired
Counts-left t n key o c w h = ground arith

Counts-sweep :
    (t n : ℕ) (s : BruteForceService) (now : ℕ) (key : String)
    → now ≤ t + window_ms
    → Map.IsUnique s.attempts_store
    → Counts t n (Map.get s.attempts_store key)
    → Counts t n (Map.get (sweep_expired s now).attempts_store key)
unfolding expired
Counts-sweep t n s now key le u h = ground (arith, get-sweep_expired s now key u)

abbrev pub hits : String → List (String × Readings) → ℕ
hits key = count_if (λ k. str_eq k.0 key)

Counts-record_failure_self :
    (t n : ℕ) (s : BruteForceService) (key : String) (c : Readings)
    → Map.IsUnique s.attempts_store
    → InWindow t (key, c)
    → Counts t n (Map.get s.attempts_store key)
    → Counts t (n + 1) (Map.get (record_failure s key c).attempts_store key)
Counts-record_failure_self t n s key c u w h =
    rw (get-record_failure s key c key, eq_refl)
      (Counts-left t n key (Map.get (sweep_expired s c.sweep_now).attempts_store key) c w
        (Counts-sweep t n s c.sweep_now key w.1 u h))

Counts-record_failure_ne :
    (t n : ℕ) (s : BruteForceService) (key : String) (c : Readings) (j : String)
    → Map.IsUnique s.attempts_store
    → InWindow t (key, c)
    → str_eq key j ≡ false
    → Counts t n (Map.get s.attempts_store j)
    → Counts t n (Map.get (record_failure s key c).attempts_store j)
Counts-record_failure_ne t n s key c j u w ne h =
    rw (get-record_failure s key c j, ne) (Counts-sweep t n s c.sweep_now j w.1 u h)

abbrev hit : String → String → ℕ
hit key j = if str_eq key j then 1 else 0

Counts-record_failure :
    (t n : ℕ) (s : BruteForceService) (key : String) (c : Readings) (j : String)
    → Map.IsUnique s.attempts_store
    → InWindow t (key, c)
    → Counts t n (Map.get s.attempts_store j)
    → Counts t (n + hit key j) (Map.get (record_failure s key c).attempts_store j)
Counts-record_failure t n s key c j u w h = elim (Bool-cases (str_eq key j)) [
  | inl same ↦ rw same (
      subst (λ k. Counts t (n + 1) (Map.get (record_failure s key c).attempts_store k))
        ((eq_iff key j).0 same)
        (Counts-record_failure_self t n s key c u w
          (subst (λ k. Counts t n (Map.get s.attempts_store k)) (sym ((eq_iff key j).0 same)) h)))
  | inr other ↦ rw (other, add-zero) (Counts-record_failure_ne t n s key c j u w other h)
]

Counts-record_failure_many :
    (t n : ℕ) (s : BruteForceService) (keys : List (String × Readings)) (j : String)
    → Map.IsUnique s.attempts_store
    → All (InWindow t) keys
    → Counts t n (Map.get s.attempts_store j)
    → Counts t (n + hits j keys) (Map.get (record_failure_many s keys).attempts_store j)
unfolding record_failure_many
Counts-record_failure_many t n s [] j u w h = rw add-zero h
Counts-record_failure_many t n s ((key, c) ∷ keys) j u (w, ws) h =
    rw (← add_assoc n (hit key j) (hits j keys)) (
      Counts-record_failure_many t (n + hit key j) (record_failure s key c) keys j
        (record_failure-IsUnique s key c u) ws (Counts-record_failure t n s key c j u w h))

-- The attempts on record for a key.
abbrev pub attempts_of : BruteForceService → String → ℕ
attempts_of s key = elim (Map.get s.attempts_store key) [ none ↦ 0 | some e ↦ e.attempts ]

read-Counts :
    (t n : ℕ) (o : Option BruteForceEntry)
    → Counts t n o
    → (elim o [ none ↦ 0 | some e ↦ e.attempts ] ≡ min n max_attempts)
      × ((now : ℕ)
          → now < t + lock_ms
          → elim o [ none ↦ false | some e ↦ locked e now ] ≡ leb max_attempts n)
unfolding locked
read-Counts t n none h = (omega arith, λ now le. ground arith)
read-Counts t n (some e) h = (h.2, λ now le. ground arith)

-- From a state without the key, the failures recorded in one window, those of any other keys among
-- them, are counted up to `max_attempts`, and lock the key exactly when it failed `max_attempts`
-- times or more: then until `lock_ms` after the window began at least.
pub record_failure_many-counts :
    (t : ℕ) (s : BruteForceService) (keys : List (String × Readings)) (j : String)
    → Map.IsUnique s.attempts_store
    → Map.get s.attempts_store j ≡ none
    → All (InWindow t) keys
    → (attempts_of (record_failure_many s keys) j ≡ min (hits j keys) max_attempts)
      × ((now : ℕ)
          → now < t + lock_ms
          → is_locked (record_failure_many s keys) j now ≡ leb max_attempts (hits j keys))
unfolding is_locked
record_failure_many-counts t s keys j u absent w =
    let counted : Counts t (0 + hits j keys)
        (Map.get (record_failure_many s keys).attempts_store j) =
      Counts-record_failure_many t 0 s keys j u w (rw absent refl) in
    read-Counts t (hits j keys) (Map.get (record_failure_many s keys).attempts_store j)
      (rw zero-add at counted)
