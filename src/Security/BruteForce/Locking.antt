-- ===== src/Security/BruteForce/Locking.antt =====
-- A lock runs its whole time, failures under other keys do not touch it, and what a client is told.
use notes_md_app_be.Prelude.{
  ℕ, ◌+◌, ◌*◌, ◌≤◌, String, ◌≡◌, ◌≢◌, inl, inr, none, some, arith, eq_iff, Option-cases, ltb, List,
  [], ◌∷◌, true, false, All, ◌↔◌, ◌∙◌,
}
use notes_md_app_be.Prelude.Map
use notes_md_app_be.Prelude.Map.{Map}
use notes_md_app_be.Security.BruteForce.{
  BruteForceEntry, BruteForceService, Readings, pass, too_many_requests, locked, expired, is_locked,
  sweep_expired, record_failure, record_failure_many, retry_after_seconds, first_locked,
  can_activate,
}
use notes_md_app_be.Security.BruteForce.Invariant.{
  IsValid, touched, left, get-sweep_expired, get-record_failure, record_failure-IsUnique,
}

-- What is locked at `t` is not dropped by a sweep before, and what is not locked is not made so.
is_locked-sweep_expired :
    (s : BruteForceService) (now : ℕ) (key : String) (t : ℕ)
    → now ≤ t
    → Map.IsUnique s.attempts_store
    → is_locked (sweep_expired s now) key t ≡ is_locked s key t
unfolding is_locked expired
is_locked-sweep_expired s now key t le u = ground (arith, get-sweep_expired s now key u)

is_locked-record_failure_kept :
    (s : BruteForceService) (key : String) (c : Readings) (j : String) (t : ℕ)
    → key ≢ j
    → is_locked (record_failure s key c) j t ≡ is_locked (sweep_expired s c.sweep_now) j t
unfolding is_locked
is_locked-record_failure_kept s key c j t ne =
    ground (arith, get-record_failure s key c j, eq_iff key j)

-- A failure under one key neither locks nor unlocks another key.
pub is_locked-record_failure_ne :
    (s : BruteForceService) (key : String) (c : Readings) (j : String) (t : ℕ)
    → Map.IsUnique s.attempts_store
    → key ≢ j
    → c.sweep_now ≤ t
    → is_locked (record_failure s key c) j t ≡ is_locked s j t
is_locked-record_failure_ne s key c j t u ne le =
    is_locked-record_failure_kept s key c j t ne ∙ is_locked-sweep_expired s c.sweep_now j t le u

-- The entry of a locked key comes through a failure unchanged.
get-record_failure-locked :
    (s : BruteForceService) (key : String) (c : Readings) (j : String) (e : BruteForceEntry) (t : ℕ)
    → Map.IsUnique s.attempts_store
    → Map.get s.attempts_store j ≡ some e
    → locked e t ≡ true
    → c.sweep_now ≤ t
    → c.entry_now ≤ t
    → c.check_now ≤ t
    → Map.get (record_failure s key c).attempts_store j ≡ some e
unfolding touched left locked expired
get-record_failure-locked s key c j e t u found lk p q r = ground (
  arith,
  get-record_failure s key c j,
  eq_iff key j,
  get-sweep_expired s c.sweep_now key u,
  get-sweep_expired s c.sweep_now j u,
)

-- The store is read up to `t` in this operation.
abbrev pub ReadsBefore : ℕ → String × Readings → Type 0
ReadsBefore t (key, c) = (c.sweep_now ≤ t) × (c.entry_now ≤ t) × (c.check_now ≤ t)

get-record_failure_many-locked :
    (s : BruteForceService) (keys : List (String × Readings)) (j : String) (e : BruteForceEntry)
    (t : ℕ)
    → Map.IsUnique s.attempts_store
    → Map.get s.attempts_store j ≡ some e
    → locked e t ≡ true
    → All (ReadsBefore t) keys
    → Map.get (record_failure_many s keys).attempts_store j ≡ some e
unfolding record_failure_many
get-record_failure_many-locked s [] j e t u found lk h = found
get-record_failure_many-locked s ((key, c) ∷ keys) j e t u found lk ((p, q, r), h) =
    get-record_failure_many-locked (record_failure s key c) keys j e t
      (record_failure-IsUnique s key c u) (get-record_failure-locked s key c j e t u found lk p q r)
      lk h

is_locked-ne_none :
    (s : BruteForceService) (j : String) (t : ℕ)
    → Map.get s.attempts_store j ≡ none
    → is_locked s j t ≢ true
unfolding is_locked
is_locked-ne_none s j t e h = ground arith

-- A key that is still locked at `t` is locked at `t` after any failures read up to `t`, and the end
-- of its lock has not moved: the seconds left to wait are the same.
pub record_failure_many-keeps_lock :
    (s : BruteForceService) (keys : List (String × Readings)) (j : String) (t : ℕ)
    → Map.IsUnique s.attempts_store
    → is_locked s j t ≡ true
    → All (ReadsBefore t) keys
    → (is_locked (record_failure_many s keys) j t ≡ true)
      × ((now : ℕ)
          → retry_after_seconds (record_failure_many s keys) j now ≡ retry_after_seconds s j now)
unfolding is_locked retry_after_seconds
record_failure_many-keeps_lock s keys j t u lk h =
    elim (Option-cases (Map.get s.attempts_store j)) [
      | inl missing ↦ absurd (is_locked-ne_none s j t missing lk)
      | inr (e, found) ↦
          let same =
            get-record_failure_many-locked s keys j e t u found (ground (arith, found)) h in
          (ground (arith, same), λ now. ground (arith, same))
    ]

-- A client waits exactly while its key is locked: the seconds are 0 just when it is not.
pub is_locked-eq-retry :
    (s : BruteForceService) (key : String) (now : ℕ)
    → is_locked s key now ≡ ltb 0 (retry_after_seconds s key now)
unfolding is_locked retry_after_seconds
is_locked-eq-retry s key now = ground arith

-- After waiting as long as it is told, the key is not locked.
pub is_locked-after_retry :
    (s : BruteForceService) (key : String) (now : ℕ)
    → is_locked s key (now + 1000 * retry_after_seconds s key now) ≡ false
unfolding is_locked retry_after_seconds
is_locked-after_retry s key now = ground arith

-- In a well-formed store nobody is told to wait more than two minutes.
pub retry_after_seconds-le :
    (since now : ℕ) (s : BruteForceService) (key : String)
    → IsValid since s
    → since ≤ now
    → retry_after_seconds s key now ≤ 120
unfolding retry_after_seconds
retry_after_seconds-le since now s key v le = elim (Option-cases (Map.get s.attempts_store key)) [
  | inl missing ↦ rw (missing, retry_after_seconds) (omega arith)
  | inr (e, found) ↦ rw (found, retry_after_seconds) (ground (arith, v.entries key e found))
]

first_locked-eq-none :
    (s : BruteForceService) (keys : List String) (now : ℕ)
    → (first_locked s keys now ≡ none) ↔ All (λ key. is_locked s key now ≡ false) keys
unfolding first_locked
first_locked-eq-none s [] now = ground arith
first_locked-eq-none s (key ∷ keys) now = ground (arith, first_locked-eq-none s keys now)

first_locked-is_locked :
    (s : BruteForceService) (keys : List String) (now : ℕ) (key : String)
    → first_locked s keys now ≡ some key
    → is_locked s key now ≡ true
unfolding first_locked
first_locked-is_locked s [] now key e = cc
first_locked-is_locked s (k ∷ keys) now key e =
    ground (arith, first_locked-is_locked s keys now key)

-- The guard lets a request pass exactly when none of its keys is locked.
pub can_activate-eq-pass :
    (s : BruteForceService) (keys : List String) (now later : ℕ)
    → (can_activate s keys now later ≡ pass) ↔ All (λ key. is_locked s key now ≡ false) keys
unfolding can_activate
can_activate-eq-pass s keys now later = ground (arith, first_locked-eq-none s keys now)

-- A refused request is told to wait a whole number of seconds, at least 1 and at most 120, if the
-- clock reads the same for the lock and for the header.
pub can_activate-retry :
    (since now : ℕ) (s : BruteForceService) (keys : List String) (n : ℕ)
    → IsValid since s
    → since ≤ now
    → can_activate s keys now now ≡ too_many_requests n
    → (1 ≤ n) × (n ≤ 120)
unfolding can_activate
can_activate-retry since now s keys n v le e = elim (Option-cases (first_locked s keys now)) [
  | inl missing ↦ cc
  | inr (key, found) ↦ ground (
    arith,
    first_locked-is_locked s keys now key found,
    is_locked-eq-retry s key now,
    retry_after_seconds-le since now s key v le,
  )
]
