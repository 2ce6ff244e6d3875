-- ===== src/Security/BruteForce/Invariant.antt =====
-- What holds of the store at any time, under a clock that does not go back.
use notes_md_app_be.Prelude.{
  ℕ, ◌+◌, ◌≤◌, ◌<◌, String, ◌≡◌, Bool-cases, inl, inr, Option, none, some, arith, str_eq,
  if◌then◌else◌, not, ltb, ◌-◌, refl, List, [], ◌∷◌,
}
use notes_md_app_be.Prelude.Map
use notes_md_app_be.Prelude.Map.{Map}
use notes_md_app_be.Security.BruteForce.{
  BruteForceEntry, BruteForceService, Readings, window_ms, max_attempts, lock_ms, init, fresh,
  locked, expired, get_or_create_entry, sweep_expired, count_attempt, record_failure,
  record_failure_many, reset,
}

-- The readings of one operation, none before `since`.
pub record Follows (since : ℕ) (c : Readings) : Type 0 where
  pub started : since ≤ c.sweep_now
  pub swept : c.sweep_now ≤ c.entry_now
  pub entered : c.entry_now ≤ c.check_now
  pub checked : c.check_now ≤ c.lock_now

-- Few attempts and no lock, or a lock that began after the window's first attempt.
abbrev pub LockIsValid : ℕ → BruteForceEntry → Option ℕ → Type 0
LockIsValid now e none = e.attempts < max_attempts
LockIsValid now e (some u) =
    (max_attempts ≤ e.attempts) × (e.first_attempt_time + lock_ms ≤ u) × (u ≤ now + lock_ms)

pub record EntryIsValid (now : ℕ) (e : BruteForceEntry) : Type 0 where
  pub past : e.first_attempt_time ≤ now
  pub lock : LockIsValid now e e.locked_until

pub record IsValid (now : ℕ) (s : BruteForceService) : Type 0 where
  pub unique : Map.IsUnique s.attempts_store
  pub swept : s.last_sweep ≤ now
  pub entries :
      (key : String) (e : BruteForceEntry)
      → Map.get s.attempts_store key ≡ some e
      → EntryIsValid now e

pub EntryIsValid-later :
    (now later : ℕ) (e : BruteForceEntry) → now ≤ later → EntryIsValid now e → EntryIsValid later e
EntryIsValid-later now later e le v = ground arith

count_attempt-EntryIsValid :
    (since now : ℕ) (e : BruteForceEntry)
    → since ≤ now
    → EntryIsValid since e
    → EntryIsValid now (count_attempt e now)
unfolding count_attempt
count_attempt-EntryIsValid since now e le v = ground arith

-- The entry that the operation works on, and the one that it leaves.
unfoldable pub touched : Option BruteForceEntry → ℕ → BruteForceEntry
touched none now = fresh now
touched (some e) now = if expired e now then fresh now else e

unfoldable pub left : BruteForceEntry → Readings → BruteForceEntry
left e c = if locked e c.check_now then e else count_attempt e c.lock_now

pub get-sweep_expired :
    (s : BruteForceService) (now : ℕ) (key : String)
    → Map.IsUnique s.attempts_store
    → Map.get (sweep_expired s now).attempts_store key ≡ (
        if ltb (now - s.last_sweep) window_ms
        then Map.get s.attempts_store key
        else Map.only_if (λ e. not (expired e now)) (Map.get s.attempts_store key))
unfolding sweep_expired
get-sweep_expired s now key u = elim (Bool-cases (ltb (now - s.last_sweep) window_ms)) [
  | inl early ↦ rw early refl
  | inr due ↦ rw due (Map.get-retain (λ e. not (expired e now)) s.attempts_store key u)
]

pub get_or_create_entry_lem :
    (store : Map BruteForceEntry) (key : String) (now : ℕ)
    → get_or_create_entry store key now
      ≡ (Map.set store key (touched (Map.get store key) now), touched (Map.get store key) now)
unfolding get_or_create_entry touched
get_or_create_entry_lem store key now = ground arith

-- What one failure does to the entry under each key.
pub get-record_failure :
    (s : BruteForceService) (key : String) (c : Readings) (j : String)
    → Map.get (record_failure s key c).attempts_store j ≡ (
        if str_eq key j
        then some (
            left (touched (Map.get (sweep_expired s c.sweep_now).attempts_store key) c.entry_now) c)
        else Map.get (sweep_expired s c.sweep_now).attempts_store j)
unfolding record_failure left
get-record_failure s key c j =
    let store : Map BruteForceEntry = (sweep_expired s c.sweep_now).attempts_store in
    let e : BruteForceEntry = touched (Map.get store key) c.entry_now in
    rw (get_or_create_entry_lem store key c.entry_now) (elim (Bool-cases (locked e c.check_now)) [
      | inl still ↦ rw still (Map.get-set store key e j)
      | inr open_ ↦ rw open_ (
          ground (
            arith,
            Map.get-set store key e j,
            Map.get-set (Map.set store key e) key (count_attempt e c.lock_now) j,
          ))
    ])

left-EntryIsValid :
    (since : ℕ) (e : BruteForceEntry) (c : Readings)
    → since ≤ c.lock_now
    → EntryIsValid since e
    → EntryIsValid c.lock_now (left e c)
unfolding left
left-EntryIsValid since e c le v =
    ground
      (arith, count_attempt-EntryIsValid since c.lock_now e, EntryIsValid-later since c.lock_now e)

touched-EntryIsValid :
    (since now : ℕ) (o : Option BruteForceEntry)
    → since ≤ now
    → ((e : BruteForceEntry) → o ≡ some e → EntryIsValid since e)
    → EntryIsValid now (touched o now)
unfolding touched
touched-EntryIsValid since now none le v = ground arith
touched-EntryIsValid since now (some e) le v =
    ground (arith, v e refl, EntryIsValid-later since now e)

left-touched-EntryIsValid :
    (since : ℕ) (o : Option BruteForceEntry) (c : Readings)
    → since ≤ c.entry_now
    → c.entry_now ≤ c.check_now
    → c.check_now ≤ c.lock_now
    → ((e : BruteForceEntry) → o ≡ some e → EntryIsValid since e)
    → EntryIsValid c.lock_now (left (touched o c.entry_now) c)
left-touched-EntryIsValid since o c a b d v =
    left-EntryIsValid c.entry_now (touched o c.entry_now) c (omega arith)
      (touched-EntryIsValid since c.entry_now o a v)

sweep_expired-IsUnique :
    (s : BruteForceService) (now : ℕ)
    → Map.IsUnique s.attempts_store
    → Map.IsUnique (sweep_expired s now).attempts_store
unfolding sweep_expired
sweep_expired-IsUnique s now u = elim (Bool-cases (ltb (now - s.last_sweep) window_ms)) [
  | inl early ↦ rw early u
  | inr due ↦ rw due (Map.retain-IsUnique (λ e. not (expired e now)) s.attempts_store u)
]

sweep_expired-le :
    (s : BruteForceService) (now : ℕ) → s.last_sweep ≤ now → (sweep_expired s now).last_sweep ≤ now
unfolding sweep_expired
sweep_expired-le s now le = ground arith

pub record_failure-IsUnique :
    (s : BruteForceService) (key : String) (c : Readings)
    → Map.IsUnique s.attempts_store
    → Map.IsUnique (record_failure s key c).attempts_store
unfolding record_failure
record_failure-IsUnique s key c u =
    let swept : BruteForceService = sweep_expired s c.sweep_now in
    let e : BruteForceEntry = touched (Map.get swept.attempts_store key) c.entry_now in
    let made : Map.IsUnique (Map.set swept.attempts_store key e) =
      Map.set-IsUnique swept.attempts_store key e (sweep_expired-IsUnique s c.sweep_now u) in
    rw (get_or_create_entry_lem swept.attempts_store key c.entry_now)
      (elim (Bool-cases (locked e c.check_now)) [
        | inl still ↦ rw still made
        | inr open_ ↦ rw open_ (Map.set-IsUnique _ key (count_attempt e c.lock_now) made)
      ])

last_sweep-record_failure :
    (s : BruteForceService) (key : String) (c : Readings)
    → (record_failure s key c).last_sweep ≡ (sweep_expired s c.sweep_now).last_sweep
unfolding record_failure
last_sweep-record_failure s key c = ground arith

sweep_expired-IsValid :
    (since : ℕ) (s : BruteForceService) (now : ℕ)
    → since ≤ now
    → IsValid since s
    → IsValid now (sweep_expired s now)
sweep_expired-IsValid since s now le v = record {
  unique = sweep_expired-IsUnique s now v.unique;
  swept = sweep_expired-le s now (omega arith);
  entries = λ key e found. ground (
    arith,
    get-sweep_expired s now key v.unique,
    v.entries key e,
    EntryIsValid-later since now e le,
  );
}

-- A failed attempt keeps the store well formed, at whatever later times its clock is read.
pub record_failure-IsValid :
    (since : ℕ) (s : BruteForceService) (key : String) (c : Readings)
    → IsValid since s
    → Follows since c
    → IsValid c.lock_now (record_failure s key c)
record_failure-IsValid since s key c v w =
    let swept : BruteForceService = sweep_expired s c.sweep_now in
    let ok : IsValid c.sweep_now swept = sweep_expired-IsValid since s c.sweep_now w.started v in
    record {
      unique = record_failure-IsUnique s key c v.unique;
      swept = rw (last_sweep-record_failure s key c) (omega (arith, ok.swept));
      entries = λ j e found. ground (
        arith,
        get-record_failure s key c j,
        EntryIsValid-later c.sweep_now c.lock_now e,
        ok.entries j e,
        left-touched-EntryIsValid c.sweep_now (Map.get swept.attempts_store key) c w.swept w.entered
            w.checked (ok.entries key),
      );
    }

-- So does a reset.
pub reset-IsValid :
    (now : ℕ) (s : BruteForceService) (key : String) → IsValid now s → IsValid now (reset s key)
unfolding reset
reset-IsValid now s key v = record {
  unique = Map.delete-IsUnique s.attempts_store key v.unique;
  swept = v.swept;
  entries = λ j e found. ground (arith, Map.get-delete s.attempts_store key j, v.entries j e);
}

-- The service starts well formed.
pub init-IsValid : (now : ℕ) → IsValid now (init now)
unfolding Map.get
init-IsValid now = record { unique = tt; swept = omega arith; entries = λ j e found. cc }

-- Each failure is recorded after the one before it.
abbrev pub AllFollow : ℕ → List (String × Readings) → Type 0
AllFollow since [] = Unit
AllFollow since ((key, c) ∷ keys) = Follows since c × AllFollow c.lock_now keys

abbrev pub end_of : ℕ → List (String × Readings) → ℕ
end_of since [] = since
end_of since ((key, c) ∷ keys) = end_of c.lock_now keys

-- Any failures, recorded one after the other by a clock that does not go back, keep the store well
-- formed: no key twice, below `max_attempts` attempts on a key with no lock, `max_attempts` or more
-- on one with a lock, and no lock further off than `lock_ms`.
pub record_failure_many-IsValid :
    (since : ℕ) (s : BruteForceService) (keys : List (String × Readings))
    → IsValid since s
    → AllFollow since keys
    → IsValid (end_of since keys) (record_failure_many s keys)
unfolding record_failure_many
record_failure_many-IsValid since s [] v w = v
record_failure_many-IsValid since s ((key, c) ∷ keys) v (w, ws) =
    record_failure_many-IsValid c.lock_now (record_failure s key c) keys
      (record_failure-IsValid since s key c v w) ws
