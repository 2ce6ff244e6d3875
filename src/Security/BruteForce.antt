-- ===== src/Security/BruteForce.antt =====
-- infrastructure/security/services/bruteForceService.ts, config/bruteForce.config.ts and the test
-- of guards/bruteForce.guard.ts. Times are milliseconds. `Date.now()` is read up to four times in
-- one `recordFailure`, so an operation takes its clock readings as an argument.
pub mod Invariant
pub mod Locking
pub mod Counting
mod Tests
use notes_md_app_be.Prelude.{
  ℕ, ◌+◌, ◌-◌, ◌/◌, String, Bool, true, false, not, ◌&&◌, Option, none, some, List, [], ◌∷◌, ltb,
  leb, if◌then◌else◌, length,
}
use notes_md_app_be.Prelude.Map
use notes_md_app_be.Prelude.Map.{Map}

-- bruteForceConfig: ms('30s'), 20, ms('2m')
abbrev pub window_ms : ℕ
window_ms = 30000

abbrev pub max_attempts : ℕ
max_attempts = 20

abbrev pub lock_ms : ℕ
lock_ms = 120000

pub record BruteForceEntry : Type 0 where
  pub attempts : ℕ
  pub first_attempt_time : ℕ
  pub locked_until : Option ℕ

pub record BruteForceService : Type 0 where
  pub attempts_store : Map BruteForceEntry
  pub last_sweep : ℕ

-- The service as constructed at the time `now`.
abbrev pub init : ℕ → BruteForceService
init now = record { attempts_store = []; last_sweep = now }

-- The readings of the clock in one `recordFailure`, in the order in which it makes them.
pub record Readings : Type 0 where
  pub sweep_now : ℕ
  pub entry_now : ℕ
  pub check_now : ℕ
  pub lock_now : ℕ

-- `entry.lockedUntil !== undefined && entry.lockedUntil > now`
unfoldable pub locked : BruteForceEntry → ℕ → Bool
locked e now = elim e.locked_until [ none ↦ false | some u ↦ ltb now u ]

unfoldable pub expired : BruteForceEntry → ℕ → Bool
unfolding locked
expired e now = not (locked e now) && ltb window_ms (now - e.first_attempt_time)

abbrev pub fresh : ℕ → BruteForceEntry
fresh now = record { attempts = 0; first_attempt_time = now; locked_until = none }

-- The entry under a key, made or reset as needed, and the store that holds it.
unfoldable pub get_or_create_entry :
    Map BruteForceEntry → String → ℕ → Map BruteForceEntry × BruteForceEntry
get_or_create_entry store key now = elim (Map.get store key) [
  | none ↦ (Map.set store key (fresh now), fresh now)
  | some e ↦ let e' = if expired e now then fresh now else e in (Map.set store key e', e')
]

unfoldable pub is_locked : BruteForceService → String → ℕ → Bool
unfolding locked
is_locked s key now = elim (Map.get s.attempts_store key) [ none ↦ false | some e ↦ locked e now ]

-- `Math.ceil(msRemaining / 1000)`
abbrev pub seconds_up : ℕ → ℕ
seconds_up ms = (ms + 999) / 1000

unfoldable pub retry_after_seconds : BruteForceService → String → ℕ → ℕ
retry_after_seconds s key now = elim (Map.get s.attempts_store key) [
  | none ↦ 0
  | some e ↦ elim e.locked_until [ none ↦ 0 | some u ↦ seconds_up (u - now) ]
]

-- Drops the entries whose window and lock are over, at most once per window.
unfoldable pub sweep_expired : BruteForceService → ℕ → BruteForceService
unfolding expired
sweep_expired s now = if ltb (now - s.last_sweep) window_ms then s else record {
  attempts_store = Map.retain (λ e. not (expired e now)) s.attempts_store;
  last_sweep = now;
}

-- One more attempt on an entry that is not locked.
unfoldable pub count_attempt : BruteForceEntry → ℕ → BruteForceEntry
count_attempt e now =
    if leb max_attempts (e.attempts + 1)
    then record e { attempts = e.attempts + 1; locked_until = some (now + lock_ms) }
    else record e { attempts = e.attempts + 1 }

unfoldable pub record_failure : BruteForceService → String → Readings → BruteForceService
record_failure s key c =
    let swept = sweep_expired s c.sweep_now in
    let (store, e) = get_or_create_entry swept.attempts_store key c.entry_now in
    if locked e c.check_now
    then record swept { attempts_store = store }
    else record swept { attempts_store = Map.set store key (count_attempt e c.lock_now) }

unfoldable pub reset : BruteForceService → String → BruteForceService
reset s key = record s { attempts_store = Map.delete s.attempts_store key }

-- `recordFailureMany`, each key with the readings made for it.
unfoldable pub record_failure_many :
    BruteForceService → List (String × Readings) → BruteForceService
record_failure_many s [] = s
record_failure_many s ((key, c) ∷ keys) = record_failure_many (record_failure s key c) keys

unfoldable pub reset_many : BruteForceService → List String → BruteForceService
reset_many s [] = s
reset_many s (key ∷ keys) = reset_many (reset s key) keys

abbrev pub size : BruteForceService → ℕ
size s = length s.attempts_store

unfoldable pub first_locked : BruteForceService → List String → ℕ → Option String
first_locked s [] now = none
first_locked s (key ∷ keys) now =
    let rest = first_locked s keys now in if is_locked s key now then some key else rest

-- The answer of the guard: the request passes, or 429 with the value of Retry-After.
pub data GuardResult : Type 0 where
  pass : GuardResult
  too_many_requests : ℕ → GuardResult

-- `canActivate` from the keys of the request on; the clock is read once for the locks and once for
-- the header.
unfoldable pub can_activate : BruteForceService → List String → ℕ → ℕ → GuardResult
unfolding first_locked
can_activate s keys now later = elim (first_locked s keys now) [
  | none ↦ pass
  | some key ↦ too_many_requests (retry_after_seconds s key later)
]
