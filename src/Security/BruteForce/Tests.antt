-- ===== src/Security/BruteForce/Tests.antt =====
-- Runs of the brute force service, and the instances of its theorems.
use notes_md_app_be.Prelude.{
  ℕ, ◌+◌, ◌*◌, ◌<◌, min, String, ◌≡◌, refl, true, false, List, [], ◌∷◌, arith, leb, All, replicate,
  ◌↔◌,
}
use notes_md_app_be.Prelude.Map
use notes_md_app_be.Security.BruteForce.{
  BruteForceService, Readings, pass, too_many_requests, init, is_locked, expired, sweep_expired,
  get_or_create_entry, count_attempt, record_failure, record_failure_many, retry_after_seconds,
  can_activate, max_attempts, lock_ms, first_locked,
}
use notes_md_app_be.Security.BruteForce.Invariant.{
  IsValid, record_failure_many-IsValid, init-IsValid,
}
use notes_md_app_be.Security.BruteForce.Locking.{
  record_failure_many-keeps_lock, can_activate-eq-pass, is_locked-after_retry,
}
use notes_md_app_be.Security.BruteForce.Counting.{attempts_of, hits, record_failure_many-counts}

-- A failure whose clock readings all fall on one moment.
abbrev at : ℕ → Readings
at t = record { sweep_now = t; entry_now = t; check_now = t; lock_now = t }

abbrev guesses : List (String × Readings)
guesses = replicate 20 ("ip:a", at 1500)

abbrev attacked : BruteForceService
attacked = record_failure_many (init 1000) guesses

attacked_locked : is_locked attacked "ip:a" 121499 ≡ true
unfolding record_failure_many record_failure sweep_expired get_or_create_entry count_attempt
    is_locked expired Map.get Map.set Map.retain
attacked_locked = refl

attacked_released : is_locked attacked "ip:a" 121500 ≡ false
unfolding record_failure_many record_failure sweep_expired get_or_create_entry count_attempt
    is_locked expired Map.get Map.set Map.retain
attacked_released = refl

attacked_refused : can_activate attacked ("ip:a" ∷ []) 2000 2000 ≡ too_many_requests 120
unfolding record_failure_many record_failure sweep_expired get_or_create_entry count_attempt
    is_locked expired Map.get Map.set Map.retain can_activate first_locked retry_after_seconds
attacked_refused = refl

record_failure_many-counts_example :
    (attempts_of attacked "ip:a" ≡ min (hits "ip:a" guesses) max_attempts)
    × ((now : ℕ)
        → now < 1000 + lock_ms
        → is_locked attacked "ip:a" now ≡ leb max_attempts (hits "ip:a" guesses))
unfolding Map.get
record_failure_many-counts_example =
    record_failure_many-counts 1000 (init 1000) guesses "ip:a" tt refl (omega arith)

attacked-IsValid : IsValid 1500 attacked
attacked-IsValid =
    record_failure_many-IsValid 1000 (init 1000) guesses (init-IsValid 1000) (omega arith)

can_activate-eq-pass_example :
    (can_activate attacked ("ip:a" ∷ []) 2000 2001 ≡ pass)
    ↔ All (λ key. is_locked attacked key 2000 ≡ false) ("ip:a" ∷ [])
can_activate-eq-pass_example = can_activate-eq-pass attacked ("ip:a" ∷ []) 2000 2001

is_locked-after_retry_example :
    is_locked attacked "ip:a" (2000 + 1000 * retry_after_seconds attacked "ip:a" 2000) ≡ false
is_locked-after_retry_example = is_locked-after_retry attacked "ip:a" 2000

attacked_locked_later : is_locked attacked "ip:a" 100000 ≡ true
unfolding record_failure_many record_failure sweep_expired get_or_create_entry count_attempt
    is_locked expired Map.get Map.set Map.retain
attacked_locked_later = refl

abbrev more_guesses : List (String × Readings)
more_guesses = ("ip:a", at 50000) ∷ ("ip:b", at 60000) ∷ ("ip:a", at 99000) ∷ []

record_failure_many-keeps_lock_example :
    (is_locked (record_failure_many attacked more_guesses) "ip:a" 100000 ≡ true)
    × ((now : ℕ)
        → retry_after_seconds (record_failure_many attacked more_guesses) "ip:a" now
          ≡ retry_after_seconds attacked "ip:a" now)
record_failure_many-keeps_lock_example =
    record_failure_many-keeps_lock attacked more_guesses "ip:a" 100000 attacked-IsValid.unique
      attacked_locked_later (omega arith)
