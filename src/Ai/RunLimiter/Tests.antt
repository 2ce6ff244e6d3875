-- ===== src/Ai/RunLimiter/Tests.antt =====
-- Runs of the limiter, and the instances of its theorems.
use notes_md_app_be.Prelude.{ℕ, ◌≡◌, ◌⊎◌, refl, List, [], ◌∷◌, some, true}
use notes_md_app_be.Prelude.Map
use notes_md_app_be.Ai.RunLimiter.{
  Limits, AiRunLimiter, init, Busy, still_running, slot, busy, acquire, ticket_at, mark, one_less,
  release, Outcome, returned, thrown, refused, run, Event, acquires, releases, step, steps,
}
use notes_md_app_be.Ai.RunLimiter.Runs.{run-gives_back}
use notes_md_app_be.Ai.RunLimiter.Slots.{IsValid, init-IsValid, steps-IsValid}

abbrev limits : Limits
limits = record { max_concurrent_runs = 2; max_concurrent_runs_per_user = 1 }

abbrev events : List Event
events =
    acquires "ann" ∷ acquires "bob" ∷ acquires "ann" ∷ acquires "eve" ∷ releases 0 ∷ releases 0 ∷ []

abbrev after : AiRunLimiter
after = steps limits init events

after_counts : (after.total ≡ 1) × (after.per_user ≡ ("bob", 1) ∷ [])
unfolding steps step acquire release ticket_at mark one_less Map.get Map.set Map.delete
after_counts = (refl, refl)

after_busy : (acquire limits after "bob").1 ≡ busy still_running
unfolding steps step acquire release ticket_at mark one_less Map.get Map.set Map.delete
after_busy = refl

steps-IsValid_example : IsValid limits (steps limits init events)
steps-IsValid_example = steps-IsValid limits init events (init-IsValid limits)

-- A run whose function throws, with nothing else going on.
abbrev failed_run : AiRunLimiter × Outcome ℕ
failed_run = run limits after "eve" (λ taken. (taken, thrown))

abbrev busy_run : AiRunLimiter × Outcome ℕ
busy_run = run limits init "ann" (λ taken. (steps limits taken events, returned 7))

run-gives_back_example :
    ((acquire limits init "ann").1 ≡ slot 0)
      × (ticket_at busy_run.0.tickets 0 ≡ some (record { user = "ann"; released = true }))
      × (busy_run.1 ≡ returned 7)
    ⊎ ((why : Busy) × ((acquire limits init "ann").1 ≡ busy why) × (busy_run ≡ (init, refused why)))
run-gives_back_example = run-gives_back limits init "ann" events (returned 7)
