-- ===== src/Ai/LocalEmbedding/Tests.antt =====
-- Runs of the local embedding provider, and the instances of its theorems.
use notes_md_app_be.Prelude.{ℕ, ◌≡◌, refl, some, List, [], ◌∷◌}
use notes_md_app_be.Ai.LocalEmbedding.{
  vectors, unavailable, LocalEmbeddingProvider, init, find, remove, settle, request, ensure_worker,
  stop, fail_all, worker_gone, Event, requested, answered, gone, stopped, step, steps,
}
use notes_md_app_be.Ai.LocalEmbedding.Accounting.{Accounted, init-steps-Accounted}

-- Two requests to worker 0, one answered in time; a stop, a request to worker 1, the exit of worker 0.
abbrev events : List (Event ℕ)
events =
    requested
    ∷ requested
    ∷ answered 2 (vectors 7)
    ∷ stopped
    ∷ requested
    ∷ gone 0
    ∷ answered 1 (vectors 8)
    ∷ []

abbrev after : LocalEmbeddingProvider ℕ
after = steps init events

after_state :
    (after.pending ≡ record { id = 3; worker = 1 } ∷ [])
    × (after.settled ≡ (1, unavailable) ∷ (2, vectors 7) ∷ [])
    × (after.child ≡ some 1)
unfolding steps step settle request stop worker_gone find remove ensure_worker fail_all
after_state = (refl, refl, refl)

init-steps-Accounted_example : Accounted (steps init events)
init-steps-Accounted_example = init-steps-Accounted events
