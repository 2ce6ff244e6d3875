-- ===== src/Ai/RunLimiter/Runs.antt =====
-- What a run takes, it gives back.
use notes_md_app_be.Prelude.{
  ℕ, zero, suc, ◌+◌, String, ◌≡◌, refl, true, false, Option, none, some, List, [], ◌∷◌, ◌++◌, leb,
  length, arith, eq_iff, eq_refl, Bool-cases, Option-cases, inl, inr, ap, ◌⊎◌,
}
use notes_md_app_be.Prelude.Map
use notes_md_app_be.Prelude.Map.{Map}
use notes_md_app_be.Ai.RunLimiter.{
  Limits, Ticket, AiRunLimiter, Busy, still_running, all_busy, slot, busy, mine, acquire, ticket_at,
  mark, release, Outcome, refused, run, Event, acquires, releases, step, steps,
}
use notes_md_app_be.Ai.RunLimiter.Slots.{
  held_by, stored-suc, get-one_less, mine-eq-held_by, acquired, IsValid,
}

ticket_at-mark :
    (ts : List Ticket) (i : ℕ) (t : Ticket)
    → ticket_at ts i ≡ some t
    → ticket_at (mark ts i) i ≡ some (record t { released = true })
unfolding ticket_at mark
ticket_at-mark [] i t e = cc
ticket_at-mark (x ∷ ts) zero t e = cc
ticket_at-mark (x ∷ ts) (suc i) t e = ticket_at-mark ts i t e

-- A second call of the same release function changes nothing.
pub release-release : (s : AiRunLimiter) (i : ℕ) → release (release s i) i ≡ release s i
unfolding release
release-release s i = elim (Option-cases (ticket_at s.tickets i)) [
  | inl missing ↦ ground (arith, missing)
  | inr (t, found) ↦ ground (arith, found, ticket_at-mark s.tickets i t found)
]

-- The user of a ticket.
abbrev user_of : Option Ticket → Option String
user_of none = none
user_of (some t) = some t.user

user_of-mark :
    (ts : List Ticket) (i j : ℕ) → user_of (ticket_at (mark ts i) j) ≡ user_of (ticket_at ts j)
unfolding ticket_at mark
user_of-mark [] i j = refl
user_of-mark (x ∷ ts) zero zero = refl
user_of-mark (x ∷ ts) zero (suc j) = refl
user_of-mark (x ∷ ts) (suc i) zero = refl
user_of-mark (x ∷ ts) (suc i) (suc j) = user_of-mark ts i j

ticket_at-append :
    (ts us : List Ticket) (j : ℕ) (t : Ticket)
    → ticket_at ts j ≡ some t
    → ticket_at (ts ++ us) j ≡ some t
unfolding ticket_at
ticket_at-append [] us j t e = cc
ticket_at-append (x ∷ ts) us zero t e = e
ticket_at-append (x ∷ ts) us (suc j) t e = ticket_at-append ts us j t e

user_of-append :
    (ts us : List Ticket) (j : ℕ) (u : String)
    → user_of (ticket_at ts j) ≡ some u
    → user_of (ticket_at (ts ++ us) j) ≡ some u
user_of-append ts us j u e = elim (Option-cases (ticket_at ts j)) [
  | inl missing ↦ ground (arith, missing)
  | inr (t, found) ↦ ground (arith, found, ticket_at-append ts us j t found)
]

ticket_at-last : (ts : List Ticket) (t : Ticket) → ticket_at (ts ++ t ∷ []) (length ts) ≡ some t
unfolding ticket_at
ticket_at-last [] t = refl
ticket_at-last (x ∷ ts) t = ticket_at-last ts t

module _ (limits : Limits) where
  user_of-step :
      (s : AiRunLimiter) (e : Event) (j : ℕ) (u : String)
      → user_of (ticket_at s.tickets j) ≡ some u
      → user_of (ticket_at (step limits s e).tickets j) ≡ some u
  unfolding step acquire release
  user_of-step s (acquires user) j u e =
      ground (arith, user_of-append s.tickets (record { user = user; released = false } ∷ []) j u e)
  user_of-step s (releases i) j u e = ground (arith, user_of-mark s.tickets i j)

  user_of-steps :
      (s : AiRunLimiter) (es : List Event) (j : ℕ) (u : String)
      → user_of (ticket_at s.tickets j) ≡ some u
      → user_of (ticket_at (steps limits s es).tickets j) ≡ some u
  unfolding steps
  user_of-steps s [] j u e = e
  user_of-steps s (x ∷ es) j u e = user_of-steps (step limits s x) es j u (user_of-step s x j u e)

  ticket_at-release :
      (s : AiRunLimiter) (j : ℕ) (u : String)
      → user_of (ticket_at s.tickets j) ≡ some u
      → ticket_at (release s j).tickets j ≡ some (record { user = u; released = true })
  unfolding release
  ticket_at-release s j u e = elim (Option-cases (ticket_at s.tickets j)) [
    | inl missing ↦ ground (arith, missing)
    | inr (t, found) ↦ ground (arith, found, ticket_at-mark s.tickets j t found)
  ]

  acquire-cases :
      (s : AiRunLimiter) (user : String)
      → (acquire limits s user ≡ (acquired limits s user, slot (length s.tickets)))
        ⊎ ((why : Busy) × (acquire limits s user ≡ (s, busy why)))
  unfolding acquire
  acquire-cases s user = elim (Bool-cases (leb limits.max_concurrent_runs_per_user (mine s user))) [
    | inl full ↦ inr (still_running, rw full refl)
    | inr user_free ↦ elim (Bool-cases (leb limits.max_concurrent_runs s.total)) [
      | inl full ↦ inr (all_busy, rw (user_free, full) refl)
      | inr free ↦ inl (rw (user_free, free) refl)
    ]
  ]

  -- However the awaited function of `run` ends, and whatever others do to the limiter meanwhile, the
  -- slot that `run` took is given back: its ticket, the next one when it started, is released. A run
  -- that finds no slot leaves the limiter as it is and answers 429.
  pub run-gives_back :
      {T : Type 0} (s : AiRunLimiter) (user : String) (meanwhile : List Event) (outcome : Outcome T)
      → ((acquire limits s user).1 ≡ slot (length s.tickets))
          × (ticket_at
                (run limits s user (λ taken. (steps limits taken meanwhile, outcome))).0.tickets
                (length s.tickets)
              ≡ some (record { user = user; released = true }))
          × ((run limits s user (λ taken. (steps limits taken meanwhile, outcome))).1 ≡ outcome)
        ⊎ ((why : Busy) × ((acquire limits s user).1 ≡ busy why)
            × (run limits s user (λ taken. (steps limits taken meanwhile, outcome))
                ≡ (s, refused why)))
  unfolding run
  run-gives_back s user meanwhile outcome = elim (acquire-cases s user) [
    | inl taken ↦ inl (
      ap (λ p. p.1) taken,
      rw (taken, run)
          (ticket_at-release (steps limits (acquired limits s user) meanwhile) (length s.tickets)
            user
            (user_of-steps (acquired limits s user) meanwhile (length s.tickets) user
              (ap user_of (ticket_at-last s.tickets (record { user = user; released = false }))))),
      rw (taken, run) refl,
    )
    | inr (why, full) ↦ inr (why, ap (λ p. p.1) full, rw (full, run) refl)
  ]

  released-acquired :
      (s : AiRunLimiter) (user : String)
      → IsValid limits s
      → ((release (acquired limits s user) (length s.tickets)).total ≡ s.total)
        × ((u : String)
            → Map.get (release (acquired limits s user) (length s.tickets)).per_user u
              ≡ Map.get s.per_user u)
  unfolding release
  released-acquired s user v =
      rw (ticket_at-last s.tickets (record { user = user; released = false }), release)
        (
          omega arith,
          λ u. ground (
            arith,
            eq_iff user u,
            mine-eq-held_by limits s user v,
            v.per_user user,
            stored-suc (held_by user s.tickets),
            Map.get-set s.per_user user (mine s user + 1) user,
            eq_refl user,
            Map.get-set s.per_user user (mine s user + 1) u,
            get-one_less (Map.set s.per_user user (mine s user + 1)) user u
                (held_by user s.tickets),
          ),
        )

  -- A run during which nothing else happens leaves every count as it was.
  pub run-restores :
      {T : Type 0} (s : AiRunLimiter) (user : String) (outcome : Outcome T)
      → IsValid limits s
      → ((run limits s user (λ taken. (taken, outcome))).0.total ≡ s.total)
        × ((u : String)
            → Map.get (run limits s user (λ taken. (taken, outcome))).0.per_user u
              ≡ Map.get s.per_user u)
  unfolding run
  run-restores s user outcome v = elim (acquire-cases s user) [
    | inl taken ↦ rw (taken, run) (released-acquired s user v)
    | inr (why, full) ↦ rw (full, run) (refl, λ u. refl)
  ]
