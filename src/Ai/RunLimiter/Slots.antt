-- ===== src/Ai/RunLimiter/Slots.antt =====
-- The counts of the limiter are the slots that are held.
use native.Mathlib.Numerals.{add-one}
use notes_md_app_be.Prelude.{
  ℕ, zero, suc, ◌+◌, ◌-◌, ◌≤◌, ◌<◌, String, ◌≡◌, refl, false, not, ◌&&◌, Option, none, some, List,
  [], ◌∷◌, ◌++◌, leb, if◌then◌else◌, length, or_else, arith, eq_iff, eq_refl, str_eq, Bool-cases,
  Option-cases, inl, inr, ap, ◌∙◌,
}
use notes_md_app_be.Prelude.Map
use notes_md_app_be.Prelude.Map.{Map}
use notes_md_app_be.Ai.RunLimiter.{
  Limits, Ticket, AiRunLimiter, init, still_running, all_busy, slot, busy, mine, acquire, ticket_at,
  mark, one_less, release, Event, acquires, releases, step, steps,
}

-- The tickets that are not released, of all users and of one.
abbrev pub held : List Ticket → ℕ
held [] = 0
held (t ∷ ts) = (if t.released then 0 else 1) + held ts

abbrev pub held_by : String → List Ticket → ℕ
held_by u [] = 0
held_by u (t ∷ ts) = (if not t.released && str_eq t.user u then 1 else 0) + held_by u ts

-- A user with no slot has no entry.
abbrev pub stored : ℕ → Option ℕ
stored zero = none
stored (suc n) = some (suc n)

pub record IsValid (limits : Limits) (s : AiRunLimiter) : Type 0 where
  pub total : s.total ≡ held s.tickets
  pub per_user : (u : String) → Map.get s.per_user u ≡ stored (held_by u s.tickets)
  pub total_le : s.total ≤ limits.max_concurrent_runs
  pub user_le : (u : String) → held_by u s.tickets ≤ limits.max_concurrent_runs_per_user

held-append :
    (ts : List Ticket) (u : String)
    → held (ts ++ record { user = u; released = false } ∷ []) ≡ held ts + 1
held-append [] u = refl
held-append (t ∷ ts) u = omega (arith, held-append ts u)

held_by-append :
    (ts : List Ticket) (v u : String)
    → held_by u (ts ++ record { user = v; released = false } ∷ [])
      ≡ held_by u ts + (if str_eq v u then 1 else 0)
held_by-append [] v u = ground arith
held_by-append (t ∷ ts) v u = omega (arith, held_by-append ts v u)

held-mark :
    (ts : List Ticket) (i : ℕ) (t : Ticket)
    → ticket_at ts i ≡ some t
    → t.released ≡ false
    → held ts ≡ held (mark ts i) + 1
unfolding ticket_at mark
held-mark [] i t e r = cc
held-mark (x ∷ ts) zero t e r = ground arith
held-mark (x ∷ ts) (suc i) t e r = omega (arith, held-mark ts i t e r)

held_by-mark :
    (ts : List Ticket) (i : ℕ) (t : Ticket) (u : String)
    → ticket_at ts i ≡ some t
    → t.released ≡ false
    → held_by u ts ≡ held_by u (mark ts i) + (if str_eq t.user u then 1 else 0)
unfolding ticket_at mark
held_by-mark [] i t u e r = cc
held_by-mark (x ∷ ts) zero t u e r = ground arith
held_by-mark (x ∷ ts) (suc i) t u e r = omega (arith, held_by-mark ts i t u e r)

or_else-stored : (n : ℕ) → or_else (stored n) 0 ≡ n
or_else-stored zero = refl
or_else-stored (suc n) = refl

pub stored-suc : (n : ℕ) → stored (n + 1) ≡ some (n + 1)
stored-suc n = rw add-one refl

pub get-one_less :
    (m : Map ℕ) (v u : String) (n : ℕ)
    → Map.get m v ≡ stored (n + 1)
    → Map.get (one_less m v) u ≡ (if str_eq v u then stored n else Map.get m u)
unfolding one_less
get-one_less m v u zero e = ground (arith, e, Map.get-delete m v u)
get-one_less m v u (suc n) e =
    ground
      (arith, e, Map.get-delete m v u, Map.get-set m v (suc n) u, Map.get-set m v (suc n + 1 - 1) u)

module _ (limits : Limits) where
  pub init-IsValid : IsValid limits init
  unfolding Map.get
  init-IsValid = ground arith

  pub mine-eq-held_by :
      (s : AiRunLimiter) (user : String) → IsValid limits s → mine s user ≡ held_by user s.tickets
  mine-eq-held_by s user v = rw (v.per_user user) (or_else-stored (held_by user s.tickets))

  -- The limiter with one more slot taken.
  abbrev pub acquired : (s : AiRunLimiter) (user : String) → AiRunLimiter
  acquired s user = record {
    per_user = Map.set s.per_user user (mine s user + 1);
    total = s.total + 1;
    tickets = s.tickets ++ record { user = user; released = false } ∷ [];
  }

  acquired-IsValid :
      (s : AiRunLimiter) (user : String)
      → IsValid limits s
      → mine s user < limits.max_concurrent_runs_per_user
      → s.total < limits.max_concurrent_runs
      → IsValid limits (acquired s user)
  acquired-IsValid s user v user_free free = record {
    total = omega (arith, held-append s.tickets user, v.total);
    per_user = λ u. ground (
      arith,
      Map.get-set s.per_user user (mine s user + 1) u,
      eq_iff user u,
      mine-eq-held_by s user v,
      held_by-append s.tickets user u,
      v.per_user u,
      stored-suc (held_by user s.tickets),
    );
    total_le = omega arith;
    user_le = λ u. ground (
      arith,
      eq_iff user u,
      held_by-append s.tickets user u,
      v.user_le u,
      mine-eq-held_by s user v,
    );
  }

  acquire-IsValid :
      (s : AiRunLimiter) (user : String)
      → IsValid limits s
      → IsValid limits (acquire limits s user).0
  unfolding acquire
  acquire-IsValid s user v =
      elim (Bool-cases (leb limits.max_concurrent_runs_per_user (mine s user))) [
        | inl full ↦ rw full v
        | inr user_free ↦ rw user_free (elim (Bool-cases (leb limits.max_concurrent_runs s.total)) [
          | inl full ↦ rw full v
          | inr free ↦ rw free (acquired-IsValid s user v (ground arith) (ground arith))
        ])
      ]

  given_back :
      (s : AiRunLimiter) (i : ℕ) (t : Ticket)
      → IsValid limits s
      → ticket_at s.tickets i ≡ some t
      → t.released ≡ false
      → IsValid limits (record {
        per_user = one_less s.per_user t.user;
        total = s.total - 1;
        tickets = mark s.tickets i;
      })
  given_back s i t v found new =
      let one : held_by t.user s.tickets ≡ held_by t.user (mark s.tickets i) + 1 =
        ground (arith, held_by-mark s.tickets i t t.user found new, eq_refl t.user) in
      record {
        total = omega (arith, v.total, held-mark s.tickets i t found new);
        per_user = λ u. ground (
          arith,
          get-one_less s.per_user t.user u (held_by t.user (mark s.tickets i))
              (v.per_user t.user ∙ ap stored one),
          eq_iff t.user u,
          held_by-mark s.tickets i t u found new,
          v.per_user u,
        );
        total_le = omega (arith, v.total_le);
        user_le = λ u. omega (arith, held_by-mark s.tickets i t u found new, v.user_le u);
      }

  release-IsValid : (s : AiRunLimiter) (i : ℕ) → IsValid limits s → IsValid limits (release s i)
  unfolding release
  release-IsValid s i v = elim (Option-cases (ticket_at s.tickets i)) [
    | inl missing ↦ rw (missing, release) v
    | inr (t, found) ↦
        rw (found, release)
          (elim (Bool-cases t.released) [
            | inl old ↦ rw old v
            | inr new ↦ rw new (given_back s i t v found new)
          ])
  ]

  step-IsValid :
      (s : AiRunLimiter) (e : Event) → IsValid limits s → IsValid limits (step limits s e)
  unfolding step
  step-IsValid s (acquires user) v = acquire-IsValid s user v
  step-IsValid s (releases i) v = release-IsValid s i v

  -- In every order of requests for slots and of releases, repeated ones too, the limiter counts
  -- exactly the slots that are held, in all and for each user, and neither count passes its limit.
  pub steps-IsValid :
      (s : AiRunLimiter) (es : List Event) → IsValid limits s → IsValid limits (steps limits s es)
  unfolding steps
  steps-IsValid s [] v = v
  steps-IsValid s (e ∷ es) v = steps-IsValid (step limits s e) es (step-IsValid s e v)

  -- `acquire` answers by the slots that are held: it refuses a user who holds all of theirs, else
  -- anybody while all slots are held, and else makes the next ticket.
  pub acquire-answer :
      (s : AiRunLimiter) (user : String)
      → IsValid limits s
      → (acquire limits s user).1 ≡ (
          if leb limits.max_concurrent_runs_per_user (held_by user s.tickets)
          then busy still_running
          else if leb limits.max_concurrent_runs (held s.tickets)
          then busy all_busy
          else slot (length s.tickets))
  unfolding acquire
  acquire-answer s user v = ground (arith, mine-eq-held_by s user v, v.total)
