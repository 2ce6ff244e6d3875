-- ===== src/Ai/RunLimiter.antt =====
-- modules/ai/credentials/aiRunLimiter.service.ts. A function that `acquire` returned is a ticket:
-- the user it was made for and its captured variable `released`. Tickets are numbered in the order
-- in which they were made.
pub mod Slots
pub mod Runs
mod Tests
use notes_md_app_be.Prelude.{
  ℕ, zero, suc, ◌+◌, ◌-◌, String, Bool, true, false, Option, none, some, List, [], ◌∷◌, ◌++◌, ltb,
  leb, if◌then◌else◌, length, or_else,
}
use notes_md_app_be.Prelude.Map
use notes_md_app_be.Prelude.Map.{Map}

pub record Limits : Type 0 where
  pub max_concurrent_runs : ℕ
  pub max_concurrent_runs_per_user : ℕ

pub record Ticket : Type 0 where
  pub user : String
  pub released : Bool

pub record AiRunLimiter : Type 0 where
  pub per_user : Map ℕ
  pub total : ℕ
  pub tickets : List Ticket

abbrev pub init : AiRunLimiter
init = record { per_user = []; total = 0; tickets = [] }

-- The 429 answers: another answer of this user is running, or too many answers in all.
pub data Busy : Type 0 where
  still_running : Busy
  all_busy : Busy

pub data Acquired : Type 0 where
  slot : ℕ → Acquired
  busy : Busy → Acquired

abbrev pub mine : AiRunLimiter → String → ℕ
mine s user = or_else (Map.get s.per_user user) 0

unfoldable pub acquire : Limits → AiRunLimiter → String → AiRunLimiter × Acquired
acquire limits s user =
    if leb limits.max_concurrent_runs_per_user (mine s user)
    then (s, busy still_running)
    else if leb limits.max_concurrent_runs s.total
    then (s, busy all_busy)
    else (
      record {
        per_user = Map.set s.per_user user (mine s user + 1);
        total = s.total + 1;
        tickets = s.tickets ++ record { user = user; released = false } ∷ [];
      },
      slot (length s.tickets),
    )

unfoldable pub ticket_at : List Ticket → ℕ → Option Ticket
ticket_at [] i = none
ticket_at (t ∷ ts) zero = some t
ticket_at (t ∷ ts) (suc i) = ticket_at ts i

-- `released = true` in one of the closures.
unfoldable pub mark : List Ticket → ℕ → List Ticket
mark [] i = []
mark (t ∷ ts) zero = record t { released = true } ∷ ts
mark (t ∷ ts) (suc i) = t ∷ mark ts i

-- The users' counts after one slot of `user` was given back.
unfoldable pub one_less : Map ℕ → String → Map ℕ
one_less per_user user =
    let left = or_else (Map.get per_user user) 1 - 1 in
    if ltb 0 left then Map.set per_user user left else Map.delete per_user user

-- A call of the function that `acquire` returned.
unfoldable pub release : AiRunLimiter → ℕ → AiRunLimiter
release s i = elim (ticket_at s.tickets i) [
  | none ↦ s
  | some t ↦ if t.released then s else record {
    per_user = one_less s.per_user t.user;
    total = s.total - 1;
    tickets = mark s.tickets i;
  }
]

-- How the awaited function ends: it returns, or it throws.
pub data Outcome {ℓ} (T : Type ℓ) : Type ℓ where
  returned : T → Outcome T
  thrown : Outcome T
  refused : Busy → Outcome T

-- The body of `run` after `acquire`: a thrown 429, or the function with `release` in `finally`.
abbrev pub holding {ℓ} :
    {T : Type ℓ}
    → AiRunLimiter × Acquired
    → (AiRunLimiter → AiRunLimiter × Outcome T)
    → AiRunLimiter × Outcome T
holding (taken, busy why) fn = (taken, refused why)
holding (taken, slot i) fn = let (after, outcome) = fn taken in (release after i, outcome)

-- `run`: the function sees the limiter with its slot taken; what others do to the limiter while it
-- is awaited is part of `fn`.
unfoldable pub run {ℓ} :
    {T : Type ℓ}
    → Limits
    → AiRunLimiter
    → String
    → (AiRunLimiter → AiRunLimiter × Outcome T)
    → AiRunLimiter × Outcome T
run limits s user fn = holding (acquire limits s user) fn

-- What happens to a limiter: users ask for slots, and tickets are used, in any order and more than
-- once.
pub data Event : Type 0 where
  acquires : String → Event
  releases : ℕ → Event

unfoldable pub step : Limits → AiRunLimiter → Event → AiRunLimiter
step limits s (acquires user) = (acquire limits s user).0
step limits s (releases i) = release s i

unfoldable pub steps : Limits → AiRunLimiter → List Event → AiRunLimiter
steps limits s [] = s
steps limits s (e ∷ es) = steps limits (step limits s e) es
