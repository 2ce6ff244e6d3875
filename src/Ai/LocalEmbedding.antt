-- ===== src/Ai/LocalEmbedding.antt =====
-- infrastructure/ai/providers/local/local-embedding.provider.ts: the requests to the worker process.
-- Processes are numbered in the order in which they are forked. What settles a request (an answer,
-- a timeout, an abort, a failed send) and what ends a worker arrive as events, in any order.
pub mod Accounting
pub mod Idle
mod Tests
use notes_md_app_be.Prelude.{
  ℕ, ◌+◌, Bool, true, false, Option, none, some, List, [], ◌∷◌, ◌++◌, ◌==◌, if◌then◌else◌, length,
  ◌&&◌, is_some,
}

-- How a promise is settled. `Vectors` is the type of the answers of the model.
pub data Outcome (Vectors : Type 0) : Type 0 where
  vectors : Vectors → Outcome Vectors
  provider_error : Outcome Vectors
  unavailable : Outcome Vectors
  aborted : Outcome Vectors

-- An entry of `pending`: the id, and the worker that the request was sent to.
pub record Pending : Type 0 where
  pub id : ℕ
  pub worker : ℕ

-- The provider; `settled` lists the promises that were resolved or rejected, the last one first.
pub record LocalEmbeddingProvider (Vectors : Type 0) : Type 0 where
  pub child : Option ℕ
  pub pending : List Pending
  pub next_id : ℕ
  pub idle_timer : Bool
  pub forked : ℕ
  pub settled : List (ℕ × Outcome Vectors)

unfoldable pub find : List Pending → ℕ → Option Pending
find [] id = none
find (r ∷ rs) id = if r.id == id then some r else find rs id

unfoldable pub remove : List Pending → ℕ → List Pending
remove [] id = []
remove (r ∷ rs) id = let rest = remove rs id in if r.id == id then rest else r ∷ rest

abbrev pub is_empty : List Pending → Bool
is_empty [] = true
is_empty (r ∷ rs) = false

abbrev pub is_child : Option ℕ → ℕ → Bool
is_child none worker = false
is_child (some child) worker = child == worker

pub data Event (Vectors : Type 0) : Type 0 where
  requested : Event Vectors
  answered : ℕ → Outcome Vectors → Event Vectors
  gone : ℕ → Event Vectors
  idle : Event Vectors
  stopped : Event Vectors

module _ {Vectors : Type 0} where
  abbrev pub init : LocalEmbeddingProvider Vectors
  init = record {
    child = none;
    pending = [];
    next_id = 0;
    idle_timer = false;
    forked = 0;
    settled = [];
  }

  -- `settle`: nothing for an id that is not pending; the last one starts the idle timer.
  unfoldable pub settle :
      LocalEmbeddingProvider Vectors → ℕ → Outcome Vectors → LocalEmbeddingProvider Vectors
  settle s id result = elim (find s.pending id) [
    | none ↦ s
    | some request ↦ record s {
      pending = remove s.pending id;
      settled = (id, result) ∷ s.settled;
      idle_timer = if is_empty (remove s.pending id) && is_some s.child then true else s.idle_timer;
    }
  ]

  -- `ensureWorker`
  unfoldable pub ensure_worker : LocalEmbeddingProvider Vectors → LocalEmbeddingProvider Vectors × ℕ
  ensure_worker s = elim s.child [
    | some child ↦ (s, child)
    | none ↦ (record s { child = some s.forked; forked = s.forked + 1 }, s.forked)
  ]

  -- `request`, up to the message to the worker: the request is pending under the next id.
  unfoldable pub request : LocalEmbeddingProvider Vectors → LocalEmbeddingProvider Vectors
  unfolding ensure_worker
  request s =
      let (s', child) = ensure_worker s in
      record s' {
        idle_timer = false;
        next_id = s'.next_id + 1;
        pending = s'.pending ++ record { id = s'.next_id + 1; worker = child } ∷ [];
      }

  -- `stop`: the worker is killed, and its exit arrives as an event of its own.
  unfoldable pub stop : LocalEmbeddingProvider Vectors → LocalEmbeddingProvider Vectors
  stop s = record s { child = none; idle_timer = false }

  -- The loop of `workerGone` over a copy of the pending requests.
  unfoldable pub fail_all :
      LocalEmbeddingProvider Vectors → List Pending → ℕ → LocalEmbeddingProvider Vectors
  fail_all s [] worker = s
  fail_all s (r ∷ rs) worker =
      fail_all (if r.worker == worker then settle s r.id unavailable else s) rs worker

  unfoldable pub worker_gone : LocalEmbeddingProvider Vectors → ℕ → LocalEmbeddingProvider Vectors
  worker_gone s worker =
      fail_all
        (if is_child s.child worker then record s { child = none; idle_timer = false } else s)
        s.pending worker

  -- The idle timer only fires while it runs.
  unfoldable pub step :
      LocalEmbeddingProvider Vectors → Event Vectors → LocalEmbeddingProvider Vectors
  step s requested = request s
  step s (answered id result) = settle s id result
  step s (gone worker) = worker_gone s worker
  step s idle = if s.idle_timer then stop s else s
  step s stopped = stop s

  unfoldable pub steps :
      LocalEmbeddingProvider Vectors → List (Event Vectors) → LocalEmbeddingProvider Vectors
  steps s [] = s
  steps s (e ∷ es) = steps (step s e) es

-- What `embed` makes of the answer to a non-empty list of texts.
pub data Embedded (Vector : Type 0) : Type 0 where
  embedded : List Vector → Embedded Vector
  unexpected_number : Embedded Vector

unfoldable pub check_answer : {Text Vector : Type 0} → List Text → List Vector → Embedded Vector
check_answer texts answer =
    if length answer == length texts then embedded answer else unexpected_number
