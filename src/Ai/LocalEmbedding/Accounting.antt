-- ===== src/Ai/LocalEmbedding/Accounting.antt =====
-- Every request is settled at most once, and none is lost.
use notes_md_app_be.Prelude.{
  ℕ, ◌+◌, ◌≤◌, ◌≡◌, refl, false, none, some, List, [], ◌∷◌, ◌++◌, ◌==◌, leb, if◌then◌else◌, arith,
  ◌&&◌, Option-cases, inl, inr, if_either,
}
use notes_md_app_be.Ai.LocalEmbedding.{
  Outcome, unavailable, Pending, LocalEmbeddingProvider, init, find, remove, settle, request,
  ensure_worker, stop, is_child, fail_all, worker_gone, Event, requested, answered, gone, idle,
  stopped, step, steps,
}

-- How often an id is pending, and how often its promise was settled.
abbrev pub pending_count : List Pending → ℕ → ℕ
pending_count [] id = 0
pending_count (r ∷ rs) id = (if r.id == id then 1 else 0) + pending_count rs id

abbrev pub settled_count : {V : Type 0} → List (ℕ × Outcome V) → ℕ → ℕ
settled_count [] id = 0
settled_count ((i, o) ∷ os) id = (if i == id then 1 else 0) + settled_count os id

-- The ids are given out from 1 on: each is pending or settled, and once in all.
abbrev pub Accounted : {V : Type 0} → LocalEmbeddingProvider V → Type 0
Accounted s =
    (id : ℕ)
    → pending_count s.pending id + settled_count s.settled id
      ≡ (if leb 1 id && leb id s.next_id then 1 else 0)

pending_count-append :
    (rs : List Pending) (r : Pending) (id : ℕ)
    → pending_count (rs ++ r ∷ []) id ≡ pending_count rs id + (if r.id == id then 1 else 0)
pending_count-append [] r id = omega arith
pending_count-append (x ∷ rs) r id = omega (arith, pending_count-append rs r id)

find-none-count : (rs : List Pending) (id : ℕ) → find rs id ≡ none → pending_count rs id ≡ 0
unfolding find
find-none-count [] id e = refl
find-none-count (r ∷ rs) id e = ground (arith, find-none-count rs id)

pending_count-remove :
    (rs : List Pending) (id j : ℕ)
    → pending_count (remove rs id) j ≡ (if id == j then 0 else pending_count rs j)
unfolding remove
pending_count-remove [] id j = ground arith
pending_count-remove (r ∷ rs) id j = ground (arith, pending_count-remove rs id j)

find-some-count :
    (rs : List Pending) (id : ℕ) (r : Pending) → find rs id ≡ some r → 1 ≤ pending_count rs id
unfolding find
find-some-count [] id r e = cc
find-some-count (x ∷ rs) id r e = ground (arith, find-some-count rs id r)

module _ {V : Type 0} where
  settle-Accounted :
      (s : LocalEmbeddingProvider V) (id : ℕ) (o : Outcome V)
      → Accounted s
      → Accounted (settle s id o)
  unfolding settle
  settle-Accounted s id o h j = elim (Option-cases (find s.pending id)) [
    | inl missing ↦ ground (arith, missing, h j)
    | inr (r, found) ↦ ground (
      arith,
      found,
      h j,
      pending_count-remove s.pending id j,
      find-some-count s.pending id r found,
    )
  ]

  request-Accounted : (s : LocalEmbeddingProvider V) → Accounted s → Accounted (request s)
  unfolding request ensure_worker
  request-Accounted s h j = ground (
    arith,
    h j,
    pending_count-append (ensure_worker s).0.pending
        (record { id = (ensure_worker s).0.next_id + 1; worker = (ensure_worker s).1 }) j,
  )

  fail_all-Accounted :
      (s : LocalEmbeddingProvider V) (rs : List Pending) (w : ℕ)
      → Accounted s
      → Accounted (fail_all s rs w)
  unfolding fail_all
  fail_all-Accounted s [] w h = h
  fail_all-Accounted s (r ∷ rs) w h =
      fail_all-Accounted (if r.worker == w then settle s r.id unavailable else s) rs w
        (if_either Accounted (r.worker == w) (settle-Accounted s r.id unavailable h) h)

  step-Accounted : (s : LocalEmbeddingProvider V) (e : Event V) → Accounted s → Accounted (step s e)
  unfolding step worker_gone stop
  step-Accounted s requested h = request-Accounted s h
  step-Accounted s (answered id o) h = settle-Accounted s id o h
  step-Accounted s (gone w) h =
      fail_all-Accounted
        (if is_child s.child w then record s { child = none; idle_timer = false } else s) s.pending
        w (if_either Accounted (is_child s.child w) h h)
  step-Accounted s idle h = if_either Accounted s.idle_timer h h
  step-Accounted s stopped h = h

  steps-Accounted :
      (s : LocalEmbeddingProvider V) (es : List (Event V)) → Accounted s → Accounted (steps s es)
  unfolding steps
  steps-Accounted s [] h = h
  steps-Accounted s (e ∷ es) h = steps-Accounted (step s e) es (step-Accounted s e h)

  -- Whatever requests, answers, timeouts, aborts, exits of workers and stops happen, in any order,
  -- every request made so far is either pending or settled, and settled once only; an id that was
  -- not given out is neither.
  pub init-steps-Accounted : (es : List (Event V)) → Accounted (steps (init {Vectors = V}) es)
  init-steps-Accounted es = steps-Accounted init es (λ id. ground arith)
