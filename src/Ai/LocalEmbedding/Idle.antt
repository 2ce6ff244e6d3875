-- ===== src/Ai/LocalEmbedding/Idle.antt =====
-- What a dying worker takes with it, and that the idle timer takes nothing.
use notes_md_app_be.Prelude.{
  ℕ, ◌≡◌, ◌≢◌, refl, true, false, none, some, List, [], ◌∷◌, ◌==◌, if◌then◌else◌, arith, ◌&&◌,
  Option-cases, Bool-cases, inl, inr, All, is_some, if_either, ap, sym, ◌∙◌, ◌⊎◌,
}
use notes_md_app_be.Ai.LocalEmbedding.{
  Outcome, unavailable, Pending, LocalEmbeddingProvider, init, find, remove, settle, request, stop,
  is_child, fail_all, worker_gone, Event, requested, answered, gone, idle, stopped, step, steps,
  is_empty,
}

-- The timer runs only while a worker is up and no request waits for it.
abbrev pub IdleIsValid : {V : Type 0} → LocalEmbeddingProvider V → Type 0
IdleIsValid s = s.idle_timer ≡ true → (s.pending ≡ []) × (is_some s.child ≡ true)

is_empty-eq : (rs : List Pending) → is_empty rs ≡ true → rs ≡ []
is_empty-eq [] e = refl
is_empty-eq (r ∷ rs) e = cc

find-nil : (rs : List Pending) (id : ℕ) (r : Pending) → find rs id ≡ some r → rs ≢ []
unfolding find
find-nil [] id r e p = cc
find-nil (x ∷ rs) id r e p = cc

-- The request is one of the list.
abbrev IsIn : Pending → List Pending → Type 0
IsIn r [] = ⊥
IsIn r (x ∷ rs) = (r ≡ x) ⊎ IsIn r rs

-- Each request was sent to another worker, or is still to be failed.
abbrev IsCovered : ℕ → List Pending → List Pending → Type 0
IsCovered w rs = All (λ r. (r.worker ≢ w) ⊎ IsIn r rs)

still_covered :
    (w : ℕ) (p x : Pending) (rs : List Pending)
    → (p.id == x.id) ≡ false
    → (p.worker ≢ w) ⊎ IsIn p (x ∷ rs)
    → (p.worker ≢ w) ⊎ IsIn p rs
still_covered w p x rs other (inl apart) = inl apart
still_covered w p x rs other (inr (inl same)) =
    absurd (ground (arith, ap (λ (r : Pending). r.id) same, other))
still_covered w p x rs other (inr (inr later)) = inr later

IsCovered-remove :
    (w : ℕ) (x : Pending) (rs ps : List Pending)
    → IsCovered w (x ∷ rs) ps
    → IsCovered w rs (remove ps x.id)
unfolding remove
IsCovered-remove w x rs [] h = tt
IsCovered-remove w x rs (p ∷ ps) (h, hs) = elim (Bool-cases (p.id == x.id)) [
  | inl same ↦ rw (same, remove) (IsCovered-remove w x rs ps hs)
  | inr other ↦ rw (other, remove) (still_covered w p x rs other h, IsCovered-remove w x rs ps hs)
]

-- With nothing of the id pending there is nothing to remove.
remove-absent : (ps : List Pending) (id : ℕ) → find ps id ≡ none → remove ps id ≡ ps
unfolding find remove
remove-absent [] id e = refl
remove-absent (p ∷ ps) id e = ground (arith, e, remove-absent ps id)

IsCovered-skip :
    (w : ℕ) (x : Pending) (rs ps : List Pending)
    → x.worker ≢ w
    → IsCovered w (x ∷ rs) ps
    → IsCovered w rs ps
IsCovered-skip w x rs [] ne h = tt
IsCovered-skip w x rs (p ∷ ps) ne (inl apart, hs) = (inl apart, IsCovered-skip w x rs ps ne hs)
IsCovered-skip w x rs (p ∷ ps) ne (inr (inl same), hs) =
    (inl (λ e. ne (sym (ap (λ (r : Pending). r.worker) same) ∙ e)), IsCovered-skip w x rs ps ne hs)
IsCovered-skip w x rs (p ∷ ps) ne (inr (inr later), hs) =
    (inr later, IsCovered-skip w x rs ps ne hs)

IsCovered-all :
    (w : ℕ) (rs ps : List Pending) → ((r : Pending) → IsIn r ps → IsIn r rs) → IsCovered w rs ps
IsCovered-all w rs [] h = tt
IsCovered-all w rs (p ∷ ps) h = (inr (h p (inl refl)), IsCovered-all w rs ps (λ r m. h r (inr m)))

All-IsCovered : (w : ℕ) (ps : List Pending) → IsCovered w [] ps → All (λ r. r.worker ≢ w) ps
All-IsCovered w [] h = tt
All-IsCovered w (p ∷ ps) (inl apart, hs) = (apart, All-IsCovered w ps hs)
All-IsCovered w (p ∷ ps) (inr m, hs) = absurd m

module _ {V : Type 0} where
  pending-settle :
      (s : LocalEmbeddingProvider V) (id : ℕ) (o : Outcome V)
      → (settle s id o).pending ≡ remove s.pending id
  unfolding settle
  pending-settle s id o = elim (Option-cases (find s.pending id)) [
    | inl missing ↦ ground (arith, missing, remove-absent s.pending id missing)
    | inr (r, found) ↦ ground (arith, found)
  ]

  fail_all-none :
      (s : LocalEmbeddingProvider V) (rs : List Pending) (w : ℕ)
      → IsCovered w rs s.pending
      → All (λ r. r.worker ≢ w) (fail_all s rs w).pending
  unfolding fail_all
  fail_all-none s [] w h = All-IsCovered w s.pending h
  fail_all-none s (x ∷ rs) w h =
      fail_all-none (if x.worker == w then settle s x.id unavailable else s) rs w
        (elim (Bool-cases (x.worker == w)) [
          | inl mine ↦
              rw (mine, pending-settle s x.id unavailable) (IsCovered-remove w x rs s.pending h)
          | inr other ↦ rw other (IsCovered-skip w x rs s.pending (λ e. ground (arith, e, other)) h)
        ])

  -- When a worker is gone, no request waits for it any more.
  pub worker_gone-none :
      (s : LocalEmbeddingProvider V) (w : ℕ) → All (λ r. r.worker ≢ w) (worker_gone s w).pending
  unfolding worker_gone
  worker_gone-none s w =
      fail_all-none
        (if is_child s.child w then record s { child = none; idle_timer = false } else s) s.pending
        w
        (if_either (λ (t : LocalEmbeddingProvider V). IsCovered w s.pending t.pending)
          (is_child s.child w) (IsCovered-all w s.pending s.pending (λ r m. m))
          (IsCovered-all w s.pending s.pending (λ r m. m)))

  settle-IdleIsValid :
      (s : LocalEmbeddingProvider V) (id : ℕ) (o : Outcome V)
      → IdleIsValid s
      → IdleIsValid (settle s id o)
  unfolding settle
  settle-IdleIsValid s id o h e = elim (Option-cases (find s.pending id)) [
    | inl missing ↦ ground (arith, missing, h, e)
    | inr (r, found) ↦ elim (Bool-cases (is_empty (remove s.pending id) && is_some s.child)) [
      | inl last ↦ ground (arith, found, last, is_empty-eq (remove s.pending id))
      | inr more ↦ absurd (find-nil s.pending id r found (h (ground (arith, found, more, e))).0)
    ]
  ]

  fail_all-IdleIsValid :
      (s : LocalEmbeddingProvider V) (rs : List Pending) (w : ℕ)
      → IdleIsValid s
      → IdleIsValid (fail_all s rs w)
  unfolding fail_all
  fail_all-IdleIsValid s [] w h = h
  fail_all-IdleIsValid s (r ∷ rs) w h =
      fail_all-IdleIsValid (if r.worker == w then settle s r.id unavailable else s) rs w
        (if_either IdleIsValid (r.worker == w) (settle-IdleIsValid s r.id unavailable h) h)

  step-IdleIsValid :
      (s : LocalEmbeddingProvider V) (e : Event V) → IdleIsValid s → IdleIsValid (step s e)
  unfolding step worker_gone stop request
  step-IdleIsValid s requested h = λ e. absurd (ground (arith, e))
  step-IdleIsValid s (answered id o) h = settle-IdleIsValid s id o h
  step-IdleIsValid s (gone w) h =
      fail_all-IdleIsValid
        (if is_child s.child w then record s { child = none; idle_timer = false } else s) s.pending
        w (if_either IdleIsValid (is_child s.child w) (λ e. absurd (ground (arith, e))) h)
  step-IdleIsValid s idle h = if_either IdleIsValid s.idle_timer (λ e. absurd (ground (arith, e))) h
  step-IdleIsValid s stopped h = λ e. absurd (ground (arith, e))

  steps-IdleIsValid :
      (s : LocalEmbeddingProvider V) (es : List (Event V))
      → IdleIsValid s
      → IdleIsValid (steps s es)
  unfolding steps
  steps-IdleIsValid s [] h = h
  steps-IdleIsValid s (e ∷ es) h = steps-IdleIsValid (step s e) es (step-IdleIsValid s e h)

  -- Whatever happened before, the idle timer runs only while a worker is up and no request is
  -- pending: when it stops the worker, no request is lost.
  pub init-steps-IdleIsValid : (es : List (Event V)) → IdleIsValid (steps (init {Vectors = V}) es)
  init-steps-IdleIsValid es = steps-IdleIsValid init es (λ e. cc e)
