-- ===== src/Rag/Indexer/Rounds.antt =====
-- What a round does to the notes that it finds, and to those that it does not.
use notes_md_app_be.Prelude.{
  ℕ, ◌+◌, ◌-◌, ◌<◌, ◌≡◌, ◌≢◌, refl, ap, String, Bool, true, false, Option, none, some, List, [],
  ◌∷◌, length, leb, if◌then◌else◌, str_eq, eq_iff, eq_refl, arith, ◌∙◌, subst, All, count_if,
  Bool-cases, Option-cases, inl, inr, ◌⊎◌,
}
use notes_md_app_be.Prelude.Map
use notes_md_app_be.Prelude.Map.{Map, get-delete}
use notes_md_app_be.Rag.Indexer.{
  FailedNote, RagIndexerService, Attempt, done, failed, down, attempts_of, delay, mark_failed,
  notes_waiting_for_retry, index_all, Round, index_pending, finish,
}
use notes_md_app_be.Rag.Indexer.Backoff.{zero_plus, get-mark_failed}

abbrev pub among : List String → String → Bool
among [] id = false
among (x ∷ xs) id = if str_eq x id then true else among xs id

abbrev pub is_done : Attempt → Bool
is_done done = true
is_done (failed t) = false
is_done down = false

-- The entry of a note after an attempt.
abbrev pub after : Attempt → Option FailedNote → Option FailedNote
after done o = none
after (failed now) o =
    some (record { attempts = attempts_of o + 1; retry_at = now + delay (attempts_of o + 1) })
after down o = o

abbrev pub IsDistinct : List String → Type 0
IsDistinct [] = Unit
IsDistinct (x ∷ xs) = (among xs x ≡ false) × IsDistinct xs

Attempt-cases : (a : Attempt) → (a ≡ done) ⊎ (((now : ℕ) × (a ≡ failed now)) ⊎ (a ≡ down))
Attempt-cases done = inl refl
Attempt-cases (failed now) = inr (inl (now, refl))
Attempt-cases down = inr (inr refl)

module _ (attempt : String → Attempt) where
  index_all-done :
      (m : Map FailedNote) (n : ℕ) (id : String) (ids : List String)
      → attempt id ≡ done
      → index_all attempt m n (id ∷ ids) ≡ index_all attempt (Map.delete m id) (n + 1) ids
  unfolding index_all
  index_all-done m n id ids e = rw (e, index_all) refl

  index_all-failed :
      (m : Map FailedNote) (n : ℕ) (id : String) (ids : List String) (now : ℕ)
      → attempt id ≡ failed now
      → index_all attempt m n (id ∷ ids) ≡ index_all attempt (mark_failed m id now) n ids
  unfolding index_all
  index_all-failed m n id ids now e = rw (e, index_all) refl

  index_all-down :
      (m : Map FailedNote) (n : ℕ) (id : String) (ids : List String)
      → attempt id ≡ down
      → index_all attempt m n (id ∷ ids) ≡ (m, none)
  unfolding index_all
  index_all-down m n id ids e = rw (e, index_all) refl

  get-index_all :
      (m : Map FailedNote) (n : ℕ) (ids : List String) (k : String)
      → among ids k ≡ false
      → Map.get (index_all attempt m n ids).0 k ≡ Map.get m k
  unfolding index_all
  get-index_all m n [] k h = refl
  get-index_all m n (id ∷ ids) k h = elim (Attempt-cases (attempt id)) [
    | inl e ↦ rw (index_all-done m n id ids e) (
        ground
          (arith, eq_iff id k, get-index_all (Map.delete m id) (n + 1) ids k, get-delete m id k))
    | inr (inl (now, e)) ↦ rw (index_all-failed m n id ids now e) (
        ground (
          arith,
          eq_iff id k,
          get-index_all (mark_failed m id now) n ids k,
          get-mark_failed m id now k,
        ))
    | inr (inr e) ↦ rw (index_all-down m n id ids e) refl
  ]

  -- What a table of failures says of each note after the round.
  abbrev pub IsAfter : Map FailedNote → List String → Map FailedNote → Type 0
  IsAfter m ids m' =
      (k : String)
      → Map.get m' k ≡ (if among ids k then after (attempt k) (Map.get m k) else Map.get m k)

  -- One step of the round: the note's own entry, and no other.
  IsAfter-step :
      (m m1 m2 : Map FailedNote) (id : String) (ids : List String)
      → among ids id ≡ false
      → Map.get m1 id ≡ after (attempt id) (Map.get m id)
      → ((k : String) → str_eq id k ≡ false → Map.get m1 k ≡ Map.get m k)
      → IsAfter m1 ids m2
      → IsAfter m (id ∷ ids) m2
  IsAfter-step m m1 m2 id ids new own other g k = elim (Bool-cases (str_eq id k)) [
    | inl same ↦ rw same (
        subst (λ x. Map.get m2 x ≡ after (attempt x) (Map.get m x)) ((eq_iff id k).0 same)
          (g id ∙ rw new own))
    | inr differs ↦ rw (differs, ← other k differs) (g k)
  ]

  index_all-finished :
      (m : Map FailedNote) (n : ℕ) (ids : List String)
      → IsDistinct ids
      → All (λ id. attempt id ≢ down) ids
      → ((index_all attempt m n ids).1 ≡ some (n + count_if (λ id. is_done (attempt id)) ids))
        × IsAfter m ids (index_all attempt m n ids).0
  unfolding index_all
  index_all-finished m n [] u a = (ap some (omega arith), λ k. refl)
  index_all-finished m n (id ∷ ids) (new, u) (up, a) = elim (Attempt-cases (attempt id)) [
    | inl e ↦
        let (c, g) = index_all-finished (Map.delete m id) (n + 1) ids u a in
        rw (index_all-done m n id ids e) (
          c ∙ rw e (ap some (omega arith)),
          IsAfter-step m (Map.delete m id) (index_all attempt (Map.delete m id) (n + 1) ids).0 id
              ids new (get-delete m id id ∙ rw (eq_refl id, e) refl)
              (λ k d. get-delete m id k ∙ rw d refl) g,
        )
    | inr (inl (now, e)) ↦
        let (c, g) = index_all-finished (mark_failed m id now) n ids u a in
        rw (index_all-failed m n id ids now e) (
          c ∙ rw e (ap some (omega arith)),
          IsAfter-step m (mark_failed m id now) (index_all attempt (mark_failed m id now) n ids).0
              id ids new (get-mark_failed m id now id ∙ rw (eq_refl id, e) refl)
              (λ k d. get-mark_failed m id now k ∙ rw d refl) g,
        )
    | inr (inr e) ↦ elim (up e) [ ]
  ]

-- The query of a round.
abbrev pub found : Round → RagIndexerService → Option (List String)
found r s =
    r.find_notes_to_index r.index_batch_size (r.found_at - r.index_debounce_ms)
      (notes_waiting_for_retry s.failed_notes r.waiting_at)

index_pending-found :
    (r : Round) (s : RagIndexerService) (ids : List String)
    → s.running ≡ false
    → found r s ≡ some ids
    → index_pending r s
      ≡ finish (length ids) r.index_batch_size (index_all r.attempt s.failed_notes 0 ids)
unfolding index_pending
index_pending-found r s ids idle e = rw (idle, e) refl

finish-some :
    (fetched size : ℕ) (result : Map FailedNote × Option ℕ) (n : ℕ)
    → result.1 ≡ some n
    → finish fetched size result ≡ (
      record {
        running = false;
        unavailable = false;
        drain_next = leb size fetched;
        failed_notes = result.0;
      },
      n,
    )
finish-some fetched size (m, o) n e = rw e refl

failed_notes-finish :
    (fetched size : ℕ) (result : Map FailedNote × Option ℕ)
    → (finish fetched size result).0.failed_notes ≡ result.0
failed_notes-finish fetched size (m, none) = refl
failed_notes-finish fetched size (m, some n) = refl

-- A round in which the provider stays there goes through all notes that it found, however many of
-- them fail: it answers how many were indexed, the next round follows at once exactly if the batch
-- was full, every indexed note has no failure left, every failed one has one failure more and a new
-- time to retry, and the failures of all other notes stay.
pub index_pending-finished :
    (r : Round) (s : RagIndexerService) (ids : List String)
    → s.running ≡ false
    → found r s ≡ some ids
    → IsDistinct ids
    → All (λ id. r.attempt id ≢ down) ids
    → (failed_notes : Map FailedNote) × ((index_pending r s ≡ (
      record {
        running = false;
        unavailable = false;
        drain_next = leb r.index_batch_size (length ids);
        failed_notes = failed_notes;
      },
      count_if (λ id. is_done (r.attempt id)) ids,
    ))
        × IsAfter r.attempt s.failed_notes ids failed_notes)
index_pending-finished r s ids idle e u a =
    let (c, g) = index_all-finished r.attempt s.failed_notes 0 ids u a in
    (
      (index_all r.attempt s.failed_notes 0 ids).0,
      (
        index_pending-found r s ids idle e
            ∙ (finish-some (length ids) r.index_batch_size
                  (index_all r.attempt s.failed_notes 0 ids)
                  (0 + count_if (λ id. is_done (r.attempt id)) ids) c
                ∙ rw (zero_plus (count_if (λ id. is_done (r.attempt id)) ids)) refl),
        g,
      ),
    )

among-waiting :
    (m : Map FailedNote) (now : ℕ) (k : String) (f : FailedNote)
    → Map.get m k ≡ some f
    → now < f.retry_at
    → among (notes_waiting_for_retry m now) k ≡ true
unfolding Map.get notes_waiting_for_retry
among-waiting [] now k f e h = ground (arith, e)
among-waiting ((id, g) ∷ m) now k f e h = ground (arith, eq_iff id k, among-waiting m now k f)

-- If the query leaves out the ids that it is told to, then a note that waits for its retry keeps its
-- failures in every round, whatever becomes of the others.
pub index_pending-waiting :
    (r : Round) (s : RagIndexerService) (k : String) (f : FailedNote)
    → ((size before : ℕ) (left_out ids : List String)
        → r.find_notes_to_index size before left_out ≡ some ids
        → among left_out k ≡ true
        → among ids k ≡ false)
    → Map.get s.failed_notes k ≡ some f
    → r.waiting_at < f.retry_at
    → Map.get (index_pending r s).0.failed_notes k ≡ some f
unfolding index_pending
index_pending-waiting r s k f contract e h = elim (Bool-cases s.running) [
  | inl busy ↦ rw busy e
  | inr idle ↦ elim (Option-cases (found r s)) [
    | inl none_found ↦ rw (idle, none_found) e
    | inr (ids, some_found) ↦
        rw
          (
            index_pending-found r s ids idle some_found,
            failed_notes-finish (length ids) r.index_batch_size
                (index_all r.attempt s.failed_notes 0 ids),
          )
          (get-index_all r.attempt s.failed_notes 0 ids k (
              contract r.index_batch_size (r.found_at - r.index_debounce_ms)
                (notes_waiting_for_retry s.failed_notes r.waiting_at) ids some_found
                (among-waiting s.failed_notes r.waiting_at k f e h))
            ∙ e)
  ]
]
