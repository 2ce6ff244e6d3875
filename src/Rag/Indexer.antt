-- ===== src/Rag/Indexer.antt =====
-- modules/ai/rag/ragIndexer.service.ts: one round of the background indexer. What indexing a note
-- comes to (`indexNote`: an embedding provider and a database) and which notes the database finds are
-- arguments; the clock readings stand beside them.
pub mod Rounds
pub mod Backoff
pub mod Embedding
mod Tests
use notes_md_app_be.Prelude.{
  ℕ, zero, suc, ◌+◌, ◌-◌, ◌*◌, ◌^◌, min, String, Bool, true, false, not, Option, none, some, List,
  [], ◌∷◌, ◌++◌, ltb, leb, map, if◌then◌else◌, length, take, drop, or_else,
}
use notes_md_app_be.Prelude.Map
use notes_md_app_be.Prelude.Map.{Map}

abbrev pub embed_batch : ℕ
embed_batch = 32

abbrev pub retry_base_ms : ℕ
retry_base_ms = 60000

abbrev pub retry_max_ms : ℕ
retry_max_ms = 60 * 60000

abbrev pub drain_delay_ms : ℕ
drain_delay_ms = 250

pub record FailedNote : Type 0 where
  pub attempts : ℕ
  pub retry_at : ℕ

pub record RagIndexerService : Type 0 where
  pub running : Bool
  pub unavailable : Bool
  pub drain_next : Bool
  pub failed_notes : Map FailedNote

abbrev pub init : RagIndexerService
init = record { running = false; unavailable = false; drain_next = false; failed_notes = [] }

-- How indexing one note ends: done, failed with an error of its own at a time, or the provider is
-- not there.
pub data Attempt : Type 0 where
  done : Attempt
  failed : ℕ → Attempt
  down : Attempt

abbrev pub attempts_of : Option FailedNote → ℕ
attempts_of none = 0
attempts_of (some f) = f.attempts

unfoldable pub delay : ℕ → ℕ
delay attempts = min (retry_base_ms * 2 ^ (attempts - 1)) retry_max_ms

unfoldable pub mark_failed : Map FailedNote → String → ℕ → Map FailedNote
mark_failed failed_notes id now =
    let attempts = attempts_of (Map.get failed_notes id) + 1 in
    Map.set failed_notes id (record { attempts = attempts; retry_at = now + delay attempts })

unfoldable pub notes_waiting_for_retry : Map FailedNote → ℕ → List String
notes_waiting_for_retry [] now = []
notes_waiting_for_retry ((id, f) ∷ m) now =
    let rest = notes_waiting_for_retry m now in if ltb now f.retry_at then id ∷ rest else rest

-- The loop over the notes of a round; `none`: the provider went away, and the round is over.
unfoldable pub index_all :
    (String → Attempt) → Map FailedNote → ℕ → List String → Map FailedNote × Option ℕ
index_all attempt failed_notes indexed [] = (failed_notes, some indexed)
index_all attempt failed_notes indexed (id ∷ ids) = elim (attempt id) [
  | done ↦ index_all attempt (Map.delete failed_notes id) (indexed + 1) ids
  | failed now ↦ index_all attempt (mark_failed failed_notes id now) indexed ids
  | down ↦ (failed_notes, none)
]

-- The settings, and what a round finds outside: the notes to index for a batch size, a time before
-- which they were changed and ids to leave out (`none`: the query fails), and two clock readings.
pub record Round : Type 0 where
  pub index_batch_size : ℕ
  pub index_debounce_ms : ℕ
  pub find_notes_to_index : ℕ → ℕ → List String → Option (List String)
  pub attempt : String → Attempt
  pub found_at : ℕ
  pub waiting_at : ℕ

-- The `catch` of a round.
abbrev pub paused : Map FailedNote → RagIndexerService × ℕ
paused failed_notes = (
  record { running = false; unavailable = true; drain_next = false; failed_notes = failed_notes },
  0,
)

abbrev pub finish : ℕ → ℕ → Map FailedNote × Option ℕ → RagIndexerService × ℕ
finish fetched batch_size (failed_notes, none) = paused failed_notes
finish fetched batch_size (failed_notes, some indexed) = (
  record {
    running = false;
    unavailable = false;
    drain_next = leb batch_size fetched;
    failed_notes = failed_notes;
  },
  indexed,
)

unfoldable pub index_pending : Round → RagIndexerService → RagIndexerService × ℕ
index_pending r s =
    if s.running
    then (s, 0)
    else elim (r.find_notes_to_index r.index_batch_size (r.found_at - r.index_debounce_ms)
        (notes_waiting_for_retry s.failed_notes r.waiting_at)) [
          | none ↦ paused s.failed_notes
          | some notes ↦
              finish (length notes) r.index_batch_size (index_all r.attempt s.failed_notes 0 notes)
        ]

-- The delay of the next round, while the timer is set.
unfoldable pub next_round : Bool → ℕ → RagIndexerService → Option ℕ
next_round timer index_interval_ms s =
    if timer then some (if s.drain_next then drain_delay_ms else index_interval_ms) else none

-- The loop of `indexNote` that embeds the texts of a note in batches, with as much fuel as texts;
-- `none`: the provider throws.
unfoldable pub embed_from {ℓ κ} :
    {Text : Type ℓ} {Vector : Type κ}
    → (List Text → Option (List Vector))
    → ℕ
    → List Text
    → List Vector
    → Option (List Vector)
embed_from embed fuel [] vectors = some vectors
embed_from embed zero (t ∷ ts) vectors = none
embed_from embed (suc fuel) (t ∷ ts) vectors = elim (embed (take embed_batch (t ∷ ts))) [
  | none ↦ none
  | some batch ↦ embed_from embed fuel (drop embed_batch (t ∷ ts)) (vectors ++ batch)
]

unfoldable pub embed_all {ℓ κ} :
    {Text : Type ℓ} {Vector : Type κ}
    → (List Text → Option (List Vector))
    → List Text
    → Option (List Vector)
embed_all embed texts = embed_from embed (length texts) texts []
