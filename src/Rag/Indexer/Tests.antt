-- ===== src/Rag/Indexer/Tests.antt =====
-- Rounds at concrete inputs.
use notes_md_app_be.Prelude.{
  ℕ, ◌+◌, ◌≡◌, refl, String, true, false, Option, some, List, [], ◌∷◌, str_eq, if◌then◌else◌, arith,
  Bool-cases, inl, inr, eq_iff,
}
use notes_md_app_be.Prelude.Map
use notes_md_app_be.Prelude.Map.{Map}
use notes_md_app_be.Rag.Indexer.{
  FailedNote, RagIndexerService, Attempt, done, failed, Round, init, index_pending, embed_all,
  notes_waiting_for_retry,
}
use notes_md_app_be.Rag.Indexer.Backoff.{fail_at, get-fail_at}
use notes_md_app_be.Rag.Indexer.Embedding.{each, embed_all-each}
use notes_md_app_be.Rag.Indexer.Rounds.{among, IsAfter, index_pending-finished}

-- Doubling stands for the model.
abbrev embed : List ℕ → Option (List ℕ)
embed ts = some (each (λ n. n + n) ts)

embed_all-each_example : embed_all embed (1 ∷ 2 ∷ 3 ∷ []) ≡ some (2 ∷ 4 ∷ 6 ∷ [])
embed_all-each_example = embed_all-each (λ n. n + n) embed (λ batch h. refl) (1 ∷ 2 ∷ 3 ∷ [])

get-fail_at_example :
    Map.get (fail_at [] "n" (1000 ∷ 70000 ∷ 500000 ∷ [])) "n"
    ≡ some (record { attempts = 3; retry_at = 740000 })
unfolding Map.get
get-fail_at_example = get-fail_at [] "n" (1000 ∷ 70000 ∷ []) 500000 refl

abbrev attempt : String → Attempt
attempt id = if str_eq id "b" then failed 5000 else done

-- The notes to index that are not left out.
abbrev without : List String → List String → List String
without out [] = []
without out (x ∷ xs) = let rest = without out xs in if among out x then rest else x ∷ rest

abbrev round : Round
round = record {
  index_batch_size = 2;
  index_debounce_ms = 10;
  find_notes_to_index = λ size before out. some (without out ("a" ∷ "b" ∷ []));
  attempt = attempt;
  found_at = 4000;
  waiting_at = 4000;
}

index_pending-finished_example :
    (failed_notes : Map FailedNote) × ((index_pending round init ≡ (
      record {
        running = false;
        unavailable = false;
        drain_next = true;
        failed_notes = failed_notes;
      },
      1,
    ))
      × IsAfter attempt [] ("a" ∷ "b" ∷ []) failed_notes)
unfolding notes_waiting_for_retry
index_pending-finished_example =
    index_pending-finished round init ("a" ∷ "b" ∷ []) refl refl (refl, (refl, tt))
      ((λ e. ground (arith, e)), ((λ e. ground (arith, e)), tt))

abbrev waiting : RagIndexerService
waiting = record init { failed_notes = ("b", record { attempts = 1; retry_at = 9000 }) ∷ [] }

among-without :
    (out xs : List String) (k : String) → among out k ≡ true → among (without out xs) k ≡ false
among-without out [] k h = refl
among-without out (x ∷ xs) k h = elim (Bool-cases (among out x)) [
  | inl gone ↦ rw gone (among-without out xs k h)
  | inr stays ↦ rw stays (ground (arith, eq_iff x k, among-without out xs k h, h, stays))
]
