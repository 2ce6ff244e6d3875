-- ===== src/Ai/ChatHistory/Tests.antt =====
-- A chat at a concrete input.
use notes_md_app_be.Prelude.{◌+◌, ◌-◌, ◌≤◌, ◌≡◌, List, [], ◌∷◌, ◌++◌, arith}
use notes_md_app_be.Ai.ChatHistory.{ChatMessage, chat_history, chat_history_max_chars}
use notes_md_app_be.Ai.ChatHistory.Budget.{total, IsStopped, chat_history-longest}

abbrev hello : ChatMessage
hello = record { role = "user"; content = 104 ∷ 105 ∷ [] }

abbrev question : ChatMessage
question = record { role = "user"; content = 119 ∷ 63 ∷ [] }

chat_history-longest_example :
    (dropped : List ChatMessage) × ((hello ∷ [] ≡ dropped ++ chat_history (hello ∷ []) question)
      × ((total (chat_history (hello ∷ []) question) + 2 ≤ chat_history_max_chars)
          × IsStopped (chat_history_max_chars - 2) dropped (chat_history (hello ∷ []) question)))
chat_history-longest_example = chat_history-longest (hello ∷ []) question (omega arith)
