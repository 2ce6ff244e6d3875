-- ===== src/Ai/ChatHistory.antt =====
-- modules/ai/utils/chatPrompt.ts: which messages of a chat are kept as its history in buildChatTask.
pub mod Budget
mod Tests
use notes_md_app_be.Prelude.{ℕ, ◌-◌, List, [], ◌∷◌, leb, ltb, if◌then◌else◌, length, String}
use notes_md_app_be.Text.{Text}

abbrev pub chat_history_max_chars : ℕ
chat_history_max_chars = 40000

pub record ChatMessage : Type 0 where
  pub role : String
  pub content : Text

-- The messages in the other order, before those of the second list.
unfoldable pub onto : List ChatMessage → List ChatMessage → List ChatMessage
onto [] ys = ys
onto (x ∷ xs) ys = onto xs (x ∷ ys)

-- The loop from the newest of the older messages on, while the next one fits.
unfoldable pub select : ℕ → List ChatMessage → List ChatMessage → List ChatMessage
select budget history [] = history
select budget history (m ∷ older) =
    let rest = select (budget - length m.content) (m ∷ history) older in
    if leb (length m.content) budget then rest else history

-- The history for the older messages, the oldest one first, and the last one.
unfoldable pub chat_history : List ChatMessage → ChatMessage → List ChatMessage
chat_history older last =
    if ltb chat_history_max_chars (length last.content)
    then []
    else select (chat_history_max_chars - length last.content) [] (onto older [])
