-- ===== src/Ai/ChatHistory/Budget.antt =====
-- The history is as long as it can be.
use notes_md_app_be.Prelude.{
  ℕ, ◌+◌, ◌-◌, ◌≤◌, ◌<◌, ◌≡◌, refl, sym, subst, ap, List, [], ◌∷◌, ◌++◌, leb, ltb, false, length,
  arith, Bool-cases, inl, inr, ◌⊎◌, ◌∙◌,
}
use notes_md_app_be.Ai.ChatHistory.{ChatMessage, onto, select, chat_history, chat_history_max_chars}

abbrev pub total : List ChatMessage → ℕ
total [] = 0
total (m ∷ ms) = length m.content + total ms

append_assoc : (a b c : List ChatMessage) → (a ++ b) ++ c ≡ a ++ (b ++ c)
append_assoc [] b c = refl
append_assoc (x ∷ a) b c = ap (λ ys. x ∷ ys) (append_assoc a b c)

onto-append : (xs ys : List ChatMessage) → onto xs ys ≡ onto xs [] ++ ys
unfolding onto
onto-append [] ys = refl
onto-append (x ∷ xs) ys =
    onto-append xs (x ∷ ys)
    ∙ (sym (append_assoc (onto xs []) (x ∷ []) ys)
        ∙ ap (λ zs. zs ++ ys) (sym (onto-append xs (x ∷ []))))

onto-onto : (xs ys : List ChatMessage) → onto (onto xs ys) [] ≡ onto ys xs
unfolding onto
onto-onto [] ys = refl
onto-onto (x ∷ xs) ys = onto-onto xs (x ∷ ys)

-- Nothing was dropped, or the newest message that was dropped does not fit.
abbrev pub IsStopped : ℕ → List ChatMessage → List ChatMessage → Type 0
IsStopped budget dropped history =
    (dropped ≡ [])
    ⊎ ((rest : List ChatMessage) × ((m : ChatMessage) × ((dropped ≡ rest ++ m ∷ [])
            × (budget < total history + length m.content))))

abbrev IsSelected : ℕ → List ChatMessage → List ChatMessage → List ChatMessage → Type 0
IsSelected budget history older chosen =
    (dropped : List ChatMessage) × ((onto older history ≡ dropped ++ chosen)
      × ((total chosen ≤ budget + total history)
          × IsStopped (budget + total history) dropped chosen))

onto-dropped :
    (m : ChatMessage) (older history : List ChatMessage)
    → onto (m ∷ older) history ≡ (onto older [] ++ m ∷ []) ++ history
unfolding onto
onto-dropped m older history =
    onto-append older (m ∷ history) ∙ sym (append_assoc (onto older []) (m ∷ []) history)

fits : (b l h : ℕ) → l ≤ b → b - l + (l + h) ≡ b + h
fits b l h k = omega (arith, k)

select-IsSelected :
    (budget : ℕ) (history older : List ChatMessage)
    → IsSelected budget history older (select budget history older)
unfolding select onto
select-IsSelected budget history [] = ([], (refl, (omega arith, inl refl)))
select-IsSelected budget history (m ∷ older) = elim (Bool-cases (leb (length m.content) budget)) [
  | inl room ↦
      let (dropped, (split, (small, stop))) =
        select-IsSelected (budget - length m.content) (m ∷ history) older in
      let same = fits budget (length m.content) (total history) (ground (arith, room)) in
      rw room (dropped, (split, (rw (← same) small, rw (← same) stop)))
  | inr over ↦ rw over (
    onto older [] ++ m ∷ [],
    (
      onto-dropped m older history,
      (omega arith, inr (onto older [], (m, (refl, ground (arith, over))))),
    ),
  )
]

plus_zero : (n : ℕ) → n + 0 ≡ n
plus_zero n = omega arith

-- If the last message is within the limit, the history is the newest of the older messages in their
-- order, history and last message together are within the limit, and with one older message more,
-- if there is one, they would not be.
pub chat_history-longest :
    (older : List ChatMessage) (last : ChatMessage)
    → length last.content ≤ chat_history_max_chars
    → (dropped : List ChatMessage) × ((older ≡ dropped ++ chat_history older last)
        × ((total (chat_history older last) + length last.content ≤ chat_history_max_chars)
            × IsStopped
                (chat_history_max_chars - length last.content)
                dropped
                (chat_history older last)))
unfolding chat_history onto
chat_history-longest older last h =
    let small : ltb chat_history_max_chars (length last.content) ≡ false = ground (arith, h) in
    let (dropped, (split, (fit, stop))) =
      select-IsSelected (chat_history_max_chars - length last.content) [] (onto older []) in
    rw small (
      dropped,
      (
        (sym (onto-onto older []) ∙ split),
        (
          omega (arith, fit, h),
          subst
              (λ b.
                IsStopped b dropped
                  (select (chat_history_max_chars - length last.content) [] (onto older [])))
              (plus_zero (chat_history_max_chars - length last.content)) stop,
        ),
      ),
    )
