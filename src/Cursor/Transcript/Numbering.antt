-- ===== src/Cursor/Transcript/Numbering.antt =====
-- claude_tap/cursor_transcript.py, `_assistant_steps`: the numbers of the steps.
use claude_tap.Base.{
  ℕ, ◌+◌, ◌<◌, Text, Option, none, some, List, [], ◌∷◌, ◌≡◌, ◌⊎◌, inl, inr, refl, arith, All,
  All-mono,
}
use claude_tap.Cursor.Transcript.{
  Message, message, user, assistant, CursorStep, text_from_blocks, steps_from, assistant_steps,
}

-- A step has a later turn than the one given, or a later step of the same turn.
abbrev pub IsAfter : (turn step : ℕ) → CursorStep → Type 0
IsAfter turn step s = (turn < s.cursor_turn) ⊎ ((turn ≡ s.cursor_turn) × (step < s.cursor_step))

-- Each step comes after all that stand before it.
abbrev pub IsOrdered : List CursorStep → Type 0
IsOrdered [] = Unit
IsOrdered (s ∷ steps) = All (IsAfter s.cursor_turn s.cursor_step) steps × IsOrdered steps

later_turn : (turn step : ℕ) (s : CursorStep) → IsAfter (turn + 1) 0 s → IsAfter turn step s
later_turn turn step s (inl h) = inl (omega arith)
later_turn turn step s (inr (e, h)) = inl (omega (arith, e))

later_step : (turn step : ℕ) (s : CursorStep) → IsAfter turn (step + 1) s → IsAfter turn step s
later_step turn step s (inl h) = inl h
later_step turn step s (inr (e, h)) = inr (e, omega arith)

steps_from-IsAfter :
    (pending_user : Option Text) (turn step : ℕ) (messages : List Message)
    → All (IsAfter turn step) (steps_from pending_user turn step messages)
unfolding steps_from
steps_from-IsAfter pending_user turn step [] = tt
steps_from-IsAfter pending_user turn step (message user blocks ∷ messages) =
    All-mono (IsAfter (turn + 1) 0) (IsAfter turn step) (later_turn turn step) _
      (steps_from-IsAfter (some (text_from_blocks blocks)) (turn + 1) 0 messages)
steps_from-IsAfter none turn step (message assistant blocks ∷ messages) =
    steps_from-IsAfter none turn step messages
steps_from-IsAfter (some text) turn step (message assistant blocks ∷ messages) = (
  inr (refl, omega arith),
  All-mono (IsAfter turn (step + 1)) (IsAfter turn step) (later_step turn step) _
      (steps_from-IsAfter (some text) turn (step + 1) messages),
)

steps_from-IsOrdered :
    (pending_user : Option Text) (turn step : ℕ) (messages : List Message)
    → IsOrdered (steps_from pending_user turn step messages)
unfolding steps_from
steps_from-IsOrdered pending_user turn step [] = tt
steps_from-IsOrdered pending_user turn step (message user blocks ∷ messages) =
    steps_from-IsOrdered (some (text_from_blocks blocks)) (turn + 1) 0 messages
steps_from-IsOrdered none turn step (message assistant blocks ∷ messages) =
    steps_from-IsOrdered none turn step messages
steps_from-IsOrdered (some text) turn step (message assistant blocks ∷ messages) = (
  steps_from-IsAfter (some text) turn (step + 1) messages,
  steps_from-IsOrdered (some text) turn (step + 1) messages,
)

-- The steps of a transcript are numbered in a strict order: of two steps the later one has a later turn,
-- or is a later step of the same turn; so no two of its records have the same turn and step.
pub assistant_steps-IsOrdered : (messages : List Message) → IsOrdered (assistant_steps messages)
unfolding assistant_steps
assistant_steps-IsOrdered messages = steps_from-IsOrdered none 0 0 messages
