-- ===== src/Cursor/Tests.antt =====
-- claude_tap/cursor_transcript.py: a run of the theorem on a transcript.
use claude_tap.Base.{List, [], ◌∷◌, codes}
use claude_tap.Cursor.Transcript.{text_block, Message, message, user, assistant, assistant_steps}
use claude_tap.Cursor.Transcript.Numbering.{IsOrdered, assistant_steps-IsOrdered}

abbrev two_turns : List Message
two_turns =
    message user (text_block (codes "hi") ∷ [])
    ∷ message assistant (text_block (codes "hello") ∷ [])
    ∷ message assistant (text_block (codes "more") ∷ [])
    ∷ message user (text_block (codes "bye") ∷ [])
    ∷ message assistant (text_block (codes "bye") ∷ [])
    ∷ []

assistant_steps-IsOrdered_example : IsOrdered (assistant_steps two_turns)
assistant_steps-IsOrdered_example = assistant_steps-IsOrdered two_turns
