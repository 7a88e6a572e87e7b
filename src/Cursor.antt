-- ===== src/Cursor.antt =====
-- claude_tap/cursor_transcript.py: the transcripts that Cursor leaves, as records. The search for the
-- files on disk is left out.
pub mod Transcript
pub mod Records
mod Tests
