-- ===== src/Live/Tests.antt =====
-- claude_tap/live.py: runs of the theorems on a server and on a file.
use claude_tap.Base.{
  ◌≤◌, Text, true, false, Option, none, some, [], ◌∷◌, ◌++◌, ◌≡◌, ◌⊎◌, refl, arith, codes, text_eq,
  if◌then◌else◌, strip, length, lookup, keep, All, any,
}
use claude_tap.Json.{pos, Json, null, num, str, obj, Fields, end, field}
use claude_tap.Session.Index.{Row, get_session}
use claude_tap.Live.Buffers.{Live, is_active, open_session_buffer}
use claude_tap.Live.Buffers.Eviction.{open_session_buffer-bound, open_session_buffer-full}
use claude_tap.Live.Buffers.Replay.{broadcast_all, records_of, with_records, lookup-broadcast_all}
use claude_tap.Live.Loading.{is_line_end, load_session_records}
use claude_tap.Live.Loading.Written.{
  asked_for, written_text, IsDumped, load_session_records-written_text,
}

abbrev watched : Live
watched = record {
  max_sessions = 1;
  sse_clients = (record { id = 1; session = codes "a" }) ∷ [];
  session_buffers = (codes "a", null ∷ []) ∷ [];
}

open_session_buffer-bound_example :
    ((length (open_session_buffer (codes "b") watched).1.session_buffers ≤ watched.max_sessions)
      ⊎ All
          (λ b. is_active watched.sse_clients b.0 ≡ true)
          (open_session_buffer (codes "b") watched).1.session_buffers)
    × ((is_active watched.sse_clients (codes "a") ≡ false)
        ⊎ (text_eq (codes "b") (codes "a") ≡ true)
        ⊎ (lookup (codes "a") (open_session_buffer (codes "b") watched).1.session_buffers
            ≡ lookup (codes "a") watched.session_buffers))
unfolding lookup is_active text_eq any
open_session_buffer-bound_example = open_session_buffer-bound (codes "b") (codes "a") watched refl

open_session_buffer-full_example : open_session_buffer (codes "b") watched ≡ ([], watched)
unfolding lookup is_active text_eq any
open_session_buffer-full_example =
    open_session_buffer-full (codes "b") watched (refl, tt) (omega arith) refl refl

abbrev text_of_value : Json → Text
text_of_value (str s) = s
text_of_value _ = []

abbrev record_a : Fields
record_a = field "claw_session_id" (str (codes "a")) (field "turn" (num (pos 2)) end)

abbrev record_b : Fields
record_b = field "claw_session_id" (str (codes "b")) end

lookup-broadcast_all_example :
    lookup
      (codes "a")
      (broadcast_all text_of_value (λ c. false) (record_a ∷ record_b ∷ []) watched).session_buffers
    ≡ with_records
        (records_of text_of_value (λ c. false) (codes "a") (record_a ∷ record_b ∷ []))
        (lookup (codes "a") watched.session_buffers)
unfolding lookup text_eq
lookup-broadcast_all_example =
    lookup-broadcast_all text_of_value (λ c. false) (codes "a") (record_a ∷ record_b ∷ []) watched
      (omega arith)

abbrev row_a : Row
row_a = record {
  claw_session_id = codes "a";
  storage_slug = codes "a";
  jsonl_relpath = codes "a.jsonl";
  created_at = 1;
  updated_at = 2;
  first_calendar_date = none;
  last_calendar_date = none;
  last_turn = 2;
}

-- One record, as the line `{`.
abbrev dump : Fields → Text
dump r = codes "{"

abbrev load : Text → Option Json
unfolding text_eq
load s = if text_eq s (codes "{") then some (obj record_a) else none

record_a-IsDumped : IsDumped load dump record_a
unfolding load text_eq strip is_line_end
record_a-IsDumped = record { one_line = (refl, tt); trimmed = refl; given = refl; parsed = refl }

load_session_records-written_text_example :
    load_session_records load
      (λ s. none)
      (row_a ∷ [])
      (λ path. some (codes "{" ++ (10 ∷ [])))
      (codes "a")
      1
    ≡ keep (asked_for load (λ s. none) 1) (record_a ∷ [])
unfolding get_session text_eq written_text
load_session_records-written_text_example =
    load_session_records-written_text load (λ s. none) dump (row_a ∷ [])
      (λ path. some (codes "{" ++ (10 ∷ []))) (codes "a") row_a 1 (record_a ∷ []) refl refl
      (record_a-IsDumped, tt)
