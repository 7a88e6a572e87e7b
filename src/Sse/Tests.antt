-- ===== src/Sse/Tests.antt =====
-- claude_tap/sse.py: runs of the theorems on small streams.
use mathlib.Core.List.{flatten}
use claude_tap.Base.{
  ℕ, Text, Option, none, some, List, [], ◌∷◌, ◌++◌, ◌≡◌, ◌≢◌, refl, codes, map, if◌then◌else◌,
  text_eq, split_first, join, is_space, arith,
}
use claude_tap.Json.{Json, str, num, pos, arr, obj, nil, cons, end, field, get, at, item?}
use claude_tap.Sse.{feed_line, fresh, fresh_parser, feed_all, feed_bytes, add_event, parsed, reset}
use claude_tap.Sse.Lines.{feed_all-flatten}
use claude_tap.Sse.Frames.{header, data_of, between, feed_lines, feed_lines-named, feed_lines-bare}
use claude_tap.Sse.Sharing.{Event}
use claude_tap.Sse.Recorded.{event_at}
use claude_tap.Sse.Kept.{event_at-feed_all}
use claude_tap.Sse.Deltas.{text_at, block_at, deltas, text_at-deltas}

-- A parser that knows two documents.
abbrev some_loads : Text → Option Json
some_loads s =
    if text_eq s (codes "{}")
    then some (obj end)
    else if text_eq s (codes "M")
    then some (obj (field "message" (obj (field "id" (num (pos 7)) end)) end))
    else none

abbrev same : List ℕ → Text
same b = b

-- A stream of two frames, cut inside a line and before the blank line.
abbrev cut_stream : List (List ℕ)
cut_stream = codes "event: message_sta" ∷ codes "rt\ndata: M\n" ∷ codes "\ndata: {}\n\n" ∷ []

feed_all-flatten_example :
    feed_all some_loads same cut_stream fresh
    ≡ feed_bytes some_loads same (flatten cut_stream) fresh
unfolding split_first
feed_all-flatten_example = feed_all-flatten some_loads same cut_stream fresh refl

abbrev two_data : List Text
two_data = codes "a" ∷ codes "b c" ∷ []

feed_lines-named_example :
    feed_lines some_loads ((header (codes "ping") ∷ map data_of two_data) ++ [] ∷ []) fresh_parser
    ≡ reset (
        add_event some_loads
          (codes "ping")
          (parsed some_loads (join (codes "\n") two_data))
          fresh_parser)
unfolding is_space
feed_lines-named_example =
    feed_lines-named some_loads b'p' (codes "ing") two_data fresh_parser (refl, refl)
      ((refl, refl), ((refl, refl), tt))

feed_lines-bare_example :
    feed_lines some_loads (map data_of two_data ++ [] ∷ []) (between [] (num (pos 0)) []) ≡ (
      if text_eq (join (codes "\n") two_data) (codes "[DONE]")
      then between [] (num (pos 0)) []
      else add_event some_loads
          (codes "message")
          (parsed some_loads (join (codes "\n") two_data))
          (between [] (num (pos 0)) []))
unfolding is_space
feed_lines-bare_example =
    feed_lines-bare some_loads (codes "a") (codes "b c" ∷ []) [] (num (pos 0)) []
      ((refl, refl), ((refl, refl), tt))

-- A snapshot with one block that holds the text `He`.
abbrev one_block : Json
one_block = obj (
    field "content"
      (arr
        (cons (obj (field "type" (str (codes "text")) (field "text" (str (codes "He")) end))) nil))
      end)

abbrev pieces : List Text
pieces = codes "llo" ∷ codes "!" ∷ []

zero≢one : ◌≢◌ {A = ℕ} 0 1
zero≢one e = omega arith

text_at-deltas_example :
    (text_at 0 (deltas some_loads 0 pieces one_block) ≡ some (str (codes "He" ++ flatten pieces)))
    × (block_at 1 (deltas some_loads 0 pieces one_block) ≡ block_at 1 one_block)
unfolding text_at get at item?
text_at-deltas_example = text_at-deltas some_loads 0 1 (codes "He") pieces one_block refl zero≢one

-- A content that a `message_delta` brings is in the snapshot and in the event: the text that is added to
-- it is seen in both.
abbrev content_event : Text → Json
content_event s = obj (
    field "delta" (obj (field "content" (arr (cons (obj (field "text" (str s) end)) nil)) end)) end)

abbrev added_text : Json
added_text = obj (
    field "delta"
      (obj (field "type" (str (codes "text_delta")) (field "text" (str (codes "b")) end))) end)

shared_content :
    (add_event some_loads (codes "content_block_delta") added_text (
      add_event some_loads
        (codes "message_delta")
        (content_event (codes "a"))
        (between [] (obj end) []))).events
    ≡ (record { name = codes "message_delta"; payload = content_event (codes "ab") })
      ∷ (record { name = codes "content_block_delta"; payload = added_text })
      ∷ []
unfolding add_event
shared_content = refl

-- The first event of the stream is no `message_delta`.
abbrev first_event : Event
first_event = record {
  name = codes "message_start";
  payload = obj (field "message" (obj (field "id" (num (pos 7)) end)) end);
}

event_at-feed_all_example :
    event_at 0
      (feed_all some_loads same
        (codes "event: message_delta\ndata: {}\n\n" ∷ [])
        (feed_all some_loads same cut_stream fresh)).events
    ≡ some first_event
unfolding feed_all event_at text_eq feed_bytes feed_line add_event
event_at-feed_all_example =
    event_at-feed_all some_loads same cut_stream (codes "event: message_delta\ndata: {}\n\n" ∷ []) 0
      first_event refl refl
