-- ===== src/Sse.antt =====
-- claude_tap/sse.py: `SSEReassembler`. The object is a record; `feed_bytes` cuts the byte stream
-- into lines, `_feed_line` collects a frame, `add_event` records it, and `_accumulate` builds the
-- snapshot (Blocks and Chat), parts of which may be parts of recorded events too (Sharing).
-- `snapshot` is `null` where the source has None. `loads` is `json.loads`, `none` for a text that is
-- no JSON; `decode` is `bytes.decode` with replacement.
mod Blocks
pub mod Sharing
pub mod Chat
pub mod Lines
pub mod Frames
pub mod Deltas
pub mod Recorded
pub mod Kept
mod Tests
use mathlib.Core.List.{foldl}
use claude_tap.Base.{
  ℕ, zero, suc, Text, String, Bool, true, false, not, ◌&&◌, ◌||◌, Option, none, some, List, [], ◌∷◌,
  ◌++◌, if◌then◌else◌, get_or, is_some, is_nil, length, codes, text_eq, strip, rstrip_char,
  drop_prefix, split_first, join,
}
use claude_tap.Json.{Json, null, str, obj, Fields, end, is_obj, get, has}
use Blocks.{content_block_start, content_block_delta, content_block_stop, message_delta}
use Chat.{chat_completion_chunk, sets_usage}
use Sharing.{Event, Shared, unshare, share_items, seen_through}

-- The attributes but for the byte buffer; `shared` says which objects of the snapshot are in an event too.
pub record Parser : Type 0 where
  pub events : List Event
  pub current_event : Option Text
  pub data_lines : List Text
  pub snapshot : Json
  pub shared : Shared

pub record Reassembler : Type 0 where
  pub parser : Parser
  pub open parser use *
  pub buf : List ℕ

abbrev pub fresh_parser : Parser
fresh_parser = record {
  events = [];
  current_event = none;
  data_lines = [];
  snapshot = null;
  shared = [];
}

-- `__init__`.
abbrev pub fresh : Reassembler
fresh = record { parser = fresh_parser; buf = [] }

abbrev pub is_name : Text → String → Bool
is_name name literal = text_eq name (codes literal)

-- `response.created`, `response.completed`, `response.done`.
unfoldable pub take_response : Text → Fields → Json → Json
unfolding get
take_response name event snap =
    let response = get_or (get "response" event) null in
    if is_obj response
    then response
    else if is_name name "response.completed" || is_name name "response.done"
    then obj event
    else snap

abbrev reset : Parser → Parser
reset p = record p { current_event = none; data_lines = [] }

-- `self._current_event or "message"`.
unfoldable pub event_type : Option Text → Text
event_type (some (c ∷ s)) = c ∷ s
event_type _ = codes "message"

module _ (loads : Text → Option Json) where
  -- The branches below `self._snapshot is None: return`.
  unfoldable pub accumulate_block : Text → Fields → Fields → Fields
  unfolding content_block_start content_block_delta content_block_stop message_delta
  accumulate_block name event snap =
      if is_name name "content_block_start"
      then content_block_start snap event
      else if is_name name "content_block_delta"
      then content_block_delta snap event
      else if is_name name "content_block_stop"
      then content_block_stop loads snap event
      else if is_name name "message_delta"
      then message_delta snap event
      else snap

  on_snapshot : Text → Fields → Json → Json
  unfolding accumulate_block
  on_snapshot name event (obj snap) = obj (accumulate_block name event snap)
  on_snapshot name event snap = snap

  unfoldable pub accumulate : Text → Json → Json → Json
  unfolding take_response chat_completion_chunk on_snapshot get has text_eq
  accumulate name (obj event) snap =
      if is_name name "message_start"
      then get_or (get "message" event) (obj end)
      else if is_name name "response.created"
          || is_name name "response.completed"
          || is_name name "response.done"
      then take_response name event snap
      else if is_name name "message" && has "choices" event
      then chat_completion_chunk loads event snap
      else on_snapshot name event snap
  accumulate name payload snap = snap

  -- What the snapshot shares with the events, after event `i`: a snapshot that is replaced is a copy.
  unfoldable pub shares : Text → Json → (snapshot : Json) → (i : ℕ) → Shared → Shared
  unfolding get has text_eq unshare share_items sets_usage
  shares name (obj event) snap i shared =
      if is_name name "message_start"
      then []
      else if is_name name "response.created"
          || is_name name "response.completed"
          || is_name name "response.done"
      then if is_obj (get_or (get "response" event) null) || not (is_name name "response.created")
        then []
        else shared
      else if is_name name "message" && has "choices" event
      then if sets_usage loads event snap then unshare "usage" shared else shared
      else if is_name name "message_delta" && is_obj snap
      then elim (get_or (get "delta" event) (obj end)) [
        | obj delta ↦ share_items delta i shared
        | _ ↦ shared
      ]
      else shared
  shares name payload snap i shared = shared

  unfoldable pub add_event : Text → Json → Parser → Parser
  unfolding accumulate shares seen_through
  add_event name payload p =
      let snap = accumulate name payload p.snapshot in
      let shared = shares name payload p.snapshot (length p.events) p.shared in
      record p {
        events =
            seen_through snap shared (p.events ++ (record { name = name; payload = payload }) ∷ []);
        snapshot = snap;
        shared = shared;
      }

  abbrev parsed : Text → Json
  parsed raw = get_or (loads raw) (str raw)

  -- A blank line.
  unfoldable pub end_frame : Parser → Parser
  unfolding event_type join text_eq
  end_frame p =
      if is_some p.current_event || not (is_nil p.data_lines)
      then (let raw = join (codes "\n") p.data_lines in
          if text_eq raw (codes "[DONE]") && not (is_some p.current_event)
          then reset p
          else reset (add_event (event_type p.current_event) (parsed raw) p))
      else p

  data_line : Text → Parser → Parser
  unfolding drop_prefix strip end_frame
  data_line line p = elim (drop_prefix (codes "data:") line) [
    | some rest ↦ record p { data_lines = p.data_lines ++ strip rest ∷ [] }
    | none ↦ if is_nil line then end_frame p else p
  ]

  stripped_line : Text → Parser → Parser
  unfolding drop_prefix strip data_line
  stripped_line line p = elim (drop_prefix (codes "event:") line) [
    | some rest ↦ record p { current_event = some (strip rest); data_lines = [] }
    | none ↦ data_line line p
  ]

  unfoldable pub feed_line : Text → Parser → Parser
  unfolding stripped_line rstrip_char
  feed_line line p = stripped_line (rstrip_char b'\r' line) p

  module _ (decode : List ℕ → Text) where
    -- The `while` loop of `feed_bytes`: a round takes one line off the buffer.
    unfoldable pub drain : ℕ → Reassembler → Reassembler
    unfolding split_first
    drain zero r = r
    drain (suc fuel) r = elim (split_first b'\n' r.buf) [
      | none ↦ r
      | some (line, rest) ↦
          drain fuel (record { parser = feed_line (decode line) r.parser; buf = rest })
    ]

    -- As many rounds as there are bytes are enough.
    unfoldable pub feed_bytes : List ℕ → Reassembler → Reassembler
    unfolding drain
    feed_bytes chunk r = let r' = record r { buf = r.buf ++ chunk } in drain (length r'.buf) r'

    -- The calls that a response stream makes, one for each chunk that arrives.
    unfoldable pub feed_all : List (List ℕ) → Reassembler → Reassembler
    feed_all [] r = r
    feed_all (chunk ∷ chunks) r = feed_all chunks (feed_bytes chunk r)
