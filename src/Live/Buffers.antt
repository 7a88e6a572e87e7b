-- ===== src/Live/Buffers.antt =====
-- claude_tap/live.py: what `LiveViewerServer` keeps of the sessions that a viewer watches, and what it
-- pushes to the viewers. `_session_buffers` is in the order of use; a viewer that is connected is a
-- number and the session it asked for. Whether writing to a viewer works is a parameter. `shown` is
-- `str` on a value. A method runs with no other task in between.
pub mod Replay
pub mod Eviction
use claude_tap.Base.{
  ℕ, zero, suc, ◌+◌, ◌-◌, Text, Bool, true, false, not, ◌&&◌, Option, none, some, List, [], ◌∷◌,
  ◌++◌, if◌then◌else◌, length, drop, keep, any, map, ltb, text_eq, is_some, is_nil, String, ◌==◌,
  Dict, lookup, erase, get_or,
}
use claude_tap.Json.{Json, num, arr, obj, Fields, pos, get, set, remove, count, truthy}

-- `_SSE_REPLAY_MAX`
abbrev pub sse_replay_max : ℕ
sse_replay_max = 1000

pub record Viewer : Type 0 where
  pub id : ℕ
  pub session : Text

pub record Live : Type 0 where
  pub max_sessions : ℕ
  pub sse_clients : List Viewer
  pub session_buffers : Dict (List Json)

-- `sid in self._active_sse_sessions()`
unfoldable pub is_active : List Viewer → Text → Bool
unfolding any text_eq
is_active clients session = any (λ c. text_eq c.session session) clients

-- The oldest session without a viewer.
unfoldable pub victim : List Viewer → Dict (List Json) → Option Text
unfolding is_active
victim clients [] = none
victim clients ((session, records) ∷ buffers) =
    if is_active clients session then victim clients buffers else some session

-- The loop of `_evict_lru`; each round takes a buffer away.
unfoldable pub evict : (rounds : ℕ) → ℕ → List Viewer → Dict (List Json) → Dict (List Json)
unfolding victim erase
evict zero max_sessions clients buffers = buffers
evict (suc rounds) max_sessions clients buffers =
    if ltb max_sessions (length buffers)
    then elim (victim clients buffers) [
      | none ↦ buffers
      | some session ↦ evict rounds max_sessions clients (erase session buffers)
    ]
    else buffers

unfoldable pub evict_lru : Live → Live
unfolding evict
evict_lru s = record s {
  session_buffers = evict (length s.session_buffers) s.max_sessions s.sse_clients s.session_buffers;
}

-- A session is set to a buffer and moved to the end.
unfoldable pub move_to_end : Text → List Json → Dict (List Json) → Dict (List Json)
unfolding keep text_eq
move_to_end session records buffers =
    keep (λ b. not (text_eq b.0 session)) buffers ++ (session, records) ∷ []

abbrev with_buffers : Live → Dict (List Json) → Live
with_buffers s buffers = record s { session_buffers = buffers }

-- The records to replay, and the state afterwards.
abbrev opened : Text → Live → Option (List Json) → List Json × Live
unfolding move_to_end evict_lru
opened session s none = ([], evict_lru (with_buffers s (s.session_buffers ++ (session, []) ∷ [])))
opened session s (some records) =
    (records, with_buffers s (move_to_end session records s.session_buffers))

unfoldable pub open_session_buffer : Text → Live → List Json × Live
unfolding opened lookup
open_session_buffer session s = opened session s (lookup session s.session_buffers)

-- `append` on a deque with a maximal length.
unfoldable pub append_bounded : ℕ → List Json → Json → List Json
append_bounded bound records record' =
    let longer = records ++ record' ∷ [] in drop (length longer - bound) longer

abbrev appended : Text → Json → Live → Option (List Json) → Live
unfolding move_to_end append_bounded
appended session record' s none = s
appended session record' s (some records) =
    with_buffers s
      (move_to_end session (append_bounded sse_replay_max records record') s.session_buffers)

unfoldable pub buffer_append_if_watched : Text → Json → Live → Live
unfolding appended lookup
buffer_append_if_watched session record' s =
    appended session record' s (lookup session s.session_buffers)

-- The number of items takes the place of a list.
unfoldable pub strip_events : (events count_key : String) → Fields → Fields
unfolding get set remove count
strip_events events count_key response = elim (get events response) [
  | some (arr items) ↦ set count_key (num (pos (count items))) (remove events response)
  | _ ↦ remove events response
]

unfoldable pub strip_response : Json → Json
unfolding strip_events
strip_response (obj response) = obj (
    strip_events "ws_events" "ws_event_count"
      (strip_events "sse_events" "sse_event_count" response))
strip_response response = response

abbrev stripped_at : Option Json → Fields → Fields
unfolding strip_response set
stripped_at none record' = record'
stripped_at (some response) record' = set "response" (strip_response response) record'

-- `_strip_stream_events_keep_counts`
unfoldable pub strip_stream_events_keep_counts : Fields → Fields
unfolding stripped_at get
strip_stream_events_keep_counts record' = stripped_at (get "response" record') record'

-- `str(record.get("claw_session_id"))`, `none` where there is none or it is falsy.
unfoldable pub session_of : (shown : Json → Text) → Fields → Option Text
unfolding get truthy
session_of shown record' = elim (get "claw_session_id" record') [
  | none ↦ none
  | some v ↦ if truthy v then some (shown v) else none
]

-- The viewers of the session to which the record is written, and the state without those to which
-- writing fails.
abbrev pushed : (works : Viewer → Bool) → Json → Option Text → Live → List Viewer × Live
unfolding buffer_append_if_watched keep text_eq
pushed works record' none s = ([], s)
pushed works record' (some session) s =
    let watched = λ (c : Viewer). text_eq c.session session in
    let t = buffer_append_if_watched session record' s in
    (
      keep (λ c. watched c && works c) s.sse_clients,
      record t { sse_clients = keep (λ c. not (watched c && not (works c))) t.sse_clients },
    )

unfoldable pub broadcast :
    (shown : Json → Text) → (works : Viewer → Bool) → Fields → Live → List Viewer × Live
unfolding session_of strip_stream_events_keep_counts pushed
broadcast shown works record' s =
    pushed works (obj (strip_stream_events_keep_counts record')) (session_of shown record') s

-- `_handle_sse` up to its wait: what is replayed to the viewer, which is then connected.
unfoldable pub subscribe : Viewer → Live → List Json × Live
unfolding open_session_buffer
subscribe c s =
    let (records, t) = open_session_buffer c.session s in
    (records, record t { sse_clients = t.sse_clients ++ c ∷ [] })

-- A viewer that goes away.
unfoldable pub unsubscribe : ℕ → Live → Live
unfolding keep
unsubscribe id s = record s { sse_clients = keep (λ c. not (c.id == id)) s.sse_clients }
