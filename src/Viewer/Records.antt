-- ===== src/Viewer/Records.antt =====
-- claude_tap/viewer.py: what the page needs of a record: the events of a response, also those of a
-- Bedrock stream in a body, the messages of a request, and the names of tools. `loads` and
-- `loads_bytes` are `json.loads`, `none` where it raises, and `dumps` is `json.dumps`; `raw_decode`
-- gives a value at the start of a text and where it ends, and `b64decode` is strict.
pub mod Rounds
use claude_tap.Base.{
  ℕ, zero, suc, Text, String, Bool, true, false, not, ◌&&◌, ◌||◌, Option, none, some, List, [], ◌∷◌,
  ◌++◌, codes, map, if◌then◌else◌, is_nil, get_or, bind, starts_with, has_part, drop, length,
}
use claude_tap.Json.{
  Json, null, str, arr, obj, Items, nil, cons, Fields, end, field, get, set, set_default, truthy,
  is_obj, to_list, of_list, equals_text, has,
}
use claude_tap.Sse.{Parser, fresh_parser, add_event}
use claude_tap.Sse.Sharing.{Event}
use claude_tap.Proxy.Records.{event_json}

abbrev list_at : Option Json → List Json
unfolding to_list
list_at (some (arr items)) = to_list items
list_at _ = []

-- `_iter_response_events`
unfoldable pub iter_response_events : Json → List Json
unfolding list_at get
iter_response_events (obj response) =
    let sse = list_at (get "sse_events" response) in
    if is_nil sse then list_at (get "ws_events" response) else sse
iter_response_events _ = []

abbrev text_or_empty : Json → Text
text_or_empty (str s) = s
text_or_empty _ = []

-- `a or b` of two values that may be missing.
abbrev value_or : Option Json → Option Json → Json
unfolding truthy
value_or none b = get_or b null
value_or (some a) b = if truthy a then a else get_or b null

-- `_event_type`
unfoldable pub event_kind : Json → Text
unfolding value_or get
event_kind (obj event) = text_or_empty (value_or (get "event" event) (get "type" event))
event_kind _ = []

abbrev object_at : Option Json → Option Fields
object_at (some (obj fs)) = some fs
object_at _ = none

-- `_event_payload`
unfoldable pub event_payload : (loads : Text → Option Json) → Json → Option Fields
unfolding get
event_payload loads (obj event) = elim (get_or (get "data" event) (obj event)) [
  | str s ↦ object_at (loads s)
  | obj payload ↦ some payload
  | _ ↦ none
]
event_payload loads _ = none

-- The rest of a text from the first `{"` on.
unfoldable pub find_frame : Text → Option Text
unfolding starts_with
find_frame [] = none
find_frame (c ∷ s) =
    let later = find_frame s in if starts_with (c ∷ s) (codes "{\"") then some (c ∷ s) else later

abbrev typed_event : Option Json → Fields → List Event
typed_event (some (str (c ∷ s))) payload = (record { name = c ∷ s; payload = obj payload }) ∷ []
typed_event _ payload = []

abbrev payload_event : Option Json → List Event
unfolding get
payload_event (some (obj payload)) = typed_event (get "type" payload) payload
payload_event _ = []

module _ (loads_bytes : List ℕ → Option Json) (raw_decode : Text → Option (Json × ℕ))
    (b64decode : Text → Option (List ℕ)) where
  abbrev encoded_event : Option Json → List Event
  unfolding payload_event
  encoded_event (some (str s)) = payload_event (bind (b64decode s) loads_bytes)
  encoded_event _ = []

  -- The event in a frame, if there is one.
  unfoldable pub frame_event : Json → List Event
  unfolding encoded_event get
  frame_event (obj frame) = encoded_event (get "bytes" frame)
  frame_event _ = []

  -- The loop over the frames of a body, on what is left of it.
  unfoldable pub decode_frames : (rounds : ℕ) → Text → List Event
  unfolding find_frame frame_event
  decode_frames zero s = []
  decode_frames (suc rounds) s = elim (find_frame s) [
    | none ↦ []
    | some found ↦ elim (raw_decode found) [
      | none ↦ decode_frames rounds (drop 1 found)
      | some (frame, end_at) ↦ frame_event frame ++ decode_frames rounds (drop end_at found)
    ]
  ]

  -- `_decode_bedrock_eventstream_events`
  unfoldable pub decode_bedrock_eventstream_events : Option Json → List Event
  unfolding decode_frames has_part
  decode_bedrock_eventstream_events (some (str body)) =
      if has_part (codes "\"bytes\"") body then decode_frames (suc (length body)) body else []
  decode_bedrock_eventstream_events _ = []

  module _ (loads : Text → Option Json) (dumps : Fields → Text) where
    unfoldable pub replay_events : List Event → Parser → Parser
    unfolding add_event
    replay_events [] p = p
    replay_events (e ∷ events) p = replay_events events (add_event loads e.name e.payload p)

    abbrev with_body : Json → Fields → Fields
    unfolding truthy set
    with_body snapshot response = if truthy snapshot then set "body" snapshot response else response

    abbrev normalized_record : Text → Fields → Fields → List Event → Text
    unfolding replay_events with_body set set_default of_list
    normalized_record record_json record' response [] = record_json
    normalized_record record_json record' response (e ∷ events) =
        let snapshot = (replay_events (e ∷ events) fresh_parser).snapshot in
        let sse_events = arr (of_list (map event_json (e ∷ events))) in
        dumps (
          set "response" (obj (set_default "sse_events" sse_events (with_body snapshot response)))
            record')

    abbrev normalized_response : Text → Fields → Option Json → Text
    unfolding normalized_record decode_bedrock_eventstream_events get
    normalized_response record_json record' (some (obj response)) =
        normalized_record record_json record' response
          (decode_bedrock_eventstream_events (get "body" response))
    normalized_response record_json record' _ = record_json

    -- `_normalize_record_for_viewer`
    unfoldable pub normalize_record_for_viewer : Text → Text
    unfolding normalized_response get
    normalize_record_for_viewer record_json = elim (loads record_json) [
      | some (obj record') ↦ normalized_response record_json record' (get "response" record')
      | _ ↦ record_json
    ]

abbrev objects : List Json → List Json
objects [] = []
objects (obj fs ∷ items) = obj fs ∷ objects items
objects (_ ∷ items) = objects items

abbrev role_at : Option Json → Text
role_at (some (str s)) = s
role_at _ = []

abbrev is_message : Option Json → Bool
is_message none = true
is_message (some null) = true
is_message (some v) = equals_text v "message"

-- An item of `input` as a message.
unfoldable pub input_message : Json → List Json
unfolding get has
input_message (obj item) =
    let role = role_at (get "role" item) in
    if not (is_message (get "type" item)) && not (has "role" item)
    then []
    else if is_nil role
    then []
    else obj (field "role" (str role) (field "content" (get_or (get "content" item) null) end)) ∷ []
input_message _ = []

unfoldable pub input_messages : List Json → List Json
unfolding input_message
input_messages [] = []
input_messages (item ∷ items) = input_message item ++ input_messages items

-- `_extract_request_messages`
unfoldable pub extract_request_messages : Json → List Json
unfolding list_at get input_messages
extract_request_messages (obj body) =
    let messages = list_at (get "messages" body) in
    if is_nil messages then input_messages (list_at (get "input" body)) else objects messages
extract_request_messages _ = []

abbrev name_in : Option Json → Option Json
unfolding get
name_in (some (obj function)) = get "name" function
name_in _ = none

abbrev first_name : List (Option Json) → Text
first_name [] = []
first_name (some (str (c ∷ s)) ∷ values) = c ∷ s
first_name (_ ∷ values) = first_name values

-- `_tool_display_name`
unfoldable pub tool_display_name : Fields → Text
unfolding get name_in
tool_display_name tool =
    first_name
      (get "name" tool ∷ name_in (get "function" tool) ∷ get "id" tool ∷ get "type" tool ∷ [])
