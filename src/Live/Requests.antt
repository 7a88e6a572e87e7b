-- ===== src/Live/Requests.antt =====
-- claude_tap/live.py: the handlers of the viewer's requests. A handler gets the parameters of the query
-- as a dict; a result `none` is a reply 400. `unquote` undoes the quoting of a URL. The JSON of the
-- replies, and the page itself, are left out.
use claude_tap.Base.{
  ℕ, Text, Bool, false, Option, none, some, List, [], ◌∷◌, codes, if◌then◌else◌, ◌==◌, is_nil, bind,
  map, get_or, strip, starts_with, rstrip_char, Dict, lookup,
}
use Prim.Native.Nat.{min, max}
use claude_tap.Json.{
  ℤ, pos, negsuc, Json, num, str, arr, obj, nil, Fields, end, field, get, set, remove, truthy,
}
use claude_tap.Session.Index.{Table, Row, list_sessions}
use claude_tap.Live.Buffers.{Live, open_session_buffer, subscribe, strip_stream_events_keep_counts}
use claude_tap.Live.Loading.{int_of, load_session_records, session_text, splitlines}

-- `DEFAULT_MAX_SESSIONS`
abbrev pub default_max_sessions : ℕ
default_max_sessions = 1000

abbrev at_least_one : Option ℤ → ℕ
at_least_one (some (pos n)) = if n == 0 then default_max_sessions else n
at_least_one _ = default_max_sessions

-- `x or y` of two parameters that may be missing, empty where both are.
unfoldable pub first_given : Option Text → Option Text → Text
first_given a b = let v = get_or a [] in if is_nil v then get_or b [] else v

unfoldable pub normalize_live_prefix_path : Text → Text
unfolding strip starts_with rstrip_char
normalize_live_prefix_path prefix_path =
    let raw = strip prefix_path in
    if is_nil raw
    then []
    else if starts_with raw (codes "/")
    then rstrip_char b'/' raw
    else b'/' ∷ rstrip_char b'/' raw

unfoldable pub require_session : Dict Text → Option Text
unfolding first_given lookup strip
require_session query =
    let raw =
      strip
        (first_given (lookup (codes "session") query) (lookup (codes "claw_session_id") query)) in
    if is_nil raw then none else some raw

unfoldable pub handle_records : Dict Text → Live → Option (List Json) × Live
unfolding require_session open_session_buffer
handle_records query s = elim (require_session query) [
  | none ↦ (none, s)
  | some session ↦ (some (open_session_buffer session s).0, (open_session_buffer session s).1)
]

-- Up to the wait for further records; the viewer is given a number.
unfoldable pub handle_sse : ℕ → Dict Text → Live → Option (List Json) × Live
unfolding require_session subscribe
handle_sse id query s = elim (require_session query) [
  | none ↦ (none, s)
  | some session ↦
      let (records, t) = subscribe (record { id = id; session = session }) s in (some records, t)
]

-- `max(low, n)` of an integer, `low` where it is none.
abbrev at_least : ℕ → ℕ → Option ℤ → ℕ
at_least low default none = default
at_least low default (some (pos n)) = max low n
at_least low default (some (negsuc n)) = low

pub record SessionPage : Type 0 where
  pub sessions : List Row
  pub total : ℕ
  pub limit : ℕ
  pub offset : ℕ

module _ (loads : Text → Option Json) (to_int : Text → Option ℤ) where
  -- `env` is what the environment sets, empty where it sets nothing.
  unfoldable pub resolve_max_sessions : (env : Text) → Option Json → ℕ
  unfolding strip int_of
  resolve_max_sessions env (some raw) = at_least_one (int_of loads to_int raw)
  resolve_max_sessions env none =
      let value = strip env in
      if is_nil value then default_max_sessions else at_least_one (to_int value)

  unfoldable pub handle_api_sessions : Dict Text → Table → SessionPage
  unfolding lookup list_sessions
  handle_api_sessions query index =
      let limit =
        min 500 (at_least 1 100 (to_int (get_or (lookup (codes "limit") query) (codes "100")))) in
      let offset = at_least 0 0 (to_int (get_or (lookup (codes "offset") query) (codes "0"))) in
      let (rows, total) = list_sessions limit offset index in
      record { sessions = rows; total = total; limit = limit; offset = offset }

  module _ (unquote : Text → Text) (index : Table) (read_text : Text → Option Text) where
    unfoldable pub queried_session : Dict Text → Option Text
    unfolding first_given lookup strip
    queried_session query =
        let id = unquote (
          strip (
            first_given (lookup (codes "session") query)
              (lookup (codes "claw_session_id") query))) in
        if is_nil id then none else some id

    unfoldable pub queried_turn : (name : Text) → Dict Text → ℕ
    unfolding lookup
    queried_turn name query = at_least 0 0 (to_int (get_or (lookup name query) (codes "0")))

    -- The records with counts in place of events.
    unfoldable pub handle_api_session_traces : Dict Text → Option (List Fields)
    unfolding queried_session queried_turn load_session_records strip_stream_events_keep_counts
    handle_api_session_traces query = bind (queried_session query) λ id. some (
        map strip_stream_events_keep_counts (
          load_session_records loads to_int index read_text id
            (queried_turn (codes "since_turn") query)))

    abbrev without_events : Json → Json
    unfolding remove
    without_events (obj response) = obj (
        remove "ws_event_count"
          (remove "sse_event_count" (remove "ws_events" (remove "sse_events" response))))
    without_events response = response

    unfoldable pub clean_record : Fields → Fields
    unfolding get set without_events
    clean_record record' = elim (get "response" record') [
      | none ↦ record'
      | some response ↦ set "response" (without_events response) record'
    ]

    -- The records with neither events nor counts.
    unfoldable pub handle_api_session_full : Dict Text → Option (List Fields)
    unfolding queried_session queried_turn load_session_records clean_record
    handle_api_session_full query = bind (queried_session query) λ id. some (
        map clean_record (
          load_session_records loads to_int index read_text id
            (queried_turn (codes "since_turn") query)))

    abbrev same_turn : ℕ → Option ℤ → Bool
    same_turn turn (some (pos n)) = n == turn
    same_turn turn _ = false

    -- `rec.get("turn") or 0`
    abbrev or_zero : Option Json → Json
    unfolding truthy
    or_zero none = num (pos 0)
    or_zero (some v) = if truthy v then v else num (pos 0)

    unfoldable pub has_turn : ℕ → Fields → Bool
    unfolding or_zero get int_of
    has_turn turn record' = same_turn turn (int_of loads to_int (or_zero (get "turn" record')))

    abbrev found_at : ℕ → Option Json → Option Fields → Option Fields
    unfolding has_turn
    found_at turn none later = none
    found_at turn (some (obj record')) later = if has_turn turn record' then some record' else later
    found_at turn (some _) later = later

    -- The first record of a turn; `none` also where a line before it is no JSON.
    unfoldable pub find_turn : ℕ → List Text → Option Fields
    unfolding strip found_at
    find_turn turn [] = none
    find_turn turn (line ∷ lines) =
        let later = find_turn turn lines in
        if is_nil (strip line) then later else found_at turn (loads (strip line)) later

    abbrev list_of : Option Json → Json
    list_of (some (arr items)) = arr items
    list_of _ = arr nil

    abbrev response_of : Option Json → Fields
    response_of (some (obj response)) = response
    response_of _ = end

    abbrev events_of : (turn : ℕ) → Text → Option Fields → Fields
    unfolding get
    events_of turn id none =
        field "turn" (num (pos turn))
          (field "sse_events" (arr nil) (field "ws_events" (arr nil) end))
    events_of turn id (some record') =
        let response = response_of (get "response" record') in
        field "turn" (num (pos turn)) (
          field "claw_session_id" (str id) (
            field "sse_events" (list_of (get "sse_events" response))
              (field "ws_events" (list_of (get "ws_events" response)) end)))

    unfoldable pub load_stream_events_for_turn : Text → ℕ → Fields
    unfolding events_of session_text find_turn splitlines
    load_stream_events_for_turn id turn = events_of turn id (
        bind (session_text loads to_int index read_text id)
          (λ text. find_turn turn (splitlines text)))

    unfoldable pub handle_api_session_stream_events : Dict Text → Option Fields
    unfolding queried_session queried_turn load_stream_events_for_turn
    handle_api_session_stream_events query = bind (queried_session query) λ id.
        let turn = queried_turn (codes "turn") query in
        if turn == 0 then none else some (load_stream_events_for_turn id turn)
