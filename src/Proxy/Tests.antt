-- ===== src/Proxy/Tests.antt =====
-- claude_tap/proxy.py: runs of the theorems on a request.
use claude_tap.Base.{
  Text, true, false, Option, none, some, List, [], ◌∷◌, ◌≡◌, refl, codes, text_eq, if◌then◌else◌,
  strip, lookup, ◌⊎◌,
}
use claude_tap.Json.{Json, str, obj, end, field}
use claude_tap.Session.Claw.{extract_claw_session_id}
use claude_tap.Session.Dispatcher.{Dispatcher}
use claude_tap.Proxy.Headers.{filter_headers, apply_gateway_auth_headers}
use claude_tap.Proxy.Headers.Filtering.{
  is_connection_name, shown, last_value, lookup-filter_headers,
}
use claude_tap.Proxy.Headers.Auth.{
  auth_only, others, gateway_header, apply_gateway_auth_headers-Sole,
}
use claude_tap.Proxy.Paths.{
  is_allowed_path, clean_path, allowed_path_prefixes, Some, IsUnder, is_allowed_path-IsUnder,
}
use claude_tap.Proxy.Websocket.{merge_json_lists, reconstruct_ws_request_body}
use claude_tap.Proxy.Websocket.Merging.{IsMerge, merge_json_lists-IsMerge}
use claude_tap.Proxy.Websocket.Filled.{filled, body_filled, request_body-append-filled}
use claude_tap.Proxy.Messages.{whole, World, Moment, Upstream, fixed, Request}
use claude_tap.Proxy.Entry.{proxy_handler, dispatcher_after}
use claude_tap.Proxy.Entry.Forwarding.{IsProper, IsSilent, proxy_handler-IsProper}
use claude_tap.Proxy.Entry.Tracing.{proxy_handler-untraced}
use claude_tap.Proxy.Relay.{
  WsSent, Connection, refused, Frame, text, binary, Way, cut, send_text, send_binary, Relay, Reach,
  here, next, client_moves, server_moves, relay_of,
}
use claude_tap.Proxy.Relay.Faithful.{IsFaithful, relay-IsFaithful}

abbrev key_headers : List (Text × Text)
key_headers =
    (codes "X-Api-Key", codes "sk-0123456789abcdef")
    ∷ (codes "Connection", codes "close")
    ∷ (codes "Accept", codes "*/*")
    ∷ []

lookup-filter_headers_example : lookup (codes "X-Api-Key") (filter_headers true key_headers) ≡ (
    if is_connection_name (codes "X-Api-Key")
    then none
    else shown true (codes "X-Api-Key") (last_value (codes "X-Api-Key") key_headers))
lookup-filter_headers_example = lookup-filter_headers true (codes "X-Api-Key") key_headers

apply_gateway_auth_headers-Sole_example :
    (auth_only (apply_gateway_auth_headers (codes "codex") (codes " k ") key_headers)
      ≡ gateway_header (codes "codex") (codes " k ") ∷ [])
    × (others (apply_gateway_auth_headers (codes "codex") (codes " k ") key_headers)
        ≡ others key_headers)
unfolding strip
apply_gateway_auth_headers-Sole_example =
    apply_gateway_auth_headers-Sole (codes "codex") (codes " k ") key_headers refl

is_allowed_path-IsUnder_example :
    Some (IsUnder (clean_path (codes "/v1/messages/count?beta=1"))) allowed_path_prefixes
unfolding is_allowed_path
is_allowed_path-IsUnder_example = is_allowed_path-IsUnder (codes "/v1/messages/count?beta=1") refl

abbrev key_of : Json → Text
key_of (str s) = s
key_of _ = []

merge_json_lists-IsMerge_example :
    IsMerge key_of
      (str (codes "a") ∷ [])
      (str (codes "a") ∷ str (codes "b") ∷ [])
      (merge_json_lists key_of (str (codes "a") ∷ []) (str (codes "a") ∷ str (codes "b") ∷ []))
merge_json_lists-IsMerge_example =
    merge_json_lists-IsMerge key_of (str (codes "a") ∷ []) (str (codes "a") ∷ str (codes "b") ∷ [])

-- `F` is an object with a model and `B` one in which it is blank.
abbrev message_loads : Text → Option Json
message_loads s =
    if text_eq s (codes "F")
    then some (obj (field "model" (str (codes "m")) end))
    else if text_eq s (codes "B")
    then some (obj (field "model" (str []) end))
    else none

request_body-append-filled_example :
    body_filled "model"
      (reconstruct_ws_request_body key_of message_loads (codes "F" ∷ codes "B" ∷ codes "?" ∷ []))
    ≡ true
unfolding text_eq reconstruct_ws_request_body filled
request_body-append-filled_example =
    request_body-append-filled key_of message_loads "model" (codes "F" ∷ [])
      (codes "B" ∷ codes "?" ∷ []) refl

abbrev small_world : World
small_world = record {
  loads = message_loads;
  loads_bytes = message_loads;
  decode = λ b. b;
  sha256 = λ s. codes "0123456789abcdef";
  text_of = λ s. "k";
  on_disk = λ p. [];
  decompress = λ e b. none;
  answer = λ s. whole (record { status = 200; headers = []; chunks = codes "F" ∷ [] });
}

abbrev moment : Moment
moment = record {
  clock = record { now = 12; cal = 1 };
  timestamp = codes "t";
  request_id = codes "r";
  duration_ms = 3;
}

abbrev nobody : Dispatcher
nobody = record {
  index = [];
  writer_idle_seconds = 60;
  writers = [];
  raw_to_slug = [];
  slug_to_raw = [];
  turns = [];
}

abbrev api : Upstream
api = fixed (codes "https://api.anthropic.com") []

abbrev request_with : List (Text × Text) → Request
request_with headers = record {
  method = codes "POST";
  path = codes "/v1/messages";
  path_qs = codes "/v1/messages";
  headers = headers;
  body = codes "F";
}

abbrev session_headers : List (Text × Text)
session_headers = (codes "Claw-Session-Id", codes "s1") ∷ (codes "Connection", codes "close") ∷ []

abbrev no_connection : WsSent → Connection
no_connection s = refused (codes "no")

proxy_handler-IsProper_example :
    IsProper (request_with session_headers) (
      proxy_handler key_of no_connection small_world moment false api
        (request_with session_headers)
        nobody)
    × ((is_allowed_path (codes "/v1/messages") ≡ true)
        ⊎ IsSilent (
            proxy_handler key_of no_connection small_world moment false api
              (request_with session_headers)
              nobody))
proxy_handler-IsProper_example =
    proxy_handler-IsProper key_of no_connection small_world moment api
      (request_with session_headers) false nobody

proxy_handler-untraced_example :
    dispatcher_after (
      proxy_handler key_of no_connection small_world moment false api
        (request_with key_headers)
        nobody)
    ≡ nobody
unfolding extract_claw_session_id
proxy_handler-untraced_example =
    proxy_handler-untraced key_of no_connection small_world moment api (request_with key_headers)
      false nobody refl

-- The client sends a text and a second one, and the server a binary frame.
abbrev client_frames : List Frame
client_frames = text (codes "F") ∷ text (codes "B") ∷ []

abbrev server_frames : List Frame
server_frames = binary (1 ∷ []) ∷ []

-- The first text is sent on, then the binary frame, and the second text is cut.
abbrev after_text : Way
after_text = record {
  incoming = text (codes "B") ∷ [];
  recorded = codes "F" ∷ [];
  delivered = text (codes "F") ∷ [];
  over = false;
}

abbrev after_cut : Way
after_cut = record after_text { recorded = codes "F" ∷ codes "B" ∷ []; over = true }

abbrev after_binary : Way
after_binary = record { incoming = []; recorded = []; delivered = server_frames; over = false }

abbrev relay_end : Relay
relay_end = record { client = after_cut; server = after_binary }

relay_run : Reach (relay_of client_frames server_frames) relay_end
relay_run =
    next
      (next
        (next here (
          client_moves (relay_of client_frames server_frames) after_text (
            send_text (relay_of client_frames server_frames).client (codes "F")
              (text (codes "B") ∷ []) refl refl)))
        (server_moves
          (record { client = after_text; server = (relay_of client_frames server_frames).server })
          after_binary
          (send_binary (relay_of client_frames server_frames).server (1 ∷ []) [] refl refl)))
      (client_moves (record { client = after_text; server = after_binary }) after_cut
        (cut after_text (codes "B") [] refl refl))

relay-IsFaithful_example :
    IsFaithful client_frames relay_end.client × IsFaithful server_frames relay_end.server
relay-IsFaithful_example = relay-IsFaithful client_frames server_frames relay_end relay_run
