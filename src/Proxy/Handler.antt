-- ===== src/Proxy/Handler.antt =====
-- claude_tap/proxy.py: `proxy_handler` on a request that is no WebSocket upgrade, with
-- `_handle_streaming` and `_handle_non_streaming`. A run
-- takes the request and the dispatcher and gives the reply, the request sent upstream if one was,
-- and the dispatcher afterwards; no other request runs in between. The request reads headers in any
-- casing, as aiohttp's multidict does. The texts of the replies that the proxy makes itself are left
-- out, and so is a client that goes away.
pub mod Tracing
pub mod Forwarding
use claude_tap.Base.{
  ℕ, Text, String, Bool, true, false, not, ◌||◌, ◌&&◌, Option, none, some, List, [], ◌∷◌, ◌++◌,
  codes, text_eq, if◌then◌else◌, is_nil, keep, any, lower, Dict, insert, erase, get_or, is_some,
  ◌==◌,
}
use claude_tap.Json.{Json, null, str, obj, Fields, get, truthy, is_obj}
use claude_tap.Sse.{Reassembler, fresh, feed_all}
use claude_tap.Session.Claw.{extract_claw_session_id, strip_claw_session_header}
use claude_tap.Session.Index.{Clock}
use claude_tap.Session.Dispatcher.{Dispatcher, alloc_turn, write_record}
use claude_tap.Upstream.Config.{Snapshot, ConfigStore, static_upstream}
use claude_tap.Upstream.Gateway.{GatewayStore, is_ready}
use claude_tap.Proxy.Headers.{filter_headers, apply_gateway_auth_headers, named_in}
use claude_tap.Proxy.Messages.{
  Upstream, fixed, config, gateway, Request, Sent, Answer, World, Moment, Reply, reply, failed,
  cut_short, Fetched, unanswered, whole, broken, Result,
}
use claude_tap.Proxy.Paths.{upstream_url}
use claude_tap.Proxy.Records.{Call, build_record}

-- `request.headers.get(name, "")`: the name is given in lower case.
unfoldable pub header_of : Text → List (Text × Text) → Text
unfolding lower text_eq
header_of name [] = []
header_of name ((k, v) ∷ headers) =
    let rest = header_of name headers in if text_eq (lower k) name then v else rest

-- `_pg_upstream_not_ready`
unfoldable pub not_ready : Upstream → Bool
unfolding is_ready
not_ready (gateway s) = not (is_ready s)
not_ready _ = false

-- `resolve_upstream`, `none` where it raises.
unfoldable pub resolve_upstream : Upstream → Option Snapshot
resolve_upstream (fixed target_url strip_path_prefix) =
    some (static_upstream target_url strip_path_prefix)
resolve_upstream (config s) = some s.snapshot
resolve_upstream (gateway s) = s.snapshot

-- `_apply_gateway_upstream_auth`
unfoldable pub apply_gateway_upstream_auth : Upstream → Dict Text → Dict Text
unfolding apply_gateway_auth_headers
apply_gateway_upstream_auth (gateway s) headers = elim s.runtime [
  | none ↦ headers
  | some r ↦ apply_gateway_auth_headers s.client r.api_key headers
]
apply_gateway_upstream_auth _ headers = headers

abbrev pub body_encodings : List Text
body_encodings = codes "zstd" ∷ codes "gzip" ∷ codes "deflate" ∷ codes "br" ∷ []

abbrev pub body_headers : List Text
body_headers = codes "content-encoding" ∷ codes "content-length" ∷ []

-- The body is decompressed already, so its encoding and length go.
unfoldable pub without_encoding : List (Text × Text) → Dict Text → Dict Text
unfolding named_in keep header_of
without_encoding request headers =
    if named_in body_encodings (header_of (codes "content-encoding") request)
    then keep (λ h. not (named_in body_headers h.0)) headers
    else headers

unfoldable pub forwarded_headers : Upstream → List (Text × Text) → Dict Text
unfolding filter_headers strip_claw_session_header apply_gateway_upstream_auth erase
    without_encoding insert
forwarded_headers upstream headers =
    let filtered = strip_claw_session_header (filter_headers false headers) in
    let authorised = erase (codes "Host") (apply_gateway_upstream_auth upstream filtered) in
    insert (codes "Accept-Encoding") (codes "identity") (without_encoding headers authorised)

unfoldable pub joined : List (List ℕ) → List ℕ
joined [] = []
joined (chunk ∷ chunks) = chunk ++ joined chunks

-- A body as JSON, as text where it is none, null where it is empty.
unfoldable pub parse_body : World → List ℕ → Json
parse_body w [] = null
parse_body w (c ∷ bytes) = get_or (w.loads_bytes (c ∷ bytes)) (str (w.decode (c ∷ bytes)))

-- `req_body.get("stream", False)`, for a body that is an object.
unfoldable pub is_streaming : Json → Bool
unfolding get truthy
is_streaming (obj fs) = elim (get "stream" fs) [ none ↦ false | some v ↦ truthy v ]
is_streaming _ = false

-- The bytes that are parsed; those that do not decompress are parsed as they are.
unfoldable pub decoded : World → List (Text × Text) → List ℕ → List ℕ
unfolding header_of lower text_eq
decoded w headers bytes =
    let encoding = lower (header_of (codes "content-encoding") headers) in
    if text_eq encoding (codes "gzip") || text_eq encoding (codes "deflate")
    then get_or (w.decompress encoding bytes) bytes
    else bytes

-- The record of a call: of a stream it has the events and their snapshot.
unfoldable pub record_of : World → (streaming : Bool) → Call → Json → Answer → Fields
unfolding build_record feed_all decoded joined parse_body
record_of w streaming c req_body a =
    let r = feed_all w.loads w.decode a.chunks fresh in
    if streaming && a.status == 200
    then build_record w.text_of c req_body a.status a.headers r.snapshot r.events
    else build_record w.text_of c req_body a.status a.headers
        (parse_body w (decoded w a.headers (joined a.chunks))) []

-- Only a call with a session is recorded. False where the dispatcher raises.
unfoldable pub trace : World → Clock → Option Text → Fields → Dispatcher → Bool × Dispatcher
unfolding write_record
trace w c none rec d = (true, d)
trace w c (some raw) rec d = write_record w.sha256 w.on_disk c raw rec d

-- `reconstructed.get("usage", {}).get(...)`, for the log, raises unless these are objects.
unfoldable pub usage_reads : Json → Bool
unfolding truthy get
usage_reads (obj fs) = elim (get "usage" fs) [ none ↦ true | some v ↦ is_obj v ]
usage_reads snapshot = not (truthy snapshot)

-- A stream is logged before it is traced.
unfoldable pub logged :
    World → (streamed : Bool) → Answer → Bool × Dispatcher → Dispatcher → Bool × Dispatcher
unfolding feed_all usage_reads
logged w streamed a traced d =
    let r = feed_all w.loads w.decode a.chunks fresh in
    if streamed && not (usage_reads r.snapshot) then (false, d) else traced

-- The headers of the reply are a dict: of a header that comes twice the last value stays.
abbrev pub client_reply : Answer → Reply
unfolding filter_headers joined
client_reply a = reply a.status (filter_headers false a.headers) (joined a.chunks)

-- Whether or not the response was streamed, the client gets the same status, headers and bytes; a
-- stream has reached the client before the dispatcher can raise.
abbrev pub finish : Answer → (streaming : Bool) → Sent → Bool × Dispatcher → Result
finish a streaming s (written, d) = record {
  response = if written || (streaming && a.status == 200) then client_reply a else failed;
  sent = some s;
  dispatcher = d;
}

abbrev pub call_of : Moment → Request → (target : Text) → (turn : ℕ) → Call
call_of m q target turn = record {
  timestamp = m.timestamp;
  request_id = m.request_id;
  turn = turn;
  duration_ms = m.duration_ms;
  method = q.method;
  path_qs = q.path_qs;
  headers = q.headers;
  upstream_base_url = target;
}

-- `_handle_streaming` or `_handle_non_streaming`, on a reply that is read to its end.
unfoldable pub handled :
    World
    → Moment
    → Request
    → Option Text
    → Snapshot
    → (turn : ℕ) → Sent
    → Dispatcher
    → Answer
    → Result
unfolding record_of trace is_streaming parse_body client_reply logged
handled w m q raw up turn s d a =
    let body = parse_body w q.body in
    let rec = record_of w (is_streaming body) (call_of m q up.target turn) body a in
    let streamed = is_streaming body && a.status == 200 in
    finish a (is_streaming body) s (logged w streamed a (trace w m.clock raw rec d) d)

-- A body that breaks off raises, but for the ConnectionError of a stream: there what has come is taken for
-- the whole.
unfoldable pub broken_off :
    (streamed connection_error : Bool) → Answer → Sent → Dispatcher → Result → Result
unfolding filter_headers joined
broken_off true true a s d r = r
broken_off true false a s d r = record {
  response = cut_short a.status (filter_headers false a.headers) (joined a.chunks);
  sent = some s;
  dispatcher = d;
}
broken_off false connection_error a s d r = record {
  response = failed;
  sent = some s;
  dispatcher = d;
}

-- An exception of the request is a 502.
unfoldable pub answered :
    World
    → Moment
    → Request
    → Option Text
    → Snapshot
    → (turn : ℕ) → Sent
    → Dispatcher
    → Fetched
    → Result
unfolding handled broken_off is_streaming parse_body
answered w m q raw up turn s d unanswered = record {
  response = reply 502 [] [];
  sent = some s;
  dispatcher = d;
}
answered w m q raw up turn s d (whole a) = handled w m q raw up turn s d a
answered w m q raw up turn s d (broken connection_error a) =
    broken_off (is_streaming (parse_body w q.body) && a.status == 200) connection_error a s d
      (handled w m q raw up turn s d a)

unfoldable pub exchange :
    World → Moment → Request → Option Text → Snapshot → (turn : ℕ) → Sent → Dispatcher → Result
unfolding answered
exchange w m q raw up turn s d = answered w m q raw up turn s d (w.answer s)

unfoldable pub request_turn : World → Clock → Option Text → Dispatcher → Option ℕ × Dispatcher
unfolding alloc_turn
request_turn w c none d = (some 0, d)
request_turn w c (some raw) d = alloc_turn w.sha256 c raw d

abbrev pub refuse : ℕ → Dispatcher → Result
refuse status d = record { response = reply status [] []; sent = none; dispatcher = d }

unfoldable pub sent_for : Upstream → Request → Snapshot → Sent
unfolding upstream_url forwarded_headers
sent_for upstream q up = record {
  method = q.method;
  url = upstream_url up.target up.strip_path_prefix q.path_qs;
  headers = forwarded_headers upstream q.headers;
  body = q.body;
}

unfoldable pub after_turn :
    World → Moment → Upstream → Request → Option Text → Snapshot → Option ℕ × Dispatcher → Result
unfolding exchange sent_for
after_turn w m upstream q raw up (none, d) = record {
  response = failed;
  sent = none;
  dispatcher = d;
}
after_turn w m upstream q raw up (some turn, d) =
    exchange w m q raw up turn (sent_for upstream q up) d

unfoldable pub forward : World → Moment → Upstream → Request → Option Snapshot → Dispatcher → Result
unfolding after_turn request_turn extract_claw_session_id
forward w m upstream q none d = record { response = failed; sent = none; dispatcher = d }
forward w m upstream q (some up) d =
    let raw = extract_claw_session_id q.headers in
    after_turn w m upstream q raw up (request_turn w m.clock raw d)

-- `proxy_handler` below its test for WebSocket upgrades.
unfoldable pub handle_http : World → Moment → Upstream → Request → Dispatcher → Result
unfolding not_ready resolve_upstream forward
handle_http w m upstream q d =
    if not_ready upstream
    then refuse 503 d
    else forward w m upstream q (resolve_upstream upstream) d
