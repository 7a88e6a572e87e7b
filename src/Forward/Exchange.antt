-- ===== src/Forward/Exchange.antt =====
-- claude_tap/forward_proxy.py: `_forward_and_record` with `_handle_streaming` and
-- `_handle_non_streaming`. A run gives the bytes written to the client, the request sent upstream if
-- one was, the dispatcher afterwards, and whether it returned; where it raises, the connection ends.
-- No other request runs in between, and the client takes what is written.
pub mod Forwarding
use claude_tap.Base.{
  ℕ, Text, String, Bool, true, false, not, ◌||◌, ◌&&◌, Option, none, some, List, [], ◌∷◌, codes,
  text_eq, if◌then◌else◌, is_nil, lower, Dict, insert, erase, get_or, ◌==◌,
}
use claude_tap.Json.{Json, Fields}
use claude_tap.Sse.{fresh, feed_all}
use claude_tap.Session.Claw.{extract_claw_session_id, strip_claw_session_header}
use claude_tap.Session.Dispatcher.{Dispatcher}
use claude_tap.Proxy.Headers.{filter_headers}
use claude_tap.Proxy.Messages.{World, Moment, Sent, Answer}
use claude_tap.Proxy.Records.{Call, build_record}
use claude_tap.Proxy.Handler.{
  header_of, joined, parse_body, is_streaming, decoded, trace, request_turn, logged,
}
use claude_tap.Forward.Wire.{streaming_reply, streaming_part, plain_reply, error_reply}
use claude_tap.Forward.Reading.{TunnelRequest}

-- What comes of a request upstream: an exception with its text, a reply with its reason phrase, or a
-- reply whose body breaks off with an exception, which may be a ConnectionError.
pub data Reached : Type 0 where
  unreachable : (error : Text) → Reached
  replied : (reason : Text) → Answer → Reached
  broken : (connection_error : Bool) → (reason : Text) → Answer → Reached

pub record Exchanged : Type 0 where
  pub written : List ℕ
  pub sent : Option Sent
  pub dispatcher : Dispatcher
  pub returned : Bool

unfoldable pub tunnel_headers : Dict Text → Dict Text
unfolding filter_headers strip_claw_session_header erase insert
tunnel_headers headers =
    let filtered = strip_claw_session_header (filter_headers false headers) in
    insert (codes "Accept-Encoding") (codes "identity")
      (erase (codes "host") (erase (codes "Host") filtered))

-- `dict(headers)` of a multidict: each spelling of a name has the name's first value.
unfoldable pub dict_into : (all : List (Text × Text)) → Dict Text → List (Text × Text) → Dict Text
unfolding header_of insert lower
dict_into all out [] = out
dict_into all out ((k, v) ∷ headers) =
    dict_into all (insert k (header_of (lower k) all) out) headers

unfoldable pub dict_of : List (Text × Text) → Dict Text
unfolding dict_into
dict_of headers = dict_into headers [] headers

-- The record of a call: of a stream it has the events and their snapshot.
unfoldable pub tunnel_record : World → (streamed : Bool) → Call → Json → Answer → Fields
unfolding build_record feed_all decoded joined parse_body dict_of
tunnel_record w streamed c req_body a =
    let r = feed_all w.loads w.decode a.chunks fresh in
    let bytes = joined a.chunks in
    if streamed
    then build_record w.text_of c req_body a.status (dict_of a.headers) r.snapshot r.events
    else build_record w.text_of c req_body a.status (dict_of a.headers)
        (parse_body w (if is_nil bytes then bytes else decoded w a.headers bytes)) []

abbrev pub tunnel_call : Moment → (method path : Text) → Dict Text → (turn : ℕ) → Call
tunnel_call m method path headers turn = record {
  timestamp = m.timestamp;
  request_id = m.request_id;
  turn = turn;
  duration_ms = m.duration_ms;
  method = method;
  path_qs = path;
  headers = headers;
  upstream_base_url = [];
}

-- A stream has been written before it is recorded; a plain reply is recorded before it is written.
unfoldable pub reply_bytes : (streamed returned : Bool) → (reason : Text) → Answer → List ℕ
unfolding streaming_reply plain_reply joined
reply_bytes true returned reason a = streaming_reply reason a
reply_bytes false true reason a = plain_reply reason a (joined a.chunks)
reply_bytes false false reason a = []

abbrev pub exchange_end :
    (streamed : Bool) → (reason : Text) → Answer → Sent → Bool × Dispatcher → Exchanged
unfolding reply_bytes
exchange_end streamed reason a s (returned, d) = record {
  written = reply_bytes streamed returned reason a;
  sent = some s;
  dispatcher = d;
  returned = returned;
}

unfoldable pub tunnel_sent : TunnelRequest → (url : Text) → Sent
unfolding tunnel_headers
tunnel_sent q url = record {
  method = q.method;
  url = url;
  headers = tunnel_headers q.headers;
  body = q.body;
}

-- A body that breaks off raises, but for the ConnectionError of a stream: there what has come is taken
-- for the whole.
unfoldable pub broken_end :
    (streamed connection_error : Bool)
    → (reason : Text) → Answer
    → Sent
    → Dispatcher
    → (whole : Exchanged) → Exchanged
unfolding streaming_part
broken_end true true reason a s d whole = whole
broken_end true false reason a s d whole = record {
  written = streaming_part reason a;
  sent = some s;
  dispatcher = d;
  returned = false;
}
broken_end false connection_error reason a s d whole = record {
  written = [];
  sent = some s;
  dispatcher = d;
  returned = false;
}

module _ (w : World) (m : Moment) (send : Sent → Reached) where
  unfoldable pub recorded :
      TunnelRequest
      → Option Text
      → (turn : ℕ) → Sent
      → Dispatcher
      → (reason : Text) → Answer
      → Exchanged
  unfolding tunnel_record trace is_streaming parse_body logged exchange_end
  recorded q raw turn s d reason a =
      let body = parse_body w q.body in
      let streamed = is_streaming body && a.status == 200 in
      let rec = tunnel_record w streamed (tunnel_call m q.method q.path q.headers turn) body a in
      exchange_end streamed reason a s (logged w streamed a (trace w m.clock raw rec d) d)

  unfoldable pub after_send :
      TunnelRequest → Option Text → (turn : ℕ) → Sent → Dispatcher → Reached → Exchanged
  unfolding recorded error_reply broken_end is_streaming parse_body
  after_send q raw turn s d (unreachable error) = record {
    written = error_reply error;
    sent = some s;
    dispatcher = d;
    returned = true;
  }
  after_send q raw turn s d (replied reason a) = recorded q raw turn s d reason a
  after_send q raw turn s d (broken connection_error reason a) =
      broken_end (is_streaming (parse_body w q.body) && a.status == 200) connection_error reason a s
        d (recorded q raw turn s d reason a)

  unfoldable pub with_turn :
      TunnelRequest → (url : Text) → Option Text → Option ℕ × Dispatcher → Exchanged
  unfolding after_send tunnel_sent
  with_turn q url raw (none, d) = record {
    written = [];
    sent = none;
    dispatcher = d;
    returned = false;
  }
  with_turn q url raw (some turn, d) =
      let s = tunnel_sent q url in after_send q raw turn s d (send s)

  unfoldable pub forward_and_record : TunnelRequest → (url : Text) → Dispatcher → Exchanged
  unfolding with_turn request_turn extract_claw_session_id
  forward_and_record q url d =
      let raw = extract_claw_session_id q.headers in
      with_turn q url raw (request_turn w m.clock raw d)
