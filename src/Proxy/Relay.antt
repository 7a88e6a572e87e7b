-- ===== src/Proxy/Relay.antt =====
-- claude_tap/proxy.py: `_handle_websocket`. The two relay tasks are a step relation: in each state
-- either task may take its next frame, and may end, because its connection closes, because sending
-- fails, or because it is cancelled once the other task has ended. A run of the handler takes what
-- comes of the connection: an exception with its text, or the relay as it is at the end. The proxy
-- settings from the environment are left out.
pub mod Faithful
pub mod Untraced
use claude_tap.Base.{
  ℕ, Text, Bool, true, false, not, Option, none, some, List, [], ◌∷◌, ◌++◌, ◌≡◌, codes,
  if◌then◌else◌, ◌==◌, is_nil, keep, map, strip, Dict, erase, split_all,
}
use claude_tap.Json.{Json, Fields}
use claude_tap.Session.Claw.{extract_claw_session_id, strip_claw_session_header}
use claude_tap.Session.Dispatcher.{Dispatcher}
use claude_tap.Upstream.Config.{Snapshot}
use claude_tap.Proxy.Headers.{filter_headers, named_in}
use claude_tap.Proxy.Paths.{upstream_url, websocket_url}
use claude_tap.Proxy.Records.{Call, build_ws_record}
use claude_tap.Proxy.Messages.{World, Moment, Upstream, Request}
use claude_tap.Proxy.Handler.{
  not_ready, resolve_upstream, apply_gateway_upstream_auth, header_of, request_turn, trace, call_of,
}

-- A message of a connection; what ends a relay is no message here.
pub data Frame : Type 0 where
  text : Text → Frame
  binary : List ℕ → Frame

-- One relay task: what it will receive, the texts it has recorded, what it has sent on, and whether
-- it has ended.
pub record Way : Type 0 where
  pub incoming : List Frame
  pub recorded : List Text
  pub delivered : List Frame
  pub over : Bool

abbrev pub way_of : List Frame → Way
way_of frames = record { incoming = frames; recorded = []; delivered = []; over = false }

-- A task receives a frame and sends it on, a text being recorded before it is sent; `cut` is a text
-- that is recorded and not sent, because sending it fails or is cancelled.
pub data Moves : Way → Way → Type 0 where
  send_text :
      (w : Way) (m : Text) (rest : List Frame)
      → w.over ≡ false
      → w.incoming ≡ text m ∷ rest
      → Moves w (record w {
        incoming = rest;
        recorded = w.recorded ++ m ∷ [];
        delivered = w.delivered ++ text m ∷ [];
      })
  send_binary :
      (w : Way) (b : List ℕ) (rest : List Frame)
      → w.over ≡ false
      → w.incoming ≡ binary b ∷ rest
      → Moves w (record w { incoming = rest; delivered = w.delivered ++ binary b ∷ [] })
  cut :
      (w : Way) (m : Text) (rest : List Frame)
      → w.over ≡ false
      → w.incoming ≡ text m ∷ rest
      → Moves w (record w { recorded = w.recorded ++ m ∷ []; over = true })
  stop : (w : Way) → w.over ≡ false → Moves w (record w { over = true })

-- Both tasks: from the client to the upstream, and back.
pub record Relay : Type 0 where
  pub client : Way
  pub server : Way

pub data Step : Relay → Relay → Type 0 where
  client_moves : (r : Relay) (w : Way) → Moves r.client w → Step r (record r { client = w })
  server_moves : (r : Relay) (w : Way) → Moves r.server w → Step r (record r { server = w })

pub data Reach (r : Relay) : Relay → Type 0 where
  here : Reach r r
  next : {s t : Relay} → Reach r s → Step s t → Reach r t

abbrev pub relay_of : (client server : List Frame) → Relay
relay_of client server = record { client = way_of client; server = way_of server }

-- `_WS_HANDSHAKE_HEADERS`
abbrev pub ws_handshake_headers : List Text
ws_handshake_headers =
    codes "sec-websocket-key"
    ∷ codes "sec-websocket-version"
    ∷ codes "sec-websocket-extensions"
    ∷ codes "sec-websocket-protocol"
    ∷ codes "sec-websocket-accept"
    ∷ []

unfoldable pub ws_headers : Upstream → List (Text × Text) → Dict Text
unfolding keep filter_headers strip_claw_session_header apply_gateway_upstream_auth erase named_in
ws_headers upstream headers =
    keep (λ h. not (named_in ws_handshake_headers h.0))
      (erase (codes "Host") (
        apply_gateway_upstream_auth upstream
          (strip_claw_session_header (filter_headers false headers))))

unfoldable pub protocols_of : List (Text × Text) → List Text
unfolding header_of split_all strip
protocols_of headers =
    let offered = header_of (codes "sec-websocket-protocol") headers in
    if is_nil offered then [] else map strip (split_all b',' offered)

pub record WsSent : Type 0 where
  pub url : Text
  pub headers : Dict Text
  pub protocols : List Text

pub data Connection : Type 0 where
  refused : (error : Text) → Connection
  relayed : Relay → Connection

pub data WsReply : Type 0 where
  ws_status : ℕ → WsReply
  ws_raised : WsReply
  ws_closed : WsReply

pub record WsResult : Type 0 where
  pub response : WsReply
  pub ws_sent : Option WsSent
  pub dispatcher : Dispatcher

abbrev pub messages_of : Connection → List Text × List Text
messages_of (refused error) = ([], [])
messages_of (relayed r) = (r.client.recorded, r.server.recorded)

abbrev pub error_of : Connection → Text
error_of (refused error) = error
error_of (relayed r) = []

abbrev ws_reply_of : Connection → (written : Bool) → WsReply
ws_reply_of c false = ws_raised
ws_reply_of (refused error) true = ws_status 502
ws_reply_of (relayed r) true = ws_closed

abbrev ws_target : Upstream → Request → Snapshot → WsSent
unfolding ws_headers upstream_url websocket_url protocols_of
ws_target upstream q up = record {
  url = websocket_url (upstream_url up.target up.strip_path_prefix q.path_qs);
  headers = ws_headers upstream q.headers;
  protocols = protocols_of q.headers;
}

abbrev ws_end : Connection → Option WsSent → Bool × Dispatcher → WsResult
ws_end c s (written, d) = record { response = ws_reply_of c written; ws_sent = s; dispatcher = d }

module _ (item_key : Json → Text) (connect : WsSent → Connection) where
  -- The record has the texts of both directions, also where the connection was refused.
  unfoldable pub ws_connected :
      World
      → Moment
      → Upstream
      → Request
      → Option Text
      → Snapshot
      → Option ℕ × Dispatcher
      → WsResult
  unfolding ws_target build_ws_record trace
  ws_connected w m upstream q raw up (none, d) = record {
    response = ws_raised;
    ws_sent = none;
    dispatcher = d;
  }
  ws_connected w m upstream q raw up (some turn, d) =
      let s = ws_target upstream q up in
      let c = connect s in
      let rec =
        build_ws_record w.text_of item_key w.loads (call_of m q up.target turn) (messages_of c).0
          (messages_of c).1 (error_of c) in
      ws_end c (some s) (trace w m.clock raw rec d)

  unfoldable pub ws_forward :
      World → Moment → Upstream → Request → Option Snapshot → Dispatcher → WsResult
  unfolding ws_connected request_turn extract_claw_session_id
  ws_forward w m upstream q none d = record { response = ws_raised; ws_sent = none; dispatcher = d }
  ws_forward w m upstream q (some up) d =
      let raw = extract_claw_session_id q.headers in
      ws_connected w m upstream q raw up (request_turn w m.clock raw d)

  unfoldable pub handle_websocket : World → Moment → Upstream → Request → Dispatcher → WsResult
  unfolding not_ready resolve_upstream ws_forward
  handle_websocket w m upstream q d =
      if not_ready upstream
      then record { response = ws_status 503; ws_sent = none; dispatcher = d }
      else ws_forward w m upstream q (resolve_upstream upstream) d
