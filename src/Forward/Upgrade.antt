-- ===== src/Forward/Upgrade.antt =====
-- claude_tap/forward_proxy.py: `_forward_websocket`, inside a tunnel. `accept` is `_build_ws_accept`
-- on a key; `connect` is what comes of the connection upstream: an exception with its text, or the
-- protocol that was agreed on, empty if none, and the texts that the relay has received from the
-- client and from the upstream when it ends. The frames themselves and the proxy settings from the
-- environment are left out.
use claude_tap.Base.{
  ℕ, Text, Bool, true, false, not, ◌||◌, ◌&&◌, Option, none, some, List, [], ◌∷◌, ◌++◌, codes, map,
  if◌then◌else◌, is_nil, lower, Dict, lookup, erase, get_or, bind, keep, split_all, strip,
  starts_with, has_part, text_eq,
}
use claude_tap.Json.{Json, null, num, pos, str, arr, obj, Fields, end, field, of_list}
use claude_tap.Session.Claw.{extract_claw_session_id, strip_claw_session_header}
use claude_tap.Session.Dispatcher.{Dispatcher}
use claude_tap.Proxy.Headers.{filter_headers, is_hop}
use claude_tap.Proxy.Messages.{World, Moment}
use claude_tap.Proxy.Records.{body_json, headers_json}
use claude_tap.Proxy.Relay.{WsSent}
use claude_tap.Proxy.Websocket.{reconstruct_ws_request_body, reconstruct_ws_response_body}
use claude_tap.Proxy.Handler.{trace, request_turn}
use claude_tap.Forward.Wire.{crlf, utf8, error_reply}
use claude_tap.Forward.Reading.{TunnelRequest, either_header}

-- `_is_websocket_upgrade`
unfoldable pub is_websocket_upgrade : Dict Text → Bool
unfolding lookup lower has_part text_eq
is_websocket_upgrade headers =
    let header : Text → Text → Text =
      λ name low. lower (get_or (lookup name headers) (get_or (lookup low headers) [])) in
    text_eq (header (codes "Upgrade") (codes "upgrade")) (codes "websocket")
    && has_part (codes "upgrade") (header (codes "Connection") (codes "connection"))

unfoldable pub upgrade_headers : Dict Text → Dict Text
unfolding filter_headers strip_claw_session_header erase keep starts_with lower
upgrade_headers headers =
    let filtered = strip_claw_session_header (filter_headers false headers) in
    keep (λ h. not (is_hop h.0 || starts_with (lower h.0) (codes "sec-websocket-")))
      (erase (codes "host") (erase (codes "Host") filtered))

unfoldable pub upgrade_protocols : Dict Text → List Text
unfolding either_header split_all strip keep
upgrade_protocols headers =
    let offered =
      either_header (codes "Sec-WebSocket-Protocol") (codes "sec-websocket-protocol") headers in
    if is_nil offered then [] else keep (λ p. not (is_nil p)) (map strip (split_all b',' offered))

pub data TunnelConnection : Type 0 where
  ws_refused : (error : Text) → TunnelConnection
  ws_relayed : (protocol : Text) → (client server : List Text) → TunnelConnection

pub record Upgraded : Type 0 where
  pub written : List ℕ
  pub ws_sent : Option WsSent
  pub dispatcher : Dispatcher
  pub returned : Bool

abbrev protocol_line : Text → Text
protocol_line [] = []
protocol_line (c ∷ s) = codes "Sec-WebSocket-Protocol: " ++ (c ∷ s) ++ crlf

-- The reply that switches protocols.
unfoldable pub switching_reply : (accepted protocol : Text) → List ℕ
unfolding utf8
switching_reply accepted protocol = utf8 (
    codes "HTTP/1.1 101 Switching Protocols"
    ++ crlf
    ++ codes "Upgrade: websocket"
    ++ crlf
    ++ codes "Connection: Upgrade"
    ++ crlf
    ++ codes "Sec-WebSocket-Accept: "
    ++ accepted
    ++ crlf
    ++ protocol_line protocol
    ++ crlf)

-- `json.loads(msg) if msg.startswith("{") else {"raw": msg}`, `none` where it raises.
unfoldable pub message_events : (Text → Option Json) → List Text → Option (List Json)
unfolding starts_with
message_events loads [] = some []
message_events loads (m ∷ messages) =
    bind (if starts_with m (codes "{") then loads m else some (obj (field "raw" (str m) end)))
      λ event. bind (message_events loads messages) λ events. some (event ∷ events)

-- The fields of a record, those of its request and those of its response given.
abbrev pub upgrade_record :
    Moment → (turn : ℕ) → (base_url : Text) → (request response : Fields) → Fields
upgrade_record m turn base_url request response = field "timestamp" (str m.timestamp) (
    field "request_id" (str m.request_id) (
      field "turn" (num (pos turn)) (
        field "duration_ms" (num (pos m.duration_ms)) (
          field "transport" (str (codes "websocket")) (
            field "request" (obj request)
              (field "response" (obj response) (field "upstream_base_url" (str base_url) end)))))))

abbrev pub upgrade_request : World → TunnelRequest → Json → Fields → Fields
unfolding filter_headers
upgrade_request w q body more = field "method" (str (codes "WEBSOCKET")) (
    field "path" (str q.path) (
      field "headers" (obj (headers_json w.text_of (filter_headers true q.headers)))
        (field "body" body more)))

abbrev pub upgrade_response : (status : ℕ) → Json → Fields → Fields
upgrade_response status body more =
    field "status" (num (pos status)) (field "headers" (obj end) (field "body" body more))

abbrev upgrade_end : List ℕ → WsSent → Bool × Dispatcher → Upgraded
upgrade_end bytes s (returned, d) = record {
  written = bytes;
  ws_sent = some s;
  dispatcher = d;
  returned = returned;
}

module _ (w : World) (m : Moment) (item_key : Json → Text) (accept : Text → Text)
    (connect : WsSent → TunnelConnection) where
  -- The record of a connection that was relayed, `none` where a message is taken for JSON and is not.
  unfoldable pub relayed_record :
      TunnelRequest → (base_url : Text) → (turn : ℕ) → (client server : List Text) → Option Fields
  unfolding upgrade_request message_events of_list reconstruct_ws_request_body
      reconstruct_ws_response_body
  relayed_record q base_url turn client server =
      let body = reconstruct_ws_request_body item_key w.loads client in
      bind (message_events w.loads client) λ sent_events.
        bind (message_events w.loads server) λ got_events. some (
          upgrade_record m turn base_url
            (upgrade_request w q (body_json w.text_of body)
              (field "ws_events" (arr (of_list sent_events)) end))
            (upgrade_response 101 (body_json w.text_of (reconstruct_ws_response_body got_events))
              (field "ws_events" (arr (of_list got_events)) end)))

  unfoldable pub trace_relayed : Option Text → Option Fields → Dispatcher → Bool × Dispatcher
  unfolding trace
  trace_relayed raw none d = (false, d)
  trace_relayed raw (some rec) d = trace w m.clock raw rec d

  unfoldable pub after_connect :
      TunnelRequest
      → (base_url : Text) → Option Text
      → (turn : ℕ) → WsSent
      → Dispatcher
      → TunnelConnection
      → Upgraded
  unfolding upgrade_request trace relayed_record trace_relayed either_header error_reply
      switching_reply
  after_connect q base_url raw turn s d (ws_refused error) = upgrade_end (error_reply error) s (
      trace w m.clock raw
        (upgrade_record m turn base_url (upgrade_request w q null end)
          (upgrade_response 502 null (field "error" (str error) end)))
        d)
  after_connect q base_url raw turn s d (ws_relayed protocol client server) =
      let key = either_header (codes "Sec-WebSocket-Key") (codes "sec-websocket-key") q.headers in
      if is_nil key
      then upgrade_end
          (codes "HTTP/1.1 400 Bad Request" ++ crlf ++ codes "Content-Length: 0" ++ crlf ++ crlf) s
          (true, d)
      else upgrade_end (switching_reply (accept key) protocol) s
          (trace_relayed raw (relayed_record q base_url turn client server) d)

  unfoldable pub upgrade_turn :
      TunnelRequest → (address : Text) → Option Text → Option ℕ × Dispatcher → Upgraded
  unfolding after_connect upgrade_headers upgrade_protocols
  upgrade_turn q address raw (none, d) = record {
    written = [];
    ws_sent = none;
    dispatcher = d;
    returned = false;
  }
  upgrade_turn q address raw (some turn, d) =
      let s : WsSent = record {
        url = codes "wss://" ++ address ++ q.path;
        headers = upgrade_headers q.headers;
        protocols = upgrade_protocols q.headers;
      } in
      after_connect q (codes "https://" ++ address) raw turn s d (connect s)

  -- `address` is `hostname:port`.
  unfoldable pub forward_websocket : TunnelRequest → (address : Text) → Dispatcher → Upgraded
  unfolding upgrade_turn request_turn extract_claw_session_id
  forward_websocket q address d =
      let raw = extract_claw_session_id q.headers in
      upgrade_turn q address raw (request_turn w m.clock raw d)
