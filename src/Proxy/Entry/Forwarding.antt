-- ===== src/Proxy/Entry/Forwarding.antt =====
-- claude_tap/proxy.py, `proxy_handler`: what the proxy sends upstream.
use claude_tap.Base.{
  ℕ, Text, Bool, true, false, not, Option, none, some, List, ◌≡◌, refl, codes, text_eq, lower, Dict,
  if_ind, ◌⊎◌, inl, inr, All, All-keep, All-keep_of, All-erase, All-mono, erase,
}
use claude_tap.Json.{Json}
use claude_tap.Session.Claw.{extract_claw_session_id, strip_claw_session_header}
use claude_tap.Session.Dispatcher.{Dispatcher}
use claude_tap.Upstream.Config.{Snapshot}
use claude_tap.Proxy.Headers.{named_in, filter_headers}
use claude_tap.Proxy.Paths.{is_allowed_path}
use claude_tap.Proxy.Messages.{World, Moment, Upstream, Request}
use claude_tap.Proxy.Handler.{
  header_of, not_ready, resolve_upstream, request_turn, apply_gateway_upstream_auth,
}
use claude_tap.Proxy.Handler.Forwarding.{
  IsForwardable, IsRightful, auth-Forwardable, filtered-Forwardable, handle_http-Rightful,
}
use claude_tap.Proxy.Relay.{
  WsSent, Connection, WsResult, ws_handshake_headers, ws_headers, ws_connected, ws_forward,
  handle_websocket,
}
use claude_tap.Proxy.Entry.{Handled, called, connected, proxy_handler}

-- A header of the handshake of the client's own connection.
abbrev pub is_handshake : Text → Bool
is_handshake = named_in ws_handshake_headers

not-true : (b : Bool) → not b ≡ true → b ≡ false
not-true true h = cc
not-true false h = refl

not-false : (b : Bool) → not b ≡ false → b ≡ true
not-false true h = refl
not-false false h = cc

abbrev unfiltered : Upstream → List (Text × Text) → Dict Text
unfolding filter_headers strip_claw_session_header apply_gateway_upstream_auth erase
unfiltered upstream headers = erase (codes "Host") (
    apply_gateway_upstream_auth upstream (strip_claw_session_header (filter_headers false headers)))

ws_headers-Forwardable :
    (upstream : Upstream) (headers : List (Text × Text))
    → All (λ h. IsForwardable h.0) (ws_headers upstream headers)
unfolding ws_headers
ws_headers-Forwardable upstream headers =
    All-keep_of (λ h. IsForwardable h.0) (λ h. not (is_handshake h.0)) _
      (All-erase IsForwardable (codes "Host") _
        (auth-Forwardable upstream _ (filtered-Forwardable headers)))

ws_headers-handshake :
    (upstream : Upstream) (headers : List (Text × Text))
    → All (λ h. is_handshake h.0 ≡ false) (ws_headers upstream headers)
unfolding ws_headers unfiltered
ws_headers-handshake upstream headers =
    All-mono (λ h. not (is_handshake h.0) ≡ true) (λ h. is_handshake h.0 ≡ false)
      (λ h e. not-true (is_handshake h.0) e) (ws_headers upstream headers)
      (All-keep {A = Text × Text} (λ h. not (is_handshake h.0)) (unfiltered upstream headers))

-- What may be sent to open a connection, if it is opened.
abbrev pub IsRightfulWs : Option WsSent → Type 0
IsRightfulWs none = Unit
IsRightfulWs (some s) =
    All (λ h. IsForwardable h.0) s.headers × All (λ h. is_handshake h.0 ≡ false) s.headers

-- What may be sent on behalf of a request.
abbrev pub IsProper : Request → Handled → Type 0
IsProper q (called r) = IsRightful q r.sent
IsProper q (connected r) = IsRightfulWs r.ws_sent

-- Nothing has been sent.
abbrev pub IsSilent : Handled → Type 0
IsSilent (called r) = r.sent ≡ none
IsSilent (connected r) = r.ws_sent ≡ none

module _ (item_key : Json → Text) (connect : WsSent → Connection) (w : World) (m : Moment)
    (upstream : Upstream) (q : Request) where
  ws_connected-RightfulWs :
      (raw : Option Text) (up : Snapshot) (t : Option ℕ × Dispatcher)
      → IsRightfulWs (ws_connected item_key connect w m upstream q raw up t).ws_sent
  unfolding ws_connected
  ws_connected-RightfulWs raw up (none, d) = tt
  ws_connected-RightfulWs raw up (some turn, d) =
      (ws_headers-Forwardable upstream q.headers, ws_headers-handshake upstream q.headers)

  ws_forward-RightfulWs :
      (up : Option Snapshot) (d : Dispatcher)
      → IsRightfulWs (ws_forward item_key connect w m upstream q up d).ws_sent
  unfolding ws_forward
  ws_forward-RightfulWs none d = tt
  ws_forward-RightfulWs (some up) d =
      let raw = extract_claw_session_id q.headers in
      ws_connected-RightfulWs raw up (request_turn w m.clock raw d)

  handle_websocket-RightfulWs :
      (d : Dispatcher) → IsRightfulWs (handle_websocket item_key connect w m upstream q d).ws_sent
  unfolding handle_websocket
  handle_websocket-RightfulWs d =
      if_ind (λ (r : WsResult). IsRightfulWs r.ws_sent) (not_ready upstream) _ _ (λ n. tt)
        (λ n. ws_forward-RightfulWs (resolve_upstream upstream) d)

  -- What a run of the handler sends upstream, if it sends anything, is for a request to an allowed
  -- path. Of a call it has the method and the body of the request, and of both a call and the opening of
  -- a WebSocket connection the headers are neither hop-by-hop headers nor the header of the session;
  -- the opening has no header of the client's own handshake.
  pub proxy_handler-IsProper :
      (force_http : Bool) (d : Dispatcher)
      → IsProper q (proxy_handler item_key connect w m force_http upstream q d)
        × ((is_allowed_path q.path ≡ true)
            ⊎ IsSilent (proxy_handler item_key connect w m force_http upstream q d))
  unfolding proxy_handler
  proxy_handler-IsProper force_http d =
      let P = λ (h : Handled). IsProper q h × ((is_allowed_path q.path ≡ true) ⊎ IsSilent h) in
      if_ind P (not (is_allowed_path q.path)) _ _ (λ e. (tt, inr refl))
        λ e.
          if_ind P (text_eq (lower (header_of (codes "upgrade") q.headers)) (codes "websocket")) _ _
            (λ u.
              if_ind P force_http _ _ (λ f. (tt, inr refl))
                (λ f. (handle_websocket-RightfulWs d, inl (not-false _ e))))
            (λ u. (handle_http-Rightful w m upstream q d, inl (not-false _ e)))
