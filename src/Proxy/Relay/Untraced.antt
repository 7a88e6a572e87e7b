-- ===== src/Proxy/Relay/Untraced.antt =====
-- claude_tap/proxy.py, `_handle_websocket`: a connection without a session leaves no trace.
use claude_tap.Base.{Text, Option, none, some, ◌≡◌, refl, if_ind}
use claude_tap.Json.{Json}
use claude_tap.Session.Claw.{extract_claw_session_id}
use claude_tap.Session.Dispatcher.{Dispatcher}
use claude_tap.Upstream.Config.{Snapshot}
use claude_tap.Proxy.Messages.{World, Moment, Upstream, Request}
use claude_tap.Proxy.Handler.{not_ready, resolve_upstream, request_turn, trace}
use claude_tap.Proxy.Relay.{
  WsSent, Connection, WsResult, ws_connected, ws_forward, handle_websocket,
}

module _ (item_key : Json → Text) (connect : WsSent → Connection) (w : World) (m : Moment)
    (upstream : Upstream) (q : Request) where
  ws_forward-untraced :
      (up : Option Snapshot) (d : Dispatcher)
      → extract_claw_session_id q.headers ≡ none
      → (ws_forward item_key connect w m upstream q up d).dispatcher ≡ d
  unfolding ws_forward ws_connected request_turn trace
  ws_forward-untraced none d h = refl
  ws_forward-untraced (some up) d h = rw h refl

  -- A WebSocket request that names no session changes nothing in the dispatcher, whether it is
  -- refused or relayed.
  pub handle_websocket-untraced :
      (d : Dispatcher)
      → extract_claw_session_id q.headers ≡ none
      → (handle_websocket item_key connect w m upstream q d).dispatcher ≡ d
  unfolding handle_websocket
  handle_websocket-untraced d h =
      if_ind (λ (r : WsResult). r.dispatcher ≡ d) (not_ready upstream) _ _ (λ n. refl)
        (λ n. ws_forward-untraced (resolve_upstream upstream) d h)
