-- ===== src/Proxy/Entry/Tracing.antt =====
-- claude_tap/proxy.py, `proxy_handler`: a request without a session leaves no trace.
use claude_tap.Base.{Text, Bool, none, not, ◌≡◌, refl, codes, text_eq, lower, if_ind}
use claude_tap.Json.{Json}
use claude_tap.Session.Claw.{extract_claw_session_id}
use claude_tap.Session.Dispatcher.{Dispatcher}
use claude_tap.Proxy.Paths.{is_allowed_path}
use claude_tap.Proxy.Messages.{World, Moment, Upstream, Request}
use claude_tap.Proxy.Handler.{header_of}
use claude_tap.Proxy.Handler.Tracing.{handle_http-untraced}
use claude_tap.Proxy.Relay.{WsSent, Connection}
use claude_tap.Proxy.Relay.Untraced.{handle_websocket-untraced}
use claude_tap.Proxy.Entry.{Handled, dispatcher_after, proxy_handler}

module _ (item_key : Json → Text) (connect : WsSent → Connection) (w : World) (m : Moment)
    (upstream : Upstream) (q : Request) where
  -- A request that names no session changes nothing in the dispatcher: no turn is taken, no writer
  -- is opened and no record is written, be it refused, answered as a call of the API, or relayed as a
  -- WebSocket connection.
  pub proxy_handler-untraced :
      (force_http : Bool) (d : Dispatcher)
      → extract_claw_session_id q.headers ≡ none
      → dispatcher_after (proxy_handler item_key connect w m force_http upstream q d) ≡ d
  unfolding proxy_handler
  proxy_handler-untraced force_http d h =
      let P = λ (r : Handled). dispatcher_after r ≡ d in
      if_ind P (not (is_allowed_path q.path)) _ _ (λ e. refl)
        λ e.
          if_ind P (text_eq (lower (header_of (codes "upgrade") q.headers)) (codes "websocket")) _ _
            (λ u.
              if_ind P force_http _ _ (λ f. refl)
                (λ f. handle_websocket-untraced item_key connect w m upstream q d h))
            (λ u. handle_http-untraced w m upstream q d h)
