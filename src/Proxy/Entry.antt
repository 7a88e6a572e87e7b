-- ===== src/Proxy/Entry.antt =====
-- claude_tap/proxy.py, `proxy_handler`: a request is refused, goes to `_handle_websocket` (Relay), or is
-- answered as a call of the API (Handler).
pub mod Forwarding
pub mod Tracing
use claude_tap.Base.{Text, Bool, true, false, not, if◌then◌else◌, codes, text_eq, lower}
use claude_tap.Json.{Json}
use claude_tap.Session.Dispatcher.{Dispatcher}
use claude_tap.Proxy.Messages.{World, Moment, Upstream, Request, Result}
use claude_tap.Proxy.Paths.{is_allowed_path}
use claude_tap.Proxy.Handler.{header_of, refuse, handle_http}
use claude_tap.Proxy.Relay.{WsSent, Connection, WsResult, handle_websocket}

-- What a request comes to, as a call or as a WebSocket connection.
pub data Handled : Type 0 where
  called : Result → Handled
  connected : WsResult → Handled

abbrev pub dispatcher_after : Handled → Dispatcher
dispatcher_after (called r) = r.dispatcher
dispatcher_after (connected r) = r.dispatcher

module _ (item_key : Json → Text) (connect : WsSent → Connection) where
  unfoldable pub proxy_handler :
      World → Moment → (force_http : Bool) → Upstream → Request → Dispatcher → Handled
  unfolding is_allowed_path header_of lower text_eq handle_http handle_websocket
  proxy_handler w m force_http upstream q d =
      if not (is_allowed_path q.path)
      then called (refuse 404 d)
      else if text_eq (lower (header_of (codes "upgrade") q.headers)) (codes "websocket")
      then if force_http
        then called (refuse 426 d)
        else connected (handle_websocket item_key connect w m upstream q d)
      else called (handle_http w m upstream q d)
