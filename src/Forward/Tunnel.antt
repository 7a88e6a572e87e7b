-- ===== src/Forward/Tunnel.antt =====
-- claude_tap/forward_proxy.py: `_handle_client` with `_handle_connect`, `_handle_tunneled_requests`
-- and `_handle_plain_proxy`. A connection takes the bytes that the client sends until it closes. TLS
-- is a parameter: `tunnel_bytes` is what comes out of the handshake with a host, `none` where it
-- fails. `urlparse` gives the path and the query of a URL. `moments` has the times of each request of
-- the connection. A result `none` is a loop that is out of rounds.
pub mod Rounds
pub mod Pipelined
pub mod Upstream
use claude_tap.Base.{
  ℕ, zero, suc, ◌+◌, Text, Bool, true, false, ◌||◌, Option, none, some, List, [], ◌∷◌, ◌++◌, codes,
  map, if◌then◌else◌, is_nil, bind, get_or, text_eq, has_char, split_last, split_all, strip, ltb,
  length, decimal, upper, Dict,
}
use claude_tap.Json.{ℤ, pos, negsuc, Json}
use claude_tap.Session.Dispatcher.{Dispatcher}
use claude_tap.Proxy.Messages.{World, Moment, Sent}
use claude_tap.Proxy.Relay.{WsSent}
use claude_tap.Forward.Wire.{crlf}
use claude_tap.Forward.Reading.{
  TunnelRequest, Next, hang_up, serve, read_line, read_headers, read_message, read_request,
}
use claude_tap.Forward.Exchange.{Reached, Exchanged, forward_and_record}
use claude_tap.Forward.Upgrade.{TunnelConnection, Upgraded, is_websocket_upgrade, forward_websocket}

-- What is not this program's: `int`, the answers from upstream, TLS, and the parsing of URLs.
pub record Net : Type 0 where
  pub world : World
  pub moments : ℕ → Moment
  pub to_int : Text → Option ℤ
  pub send : Sent → Reached
  pub item_key : Json → Text
  pub accept : Text → Text
  pub connect : WsSent → TunnelConnection
  pub tunnel_bytes : (hostname : Text) → List ℕ → Option (List ℕ)
  pub urlparse : Text → Text × Text

-- What a connection has done: the bytes written to the client, the requests and the WebSocket
-- connections made upstream, and the dispatcher afterwards.
pub record Served : Type 0 where
  pub written : List ℕ
  pub sent : List Sent
  pub upgraded : List WsSent
  pub dispatcher : Dispatcher

abbrev pub option_list {ℓ} : {A : Type ℓ} → Option A → List A
option_list none = []
option_list (some a) = a ∷ []

abbrev pub closed : Dispatcher → Served
closed d = record { written = []; sent = []; upgraded = []; dispatcher = d }

abbrev pub exchanged : Exchanged → Served
exchanged x = record {
  written = x.written;
  sent = option_list x.sent;
  upgraded = [];
  dispatcher = x.dispatcher;
}

abbrev pub switched : Upgraded → Served
switched u = record {
  written = u.written;
  sent = [];
  upgraded = option_list u.ws_sent;
  dispatcher = u.dispatcher;
}

-- An exchange and what the connection does after it.
abbrev pub and_then : Exchanged → Served → Served
and_then x s = record s { written = x.written ++ s.written; sent = option_list x.sent ++ s.sent }

-- `f"{n}"`
unfoldable pub int_text : ℤ → Text
unfolding decimal
int_text (pos n) = decimal n
int_text (negsuc n) = b'-' ∷ decimal (suc n)

module _ (net : Net) where
  -- A round of the loop: `continue` is the rest of it.
  unfoldable pub serve_next :
      (address : Text)
      → (round : ℕ) → (List ℕ → Dispatcher → Option Served)
      → Next
      → Dispatcher
      → Option Served
  unfolding is_websocket_upgrade forward_websocket forward_and_record
  serve_next address round continue hang_up d = some (closed d)
  serve_next address round continue (serve q rest) d =
      let w = net.world in
      let m = net.moments round in
      let url = codes "https://" ++ address ++ q.path in
      let x = forward_and_record w m net.send q url d in
      if is_websocket_upgrade q.headers
      then some (switched (forward_websocket w m net.item_key net.accept net.connect q address d))
      else if x.returned
      then bind (continue rest x.dispatcher) (λ s. some (and_then x s))
      else some (exchanged x)

  unfoldable pub tunnel_loop :
      (address : Text) → (rounds round : ℕ) → List ℕ → Dispatcher → Option Served
  unfolding read_request serve_next
  tunnel_loop address zero round bytes d = none
  tunnel_loop address (suc rounds) round bytes d =
      bind (read_request net.world.decode net.to_int bytes)
        λ n. serve_next address round (tunnel_loop address rounds (suc round)) n d

  -- `address` is `hostname:port`.
  unfoldable pub handle_tunneled_requests : (address : Text) → List ℕ → Dispatcher → Option Served
  unfolding tunnel_loop
  handle_tunneled_requests address bytes d = tunnel_loop address (suc (length bytes)) 0 bytes d
