-- ===== src/Forward/Tunnel/Pipelined.antt =====
-- claude_tap/forward_proxy.py, `_handle_tunneled_requests`: the requests of a connection are served one
-- after the other, each as if it had been read on its own.
use claude_tap.Base.{
  ℕ, zero, suc, ◌<◌, ◌≤◌, Text, Bool, true, false, some, List, [], ◌∷◌, ◌++◌, ◌≡◌, refl, arith,
  codes, length, length-append, All, if◌then◌else◌,
}
use claude_tap.Session.Dispatcher.{Dispatcher}
use claude_tap.Forward.Reading.{TunnelRequest}
use claude_tap.Forward.Reading.Rendered.{
  render, render_headers, request_line, IsRequest, read_request-render,
}
use claude_tap.Forward.Wire.{crlf}
use claude_tap.Forward.Exchange.{forward_and_record}
use claude_tap.Forward.Upgrade.{is_websocket_upgrade, forward_websocket}
use claude_tap.Forward.Tunnel.{
  Net, Served, closed, exchanged, switched, and_then, serve_next, tunnel_loop,
  handle_tunneled_requests,
}

unfoldable pub render_all : (version : Text) → List TunnelRequest → List ℕ
unfolding render
render_all version [] = []
render_all version (q ∷ requests) = render version q ++ render_all version requests

-- The requests in their order, up to one that raises or that leaves HTTP for a WebSocket.
unfoldable pub serve_all :
    Net → (address : Text) → (round : ℕ) → List TunnelRequest → Dispatcher → Served
unfolding forward_and_record forward_websocket is_websocket_upgrade
serve_all net address round [] d = closed d
serve_all net address round (q ∷ requests) d =
    let m = net.moments round in
    let x = forward_and_record net.world m net.send q (codes "https://" ++ address ++ q.path) d in
    let later = serve_all net address (suc round) requests x.dispatcher in
    if is_websocket_upgrade q.headers
    then switched (forward_websocket net.world m net.item_key net.accept net.connect q address d)
    else if x.returned
    then and_then x later
    else exchanged x

choose-some :
    (b c : Bool) (x y z : Served)
    → (if b then some x else if c then some y else some z)
      ≡ some (if b then x else if c then y else z)
choose-some true c x y z = refl
choose-some false true x y z = refl
choose-some false false x y z = refl

length-render : (version : Text) (q : TunnelRequest) → 0 < length (render version q)
unfolding render
length-render version q =
    omega
      (arith, length-append (request_line version q) (crlf ++ (render_headers q.headers ++ q.body)))

length-render_all :
    (version : Text) (requests : List TunnelRequest)
    → length requests ≤ length (render_all version requests)
unfolding render_all
length-render_all version [] = omega arith
length-render_all version (q ∷ requests) = omega (
  arith,
  length-render version q,
  length-append (render version q) (render_all version requests),
  length-render_all version requests,
)

module _ (net : Net) (address version : Text)
    (ascii : (s : Text) → All (λ c. c < 128) s → net.world.decode s ≡ s) where
  tunnel_loop-render_all :
      (rounds round : ℕ) (requests : List TunnelRequest) (d : Dispatcher)
      → length requests < rounds
      → All (IsRequest net.to_int version) requests
      → tunnel_loop net address rounds round (render_all version requests) d
        ≡ some (serve_all net address round requests d)
  unfolding tunnel_loop serve_next render_all serve_all
  tunnel_loop-render_all zero round requests d n h = absurd (omega arith)
  tunnel_loop-render_all (suc rounds) round [] d n h = refl
  tunnel_loop-render_all (suc rounds) round (q ∷ requests) d n h =
      let m = net.moments round in
      let x = forward_and_record net.world m net.send q (codes "https://" ++ address ++ q.path) d in
      let u = forward_websocket net.world m net.item_key net.accept net.connect q address d in
      rw
        (
          read_request-render net.world.decode net.to_int ascii version q
              (render_all version requests) h.0,
          tunnel_loop-render_all rounds (suc round) requests _ (omega arith) h.1,
        )
        (choose-some (is_websocket_upgrade q.headers) x.returned (switched u)
          (and_then x (serve_all net address (suc round) requests x.dispatcher)) (exchanged x))

  -- On a connection that carries the requests of a list, one written after the other and each in the
  -- form that a client may send, the proxy does what it does with each of them in turn, up to one that
  -- raises or that is a WebSocket upgrade: no byte of one is read as part of another, and the
  -- dispatcher that one leaves is the next one's. Decoding is to leave ASCII as it is.
  pub handle_tunneled_requests-render_all :
      (requests : List TunnelRequest) (d : Dispatcher)
      → All (IsRequest net.to_int version) requests
      → handle_tunneled_requests net address (render_all version requests) d
        ≡ some (serve_all net address 0 requests d)
  unfolding handle_tunneled_requests
  handle_tunneled_requests-render_all requests d h =
      tunnel_loop-render_all (suc (length (render_all version requests))) 0 requests d
        (omega (arith, length-render_all version requests)) h
