-- ===== src/Forward/Tunnel/Rounds.antt =====
-- claude_tap/forward_proxy.py: serving a connection comes to an end.
use claude_tap.Base.{
  ℕ, zero, suc, ◌<◌, Text, Bool, true, false, Option, some, List, ◌++◌, ◌≡◌, refl, ap, arith, codes,
  length, bind, if◌then◌else◌,
}
use claude_tap.Session.Dispatcher.{Dispatcher}
use claude_tap.Forward.Reading.{Next, hang_up, serve}
use claude_tap.Forward.Reading.Rounds.{Shrinks, read_request-total}
use claude_tap.Forward.Exchange.{forward_and_record}
use claude_tap.Forward.Upgrade.{is_websocket_upgrade}
use claude_tap.Forward.Tunnel.{
  Net, Served, closed, and_then, serve_next, tunnel_loop, handle_tunneled_requests,
}

-- A result there is, and the same from each of two computations.
record SameResult (x y : Option Served) : Type 0 where
  result : Served
  first : x ≡ some result
  second : y ≡ some result

some-SameResult : (s : Served) → SameResult (some s) (some s)
some-SameResult s = record { result = s; first = refl; second = refl }

bind-SameResult :
    (x y : Option Served) (f : Served → Served)
    → SameResult x y
    → SameResult (bind x λ s. some (f s)) (bind y λ s. some (f s))
bind-SameResult x y f h = record {
  result = f h.result;
  first = ap (λ (o : Option Served). bind o λ s. some (f s)) h.first;
  second = ap (λ (o : Option Served). bind o λ s. some (f s)) h.second;
}

if-SameResult :
    (b : Bool) (x x' y y' : Option Served)
    → SameResult x x'
    → SameResult y y'
    → SameResult (if b then x else y) (if b then x' else y')
if-SameResult true x x' y y' hx hy = hx
if-SameResult false x x' y y' hx hy = hy

module _ (net : Net) (address : Text) where
  abbrev Rest : Type 0
  Rest = List ℕ → Dispatcher → Option Served

  serve_next-same :
      (round : ℕ) (f g : Rest) (bytes : List ℕ) (n : Next) (d : Dispatcher)
      → Shrinks bytes n
      → ((rest : List ℕ) (e : Dispatcher)
          → length rest < length bytes
          → SameResult (f rest e) (g rest e))
      → SameResult (serve_next net address round f n d) (serve_next net address round g n d)
  unfolding serve_next
  serve_next-same round f g bytes hang_up d h k = record {
    result = closed d;
    first = refl;
    second = refl;
  }
  serve_next-same round f g bytes (serve q rest) d h k =
      let url = codes "https://" ++ address ++ q.path in
      let x = forward_and_record net.world (net.moments round) net.send q url d in
      if-SameResult (is_websocket_upgrade q.headers) _ _ _ _ (some-SameResult _) (
        if-SameResult x.returned _ _ _ _
          (bind-SameResult (f rest x.dispatcher) (g rest x.dispatcher) (and_then x)
            (k rest x.dispatcher h))
          (some-SameResult _))

  tunnel_loop-same :
      (n m round : ℕ) (bytes : List ℕ) (d : Dispatcher)
      → length bytes < n
      → length bytes < m
      → SameResult
          (tunnel_loop net address n round bytes d)
          (tunnel_loop net address m round bytes d)
  unfolding tunnel_loop
  tunnel_loop-same zero m round bytes d hn hm = absurd (omega arith)
  tunnel_loop-same (suc n) zero round bytes d hn hm = absurd (omega arith)
  tunnel_loop-same (suc n) (suc m) round bytes d hn hm =
      let (next, e, shrinks) = read_request-total net.world.decode net.to_int bytes in
      rw e (
        serve_next-same round (tunnel_loop net address n (suc round))
          (tunnel_loop net address m (suc round)) bytes next d shrinks
          (λ rest c h.
            tunnel_loop-same n m (suc round) rest c (omega (arith, h)) (omega (arith, h))))

  -- Serving the requests of a tunnel comes to an end on any bytes, and to the same end whatever the
  -- number of rounds is, if it is more than that of the bytes.
  pub handle_tunneled_requests-total :
      (rounds : ℕ) (bytes : List ℕ) (d : Dispatcher)
      → length bytes < rounds
      → (s : Served) × (handle_tunneled_requests net address bytes d ≡ some s)
        × (tunnel_loop net address rounds 0 bytes d ≡ some s)
  unfolding handle_tunneled_requests
  handle_tunneled_requests-total rounds bytes d h =
      let same = tunnel_loop-same (suc (length bytes)) rounds 0 bytes d (omega arith) h in
      (same.result, same.first, same.second)
