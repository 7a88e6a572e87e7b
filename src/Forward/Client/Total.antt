-- ===== src/Forward/Client/Total.antt =====
-- claude_tap/forward_proxy.py: a connection comes to an end.
use claude_tap.Base.{
  ℕ, zero, suc, ◌<◌, Text, Option, none, some, List, [], ◌∷◌, ◌++◌, ◌≡◌, refl, arith, length,
  if_ind, bind, is_nil, Bool-cases, inl, inr, split_all, strip, text_eq, upper, codes,
}
use claude_tap.Json.{ℤ}
use claude_tap.Session.Dispatcher.{Dispatcher}
use claude_tap.Forward.Reading.{read_line, ends_headers}
use claude_tap.Forward.Reading.Rounds.{read_line-shorter, ends_headers-nonempty, read_message-total}
use claude_tap.Forward.Tunnel.{Net, Served, int_text}
use claude_tap.Forward.Tunnel.Rounds.{handle_tunneled_requests-total}
use claude_tap.Forward.Client.{
  Client, skip_headers, in_tunnel, parse_authority, handle_connect, handle_plain_proxy,
  handle_parts, handle_client,
}

skip_headers-total :
    (rounds : ℕ) (bytes : List ℕ)
    → length bytes < rounds
    → (rest : List ℕ) × (skip_headers rounds bytes ≡ some rest)
unfolding skip_headers
skip_headers-total zero bytes h = absurd (omega arith)
skip_headers-total (suc rounds) bytes h = elim (Bool-cases (ends_headers (read_line bytes).0)) [
  | inl e ↦ ((read_line bytes).1, rw e refl)
  | inr e ↦
      let shorter = read_line-shorter bytes (ends_headers-nonempty (read_line bytes).0 e) in
      let (rest, eq) = skip_headers-total rounds (read_line bytes).1 (omega (arith, shorter)) in
      (rest, rw e eq)
]

abbrev Ends : Option Client → Type 0
Ends o = (c : Client) × (o ≡ some c)

bind-Ends {ℓ} :
    {A : Type ℓ} (o : Option A) (f : A → Option Client) (a : A)
    → o ≡ some a
    → Ends (f a)
    → Ends (bind o f)
bind-Ends o f a e h = rw e h

module _ (net : Net) where
  in_tunnel-total :
      (hostname : Text) (port : ℤ) (o : Option (List ℕ)) (d : Dispatcher)
      → (s : Served) × (in_tunnel net hostname port o d ≡ some s)
  unfolding in_tunnel
  in_tunnel-total hostname port none d = (_, refl)
  in_tunnel-total hostname port (some bytes) d =
      let (s, e, _) =
        handle_tunneled_requests-total net (hostname ++ b':' ∷ int_text port) (suc (length bytes))
          bytes d (omega arith) in
      (s, e)

  handle_connect-total :
      (authority : Text) (bytes : List ℕ) (d : Dispatcher)
      → Ends (handle_connect net authority bytes d)
  unfolding handle_connect
  handle_connect-total authority bytes d =
      let (hostname, port) = parse_authority net.to_int authority in
      let (rest, e) = skip_headers-total (suc (length bytes)) bytes (omega arith) in
      let (s, t) = in_tunnel-total hostname port (net.tunnel_bytes hostname rest) d in
      bind-Ends _ _ rest e (bind-Ends _ _ s t (_, refl))

  handle_plain_proxy-total :
      (method url : Text) (bytes : List ℕ) (d : Dispatcher)
      → Ends (handle_plain_proxy net method url bytes d)
  unfolding handle_plain_proxy
  handle_plain_proxy-total method url bytes d =
      let (x, e) = read_message-total net.world.decode net.to_int bytes in
      bind-Ends _ _ x e (_, refl)

  handle_parts-total :
      (parts : List Text) (bytes : List ℕ) (d : Dispatcher) → Ends (handle_parts net parts bytes d)
  unfolding handle_parts
  handle_parts-total [] bytes d = (_, refl)
  handle_parts-total (a ∷ []) bytes d = (_, refl)
  handle_parts-total (a ∷ b ∷ []) bytes d = (_, refl)
  handle_parts-total (method ∷ target ∷ version ∷ others) bytes d =
      if_ind Ends (text_eq (upper method) (codes "CONNECT")) _ _
        (λ e. handle_connect-total target bytes d)
        (λ e. handle_plain_proxy-total (upper method) target bytes d)

  -- A client's connection comes to an end whatever bytes it carries: the loops over the lines of the
  -- headers and over the requests of a tunnel run out of bytes before they run out of rounds.
  pub handle_client-total :
      (bytes : List ℕ) (d : Dispatcher) → (c : Client) × (handle_client net bytes d ≡ some c)
  unfolding handle_client
  handle_client-total bytes d =
      if_ind Ends (is_nil (read_line bytes).0) _ _ (λ e. (_, refl))
        (λ e.
          handle_parts-total (split_all b' ' (strip (net.world.decode (read_line bytes).0)))
            (read_line bytes).1 d)
