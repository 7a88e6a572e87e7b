-- ===== src/Forward/Client.antt =====
-- claude_tap/forward_proxy.py: `_handle_client` with `_handle_connect` and `_handle_plain_proxy`, up
-- to the loop over the requests of a tunnel.
pub mod Total
use claude_tap.Base.{
  ℕ, zero, suc, Text, Bool, ◌||◌, Option, none, some, List, [], ◌∷◌, ◌++◌, codes, if◌then◌else◌,
  is_nil, bind, get_or, text_eq, split_last, split_all, strip, length, upper, Dict,
}
use claude_tap.Json.{ℤ, pos}
use claude_tap.Session.Dispatcher.{Dispatcher}
use claude_tap.Forward.Wire.{crlf}
use claude_tap.Forward.Reading.{TunnelRequest, read_line, read_message, ends_headers}
use claude_tap.Forward.Exchange.{forward_and_record}
use claude_tap.Forward.Tunnel.{Net, Served, closed, exchanged, int_text, handle_tunneled_requests}

-- What is written to the connection itself, and what is done on it or in its tunnel.
pub record Client : Type 0 where
  pub raw_written : List ℕ
  pub served : Served

abbrev host_port : (Text → Option ℤ) → Text → Option (Text × Text) → Text × ℤ
host_port to_int authority none = (authority, pos 443)
host_port to_int authority (some (hostname, port)) = (hostname, get_or (to_int port) (pos 443))

-- `host:port` of a CONNECT request.
unfoldable pub parse_authority : (Text → Option ℤ) → Text → Text × ℤ
unfolding split_last
parse_authority to_int authority = host_port to_int authority (split_last b':' authority)

unfoldable pub skip_headers : (rounds : ℕ) → List ℕ → Option (List ℕ)
unfolding read_line ends_headers
skip_headers zero bytes = none
skip_headers (suc rounds) bytes =
    let (line, rest) = read_line bytes in
    let more = skip_headers rounds rest in if ends_headers line then some rest else more

abbrev pub path_of : Text × Text → Text
path_of (path, query) = if is_nil query then path else path ++ b'?' ∷ query

module _ (net : Net) where
  unfoldable pub in_tunnel : (hostname : Text) → ℤ → Option (List ℕ) → Dispatcher → Option Served
  unfolding handle_tunneled_requests int_text
  in_tunnel hostname port none d = some (closed d)
  in_tunnel hostname port (some bytes) d =
      handle_tunneled_requests net (hostname ++ b':' ∷ int_text port) bytes d

  unfoldable pub handle_connect : (authority : Text) → List ℕ → Dispatcher → Option Client
  unfolding parse_authority skip_headers in_tunnel
  handle_connect authority bytes d =
      let (hostname, port) = parse_authority net.to_int authority in
      bind (skip_headers (suc (length bytes)) bytes) λ rest.
        bind (in_tunnel hostname port (net.tunnel_bytes hostname rest) d) λ served. some (record {
          raw_written = codes "HTTP/1.1 200 Connection Established" ++ crlf ++ crlf;
          served = served;
        })

  unfoldable pub handle_plain_proxy : (method url : Text) → List ℕ → Dispatcher → Option Client
  unfolding read_message forward_and_record
  handle_plain_proxy method url bytes d =
      bind (read_message net.world.decode net.to_int bytes) λ (headers, body, rest).
        let q : TunnelRequest = record {
          method = method;
          path = path_of (net.urlparse url);
          headers = headers;
          body = body;
        } in
        let x = forward_and_record net.world (net.moments 0) net.send q url d in
        some (record { raw_written = x.written; served = exchanged x })

  -- The parts of the first line.
  unfoldable pub handle_parts : List Text → List ℕ → Dispatcher → Option Client
  unfolding text_eq upper handle_connect handle_plain_proxy
  handle_parts (method ∷ target ∷ version ∷ others) bytes d =
      if text_eq (upper method) (codes "CONNECT")
      then handle_connect target bytes d
      else handle_plain_proxy (upper method) target bytes d
  handle_parts _ bytes d = some (record { raw_written = []; served = closed d })

  unfoldable pub handle_client : List ℕ → Dispatcher → Option Client
  unfolding read_line split_all strip handle_parts
  handle_client bytes d =
      let (line, rest) = read_line bytes in
      if is_nil line
      then some (record { raw_written = []; served = closed d })
      else handle_parts (split_all b' ' (strip (net.world.decode line))) rest d
