-- ===== src/Forward/Tests.antt =====
-- claude_tap/forward_proxy.py: runs of the theorems on a connection.
use claude_tap.Base.{
  ℕ, Text, Option, none, some, [], ◌∷◌, ◌++◌, ◌≡◌, refl, inl, inr, arith, codes, number_of, text_eq,
  strip, has_char, insert, lookup,
}
use claude_tap.Json.{ℤ, pos}
use claude_tap.Session.Dispatcher.{Dispatcher}
use claude_tap.Proxy.Messages.{unanswered, World, Moment}
use claude_tap.Proxy.Handler.{joined}
use claude_tap.Forward.Wire.{crlf, streamed_body}
use claude_tap.Forward.Wire.Chunked.{dechunk, dechunk-streamed_body}
use claude_tap.Forward.Reading.{TunnelRequest, either_header}
use claude_tap.Forward.Reading.Rendered.{insert_all, IsRequest}
use claude_tap.Forward.Exchange.{replied}
use claude_tap.Forward.Upgrade.{ws_refused}
use claude_tap.Forward.Tunnel.{Net, handle_tunneled_requests}
use claude_tap.Forward.Tunnel.Pipelined.{render_all, serve_all, handle_tunneled_requests-render_all}
use claude_tap.Forward.Client.{Client, handle_client}
use claude_tap.Forward.Client.Total.{handle_client-total}

dechunk-streamed_body_example :
    dechunk 3 (streamed_body (codes "hi" ∷ codes "!" ∷ []) ++ codes "next")
    ≡ some (joined (codes "hi" ∷ codes "!" ∷ []), codes "next")
dechunk-streamed_body_example =
    dechunk-streamed_body 3 (codes "hi" ∷ codes "!" ∷ []) (codes "next") (omega arith)
      (refl, (refl, tt))

abbrev whole : Option ℕ → Option ℤ
whole none = none
whole (some n) = some (pos n)

abbrev to_whole : Text → Option ℤ
unfolding number_of
to_whole s = whole (number_of 10 s)

abbrev plain_world : World
plain_world = record {
  loads = λ s. none;
  loads_bytes = λ s. none;
  decode = λ b. b;
  sha256 = λ s. codes "0123456789abcdef";
  text_of = λ s. "k";
  on_disk = λ p. [];
  decompress = λ e b. none;
  answer = λ s. unanswered;
}

abbrev first_moment : Moment
first_moment = record {
  clock = record { now = 12; cal = 1 };
  timestamp = codes "t";
  request_id = codes "r";
  duration_ms = 3;
}

abbrev small_net : Net
unfolding to_whole
small_net = record {
  world = plain_world;
  moments = λ n. first_moment;
  to_int = to_whole;
  send = λ s. replied (codes "OK") (record { status = 200; headers = []; chunks = s.body ∷ [] });
  item_key = λ j. [];
  accept = λ key. key;
  connect = λ s. ws_refused (codes "no");
  tunnel_bytes = λ host bytes. some bytes;
  urlparse = λ url. (url, []);
}

abbrev empty_dispatcher : Dispatcher
empty_dispatcher = record {
  index = [];
  writer_idle_seconds = 60;
  writers = [];
  raw_to_slug = [];
  slug_to_raw = [];
  turns = [];
}

handle_client-total_example :
    (c : Client) × (handle_client small_net
        (codes "CONNECT a:1 HTTP/1.1" ++ crlf ++ crlf ++ codes "GET /")
        empty_dispatcher
      ≡ some c)
handle_client-total_example =
    handle_client-total small_net (codes "CONNECT a:1 HTTP/1.1" ++ crlf ++ crlf ++ codes "GET /")
      empty_dispatcher

-- A request with a body and one without.
abbrev post : TunnelRequest
post = record {
  method = codes "POST";
  path = codes "/v1";
  headers = (codes "Content-Length", codes "2") ∷ [];
  body = codes "{}";
}

abbrev get_next : TunnelRequest
get_next = record { method = codes "GET"; path = codes "/v2"; headers = []; body = [] }

post-IsRequest : IsRequest to_whole (codes "HTTP/1.1") post
unfolding strip has_char insert_all insert text_eq either_header lookup number_of
post-IsRequest = record {
  line = record { one_line = refl; ascii = omega arith; trimmed = refl; given = refl };
  method_word = refl;
  path_word = refl;
  headers = (
    record {
      line = record { one_line = refl; ascii = omega arith; trimmed = refl; given = refl };
      name = refl;
      key = refl;
      value = refl;
    },
    tt,
  );
  once = refl;
  framed = inr (refl, refl);
}

get_next-IsRequest : IsRequest to_whole (codes "HTTP/1.1") get_next
unfolding strip has_char insert_all either_header lookup
get_next-IsRequest = record {
  line = record { one_line = refl; ascii = omega arith; trimmed = refl; given = refl };
  method_word = refl;
  path_word = refl;
  headers = tt;
  once = refl;
  framed = inl (refl, refl);
}

handle_tunneled_requests-render_all_example :
    handle_tunneled_requests small_net
      (codes "a:443")
      (render_all (codes "HTTP/1.1") (post ∷ get_next ∷ []))
      empty_dispatcher
    ≡ some (serve_all small_net (codes "a:443") 0 (post ∷ get_next ∷ []) empty_dispatcher)
unfolding small_net
handle_tunneled_requests-render_all_example =
    handle_tunneled_requests-render_all small_net (codes "a:443") (codes "HTTP/1.1") (λ s h. refl)
      (post ∷ get_next ∷ []) empty_dispatcher (post-IsRequest, (get_next-IsRequest, tt))
