-- ===== src/Forward/Reading.antt =====
-- claude_tap/forward_proxy.py: the requests in a connection's bytes, in `_handle_tunneled_requests`
-- and `_handle_plain_proxy`. The bytes are all that the client sends before it closes; the timeouts
-- and the reader's limit on the length of a line are left out. `decode` is `bytes.decode` with
-- replacement, `to_int` is `int` on a text, `none` where it raises. A result `none` is a loop that is
-- out of rounds.
pub mod Rounds
pub mod Rendered
use claude_tap.Base.{
  ℕ, zero, suc, Text, Bool, ◌||◌, Option, none, some, List, [], ◌∷◌, ◌++◌, if◌then◌else◌, Dict,
  insert, lookup, get_or, is_nil, bind, text_eq, split_first, strip, length, take, drop, leb, codes,
}
use claude_tap.Json.{ℤ, pos, negsuc}
use claude_tap.Forward.Wire.{crlf}

abbrev line_at : List ℕ → Option (List ℕ × List ℕ) → List ℕ × List ℕ
line_at bytes none = (bytes, [])
line_at bytes (some (line, rest)) = (line ++ 10 ∷ [], rest)

-- `reader.readline()`: the line with its end, and the bytes that are left.
unfoldable pub read_line : List ℕ → List ℕ × List ℕ
unfolding split_first
read_line bytes = line_at bytes (split_first 10 bytes)

-- `line in (b"\r\n", b"\n", b"")`
unfoldable pub ends_headers : List ℕ → Bool
unfolding text_eq
ends_headers line = is_nil line || text_eq line (10 ∷ []) || text_eq line crlf

abbrev put_header : Option (Text × Text) → Dict Text → Dict Text
unfolding insert strip
put_header none headers = headers
put_header (some (key, value)) headers = insert (strip key) (strip value) headers

-- `headers.get(name) or headers.get(lower)`, empty where both are.
unfoldable pub either_header : (name lower : Text) → Dict Text → Text
unfolding lookup
either_header name lower headers =
    let value = get_or (lookup name headers) [] in
    if is_nil value then get_or (lookup lower headers) [] else value

-- `int` and `readexactly`: with too few bytes left they are all read and lost.
unfoldable pub read_exactly : Option ℤ → List ℕ → List ℕ × List ℕ
read_exactly none bytes = ([], bytes)
read_exactly (some (negsuc n)) bytes = ([], bytes)
read_exactly (some (pos n)) bytes =
    if leb n (length bytes) then (take n bytes, drop n bytes) else ([], [])

-- The parts of the request line, its version not kept.
unfoldable pub request_parts : Text → Option (Text × Text)
unfolding split_first
request_parts line =
    bind (split_first b' ' line)
      λ (method, after). bind (split_first b' ' after) λ (path, version). some (method, path)

pub record TunnelRequest : Type 0 where
  pub method : Text
  pub path : Text
  pub headers : Dict Text
  pub body : List ℕ

-- What the loop does next: it ends, or serves a request and goes on with the rest.
pub data Next : Type 0 where
  hang_up : Next
  serve : TunnelRequest → (rest : List ℕ) → Next

module _ (decode : List ℕ → Text) (to_int : Text → Option ℤ) where
  unfoldable pub add_header : List ℕ → Dict Text → Dict Text
  unfolding put_header split_first strip
  add_header line headers = put_header (split_first b':' (strip (decode line))) headers

  -- Each header line takes a round.
  unfoldable pub read_headers : ℕ → Dict Text → List ℕ → Option (Dict Text × List ℕ)
  unfolding read_line ends_headers add_header
  read_headers zero headers bytes = none
  read_headers (suc rounds) headers bytes =
      let (line, rest) = read_line bytes in
      let more = read_headers rounds (add_header line headers) rest in
      if ends_headers line then some (headers, rest) else more

  unfoldable pub read_body : Dict Text → List ℕ → List ℕ × List ℕ
  unfolding either_header read_exactly
  read_body headers bytes =
      let content_length =
        either_header (codes "Content-Length") (codes "content-length") headers in
      if is_nil content_length then ([], bytes) else read_exactly (to_int content_length) bytes

  abbrev pub with_body : Dict Text → List ℕ × List ℕ → Dict Text × List ℕ × List ℕ
  with_body headers (body, rest) = (headers, body, rest)

  -- The headers and the body that follow a request line.
  unfoldable pub read_message : List ℕ → Option (Dict Text × List ℕ × List ℕ)
  unfolding read_headers read_body
  read_message bytes =
      bind (read_headers (suc (length bytes)) [] bytes)
        λ (headers, rest). some (with_body headers (read_body headers rest))

  unfoldable pub read_rest : Option (Text × Text) → List ℕ → Option Next
  unfolding read_message
  read_rest none bytes = some hang_up
  read_rest (some (method, path)) bytes = bind (read_message bytes) λ (headers, body, rest).
      some (serve (record { method = method; path = path; headers = headers; body = body }) rest)

  -- One round of `_handle_tunneled_requests`, up to the end of the request.
  unfoldable pub read_request : List ℕ → Option Next
  unfolding read_line request_parts strip read_rest
  read_request bytes =
      let (line, rest) = read_line bytes in
      if is_nil line
      then some hang_up
      else let request_line = strip (decode line) in
        if is_nil request_line then some hang_up else read_rest (request_parts request_line) rest
