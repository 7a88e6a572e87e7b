-- ===== src/Forward/Wire.antt =====
-- claude_tap/forward_proxy.py: the bytes that go to the client. What is written stands for its
-- UTF-8 bytes (`utf8`); a lone surrogate, which Python refuses to encode, is left out.
pub mod Chunked
use claude_tap.Base.{
  ℕ, zero, suc, ◌+◌, ◌/◌, ◌%◌, Text, Bool, not, List, [], ◌∷◌, ◌++◌, codes, if◌then◌else◌, length,
  decimal, hexadecimal, lower, text_eq, ltb, any,
}
use claude_tap.Proxy.Headers.{is_hop, hop_by_hop, named_in}
use claude_tap.Proxy.Messages.{Answer}

-- `str.encode`
unfoldable pub utf8_char : ℕ → List ℕ
utf8_char c =
    if ltb c 0x80
    then c ∷ []
    else if ltb c 0x800
    then (0xc0 + c / 0x40) ∷ (0x80 + c % 0x40) ∷ []
    else if ltb c 0x10000
    then (0xe0 + c / 0x1000) ∷ (0x80 + c / 0x40 % 0x40) ∷ (0x80 + c % 0x40) ∷ []
    else (0xf0 + c / 0x40000)
      ∷ (0x80 + c / 0x1000 % 0x40)
      ∷ (0x80 + c / 0x40 % 0x40)
      ∷ (0x80 + c % 0x40)
      ∷ []

unfoldable pub utf8 : Text → List ℕ
unfolding utf8_char
utf8 [] = []
utf8 (c ∷ s) = utf8_char c ++ utf8 s

abbrev pub crlf : Text
crlf = 13 ∷ 10 ∷ []

-- `f"{len(chunk):x}\r\n".encode() + chunk + b"\r\n"`; digits are their own bytes.
unfoldable pub chunk_bytes : List ℕ → List ℕ
unfolding hexadecimal
chunk_bytes chunk = hexadecimal (length chunk) ++ (crlf ++ (chunk ++ crlf))

-- The body of a streamed reply: each chunk as it arrives, and the last chunk.
unfoldable pub streamed_body : List (List ℕ) → List ℕ
unfolding chunk_bytes
streamed_body [] = codes "0" ++ crlf ++ crlf
streamed_body (chunk ∷ chunks) = chunk_bytes chunk ++ streamed_body chunks

unfoldable pub status_line : ℕ → (reason : Text) → List ℕ
unfolding utf8 decimal
status_line status reason = utf8 (codes "HTTP/1.1 " ++ decimal status ++ b' ' ∷ reason ++ crlf)

-- The headers of the upstream's reply whose names are not among `skip`.
unfoldable pub header_lines : (skip : List Text) → List (Text × Text) → List ℕ
unfolding named_in utf8
header_lines skip [] = []
header_lines skip ((k, v) ∷ headers) =
    let rest = header_lines skip headers in
    if named_in skip k then rest else utf8 (k ++ codes ": " ++ v ++ crlf) ++ rest

-- What `_handle_streaming` writes.
unfoldable pub streaming_reply : (reason : Text) → Answer → List ℕ
unfolding status_line header_lines streamed_body
streaming_reply reason a =
    status_line a.status reason
    ++ header_lines hop_by_hop a.headers
    ++ codes "Transfer-Encoding: chunked"
    ++ crlf
    ++ crlf
    ++ streamed_body a.chunks

-- What is written of a stream whose upstream fails: the chunks so far, and no last chunk.
unfoldable pub streamed_chunks : List (List ℕ) → List ℕ
unfolding chunk_bytes
streamed_chunks [] = []
streamed_chunks (chunk ∷ chunks) = chunk_bytes chunk ++ streamed_chunks chunks

unfoldable pub streaming_part : (reason : Text) → Answer → List ℕ
unfolding status_line header_lines streamed_chunks
streaming_part reason a =
    status_line a.status reason
    ++ header_lines hop_by_hop a.headers
    ++ codes "Transfer-Encoding: chunked"
    ++ crlf
    ++ crlf
    ++ streamed_chunks a.chunks

-- What `_handle_non_streaming` writes.
unfoldable pub plain_reply : (reason : Text) → Answer → (body : List ℕ) → List ℕ
unfolding status_line header_lines decimal
plain_reply reason a body =
    status_line a.status reason
    ++ header_lines (codes "content-length" ∷ hop_by_hop) a.headers
    ++ codes "Content-Length: "
    ++ decimal (length body)
    ++ crlf
    ++ crlf
    ++ body

-- The reply to a request that raises upstream.
unfoldable pub error_reply : (error : Text) → List ℕ
unfolding utf8 decimal
error_reply error =
    let body = utf8 error in
    codes "HTTP/1.1 502 Bad Gateway"
    ++ crlf
    ++ codes "Content-Length: "
    ++ decimal (length body)
    ++ crlf
    ++ codes "Content-Type: text/plain"
    ++ crlf
    ++ crlf
    ++ body
