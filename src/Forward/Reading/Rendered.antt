-- ===== src/Forward/Reading/Rendered.antt =====
-- claude_tap/forward_proxy.py: a request that a client writes is read back, and no byte of what
-- follows it.
use claude_tap.Base.{
  ℕ, zero, suc, ◌≤◌, ◌<◌, Text, true, false, Option, some, List, [], ◌∷◌, ◌++◌, ◌≡◌, ◌⊎◌, inl, inr,
  refl, ap, sym, ◌∙◌, subst, arith, codes, text_eq, length, length-append, All, All-append,
  has_char, has_char-append, split_first-append, strip, is_space, IsClean, strip-IsClean,
  strip-space, Starts, lstrip_by_of_Starts, Ends, lstrip_by, rstrip_by, strip_by, split_first,
  is_nil, Dict, insert, take-append_length, drop-append_length, leb,
}
use mathlib.Core.List.{append_assoc, reverse, reverse-append, reverse-reverse}
use claude_tap.Json.{ℤ, pos}
use claude_tap.Forward.Wire.{crlf}
use claude_tap.Forward.Reading.{
  TunnelRequest, serve, read_line, ends_headers, either_header, read_exactly, request_parts,
  add_header, read_headers, read_body, read_message, read_rest, read_request,
}

abbrev pub header_line : Text × Text → Text
header_line (key, value) = key ++ (b':' ∷ b' ' ∷ value)

unfoldable pub render_headers : Dict Text → Text
render_headers [] = crlf
render_headers (h ∷ headers) = header_line h ++ (crlf ++ render_headers headers)

abbrev pub request_line : (version : Text) → TunnelRequest → Text
request_line version q = q.method ++ (b' ' ∷ (q.path ++ (b' ' ∷ version)))

-- A request in the form of HTTP/1.1.
unfoldable pub render : (version : Text) → TunnelRequest → List ℕ
unfolding render_headers
render version q = request_line version q ++ (crlf ++ (render_headers q.headers ++ q.body))

-- A line of ASCII that is not blank, with nothing to strip.
pub record IsTextLine (t : Text) : Type 0 where
  pub one_line : has_char 10 t ≡ false
  pub ascii : All (λ c. c < 128) t
  pub trimmed : strip t ≡ t
  pub given : is_nil t ≡ false

pub record IsHeader (h : Text × Text) : Type 0 where
  pub line : IsTextLine (header_line h)
  pub name : has_char b':' h.0 ≡ false
  pub key : strip h.0 ≡ h.0
  pub value : strip h.1 ≡ h.1

unfoldable pub insert_all : Dict Text → List (Text × Text) → Dict Text
unfolding insert
insert_all out [] = out
insert_all out ((k, v) ∷ headers) = insert_all (insert k v out) headers

abbrev pub content_length : Dict Text → Text
unfolding either_header
content_length headers = either_header (codes "Content-Length") (codes "content-length") headers

-- What a client may send: the parts of the request line are words, each header once, and the length of
-- the body is the one declared, or none.
pub record IsRequest (to_int : Text → Option ℤ) (version : Text) (q : TunnelRequest) : Type 0 where
  pub line : IsTextLine (request_line version q)
  pub method_word : has_char b' ' q.method ≡ false
  pub path_word : has_char b' ' q.path ≡ false
  pub headers : All IsHeader q.headers
  pub once : insert_all [] q.headers ≡ q.headers
  pub framed :
      ((is_nil (content_length q.headers) ≡ true) × (q.body ≡ []))
      ⊎ ((is_nil (content_length q.headers) ≡ false)
          × (to_int (content_length q.headers) ≡ some (pos (length q.body))))

-- Stripping takes the end of the line.
rstrip-crlf : (t : Text) → Ends is_space t → rstrip_by is_space (t ++ crlf) ≡ t
unfolding rstrip_by lstrip_by is_space
rstrip-crlf t h =
    rw reverse-append (ap reverse (lstrip_by_of_Starts is_space (reverse t) h) ∙ reverse-reverse t)

Starts-crlf : (t : Text) → is_nil t ≡ false → Starts is_space t → Starts is_space (t ++ crlf)
Starts-crlf [] n h = cc
Starts-crlf (c ∷ t) n h = h

strip-crlf : (t : Text) → IsTextLine t → strip (t ++ crlf) ≡ t
unfolding strip strip_by
strip-crlf t h =
    let clean = subst IsClean h.trimmed (strip-IsClean t) in
    rw (lstrip_by_of_Starts is_space (t ++ crlf) (Starts-crlf t h.given clean.0))
      (rstrip-crlf t clean.1)

read_line-crlf :
    (t rest : Text) → has_char 10 t ≡ false → read_line (t ++ (crlf ++ rest)) ≡ (t ++ crlf, rest)
unfolding read_line has_char
read_line-crlf t rest h =
    let e : split_first 10 (t ++ (13 ∷ 10 ∷ rest)) ≡ some (t ++ 13 ∷ [], rest) =
      ap (split_first 10) (sym (append_assoc t (13 ∷ []) (10 ∷ rest)))
      ∙ split_first-append 10 (t ++ 13 ∷ []) rest (has_char-append 10 t (13 ∷ []) h refl) in
    rw (e, read_line) (ap (λ (x : Text). (x, rest)) (append_assoc t (13 ∷ []) (10 ∷ [])))

ends_headers-cons : (c : ℕ) (s : Text) → is_space c ≡ false → ends_headers (c ∷ s) ≡ false
unfolding ends_headers is_space text_eq
ends_headers-cons c s h = ground arith

ends_headers-line :
    (t rest : Text) → is_nil t ≡ false → Starts is_space t → ends_headers (t ++ rest) ≡ false
ends_headers-line [] rest n h = cc
ends_headers-line (c ∷ t) rest n h = ends_headers-cons c (t ++ rest) h

render_headers-length :
    (headers : Dict Text) (rest : List ℕ) → length headers ≤ length (render_headers headers ++ rest)
unfolding render_headers
render_headers-length [] rest = omega arith
render_headers-length (h ∷ headers) rest =
    rw (append_assoc (header_line h), append_assoc crlf)
      (omega (
        arith,
        length-append (header_line h) (crlf ++ (render_headers headers ++ rest)),
        render_headers-length headers rest,
      ))

nonempty-crlf : (t : Text) → is_nil (t ++ crlf) ≡ false
nonempty-crlf [] = refl
nonempty-crlf (c ∷ t) = refl

at_least : (body rest : List ℕ) → leb (length body) (length (body ++ rest)) ≡ true
at_least body rest = ground (arith, length-append body rest)

module _ (decode : List ℕ → Text) (to_int : Text → Option ℤ)
    (ascii : (s : Text) → All (λ c. c < 128) s → decode s ≡ s) where
  decoded_line : (t : Text) → IsTextLine t → strip (decode (t ++ crlf)) ≡ t
  decoded_line t h =
      ap strip (
        ascii (t ++ crlf)
          (All-append (λ c. c < 128) t crlf h.ascii (omega arith, (omega arith, tt))))
      ∙ strip-crlf t h

  add_header-line :
      (h : Text × Text) (headers : Dict Text)
      → IsHeader h
      → add_header decode to_int (header_line h ++ crlf) headers ≡ insert h.0 h.1 headers
  unfolding add_header
  add_header-line (key, value) headers h =
      rw
        (
          decoded_line (header_line (key, value)) h.line,
          split_first-append b':' key (b' ' ∷ value) h.name,
          h.key,
          strip-space value,
          h.value,
        )
        refl

  -- The loop reads rendered headers, a round for each and one for the end.
  read_headers-rendered :
      (rounds : ℕ) (out headers : Dict Text) (rest : List ℕ)
      → length headers < rounds
      → All IsHeader headers
      → read_headers decode to_int rounds out (render_headers headers ++ rest)
        ≡ some (insert_all out headers, rest)
  unfolding render_headers read_headers insert_all
  read_headers-rendered zero out headers rest n h = absurd (omega arith)
  read_headers-rendered (suc rounds) out [] rest n h =
      unfold read_headers read_line split_first ends_headers text_eq in refl
  read_headers-rendered (suc rounds) out (x ∷ headers) rest n h =
      let t = header_line x in
      let clean = subst IsClean h.0.line.trimmed (strip-IsClean t) in
      rw
        (
          append_assoc t,
          append_assoc crlf,
          read_headers,
          read_line-crlf t (render_headers headers ++ rest) h.0.line.one_line,
          ends_headers-line t crlf h.0.line.given clean.0,
          add_header-line x out h.0,
        )
        (read_headers-rendered rounds (insert x.0 x.1 out) headers rest (omega arith) h.1)

  read_body-rendered :
      (headers : Dict Text) (body rest : List ℕ)
      → ((is_nil (content_length headers) ≡ true) × (body ≡ []))
        ⊎ ((is_nil (content_length headers) ≡ false)
            × (to_int (content_length headers) ≡ some (pos (length body))))
      → read_body decode to_int headers (body ++ rest) ≡ (body, rest)
  unfolding read_body
  read_body-rendered headers body rest (inl (e, b)) = rw (e, b) refl
  read_body-rendered headers body rest (inr (e, n)) =
      rw (e, n, read_exactly, at_least body rest, take-append_length, drop-append_length) refl

  read_message-rendered :
      (headers : Dict Text) (body rest : List ℕ)
      → All IsHeader headers
      → insert_all [] headers ≡ headers
      → ((is_nil (content_length headers) ≡ true) × (body ≡ []))
        ⊎ ((is_nil (content_length headers) ≡ false)
            × (to_int (content_length headers) ≡ some (pos (length body))))
      → read_message decode to_int (render_headers headers ++ (body ++ rest))
        ≡ some (headers, body, rest)
  unfolding read_message
  read_message-rendered headers body rest h once framed =
      rw
        (
          read_headers-rendered (suc (length (render_headers headers ++ (body ++ rest)))) [] headers
              (body ++ rest) (omega (arith, render_headers-length headers (body ++ rest))) h,
          once,
          read_body-rendered headers body rest framed,
        )
        refl

  -- Reading a rendered request gives the request, and leaves what follows it: the request has the form
  -- that a client may send, and decoding leaves ASCII as it is.
  pub read_request-render :
      (version : Text) (q : TunnelRequest) (rest : List ℕ)
      → IsRequest to_int version q
      → read_request decode to_int (render version q ++ rest) ≡ some (serve q rest)
  unfolding read_request render read_rest request_parts
  read_request-render version q rest h =
      let t = request_line version q in
      let more = render_headers q.headers ++ (q.body ++ rest) in
      rw
        (
          append_assoc t,
          append_assoc crlf,
          append_assoc (render_headers q.headers),
          read_line-crlf t more h.line.one_line,
          nonempty-crlf t,
          decoded_line t h.line,
          h.line.given,
          split_first-append b' ' q.method (q.path ++ (b' ' ∷ version)) h.method_word,
          split_first-append b' ' q.path version h.path_word,
          read_message-rendered q.headers q.body rest h.headers h.once h.framed,
        )
        refl
