-- ===== src/Forward/Reading/Rounds.antt =====
-- claude_tap/forward_proxy.py: the reading loops end; a round reads a byte at least.
use claude_tap.Base.{
  ℕ, zero, suc, ◌≤◌, ◌<◌, Text, false, Option, none, some, List, [], ◌∷◌, ◌++◌, ◌≡◌, refl, arith,
  length, length-append, split_first, Dict, if_ind, strip, is_nil, drop, ap, sym, ◌∙◌,
  split_first_sound, Bool-cases, inl, inr, leb, codes,
}
use mathlib.Core.List.{append-nil, append_assoc}
use claude_tap.Json.{ℤ, pos, negsuc}
use claude_tap.Forward.Reading.{
  read_line, line_at, ends_headers, read_exactly, read_headers, read_body, read_message, with_body,
  read_rest, read_request, Next, hang_up, serve, add_header, either_header,
}

line_at-append :
    (bytes : List ℕ) (o : Option (List ℕ × List ℕ))
    → ((l r : List ℕ) → o ≡ some (l, r) → bytes ≡ l ++ 10 ∷ r)
    → (line_at bytes o).0 ++ (line_at bytes o).1 ≡ bytes
line_at-append bytes none h = append-nil bytes
line_at-append bytes (some (l, r)) h = append_assoc l (10 ∷ []) r ∙ sym (h l r refl)

-- A line and what is left make up the bytes.
read_line-append : (bytes : List ℕ) → (read_line bytes).0 ++ (read_line bytes).1 ≡ bytes
unfolding read_line
read_line-append bytes = line_at-append bytes (split_first 10 bytes) (split_first_sound 10 bytes)

length-nonempty : (s : List ℕ) → is_nil s ≡ false → 0 < length s
length-nonempty [] h = cc
length-nonempty (c ∷ s) h = omega arith

pub read_line-shorter :
    (bytes : List ℕ)
    → is_nil (read_line bytes).0 ≡ false
    → length (read_line bytes).1 < length bytes
read_line-shorter bytes h = omega (
  arith,
  length-nonempty (read_line bytes).0 h,
  length-append (read_line bytes).0 (read_line bytes).1,
  ap length (read_line-append bytes),
)

pub ends_headers-nonempty : (line : List ℕ) → ends_headers line ≡ false → is_nil line ≡ false
unfolding ends_headers
ends_headers-nonempty [] h = cc
ends_headers-nonempty (c ∷ line) h = refl

length-drop : (n : ℕ) (bytes : List ℕ) → length (drop n bytes) ≤ length bytes
length-drop zero bytes = omega arith
length-drop (suc n) [] = omega arith
length-drop (suc n) (b ∷ bytes) = omega (arith, length-drop n bytes)

read_exactly-length :
    (n : Option ℤ) (bytes : List ℕ) → length (read_exactly n bytes).1 ≤ length bytes
unfolding read_exactly
read_exactly-length none bytes = omega arith
read_exactly-length (some (negsuc n)) bytes = omega arith
read_exactly-length (some (pos n)) bytes =
    if_ind (λ (r : List ℕ × List ℕ). length r.1 ≤ length bytes) (leb n (length bytes)) _ _
      (λ e. length-drop n bytes) (λ e. omega arith)

-- Given a round for each byte and one more, the loop over the headers ends, and leaves no more bytes
-- than it had.
pub read_headers-total :
    (decode : List ℕ → Text) (to_int : Text → Option ℤ) (rounds : ℕ) (headers : Dict Text)
    (bytes : List ℕ)
    → length bytes < rounds
    → (r : Dict Text × List ℕ) × (read_headers decode to_int rounds headers bytes ≡ some r)
      × (length r.1 ≤ length bytes)
unfolding read_headers
read_headers-total decode to_int zero headers bytes h = absurd (omega arith)
read_headers-total decode to_int (suc rounds) headers bytes h =
    elim (Bool-cases (ends_headers (read_line bytes).0)) [
      | inl e ↦ (
        (headers, (read_line bytes).1),
        rw e refl,
        omega (
          arith,
          length-append (read_line bytes).0 (read_line bytes).1,
          ap length (read_line-append bytes),
        ),
      )
      | inr e ↦
          let shorter = read_line-shorter bytes (ends_headers-nonempty (read_line bytes).0 e) in
          let (r, eq, le) =
            read_headers-total decode to_int rounds
              (add_header decode to_int (read_line bytes).0 headers) (read_line bytes).1
              (omega (arith, shorter)) in
          (r, rw e eq, omega (arith, le, shorter))
    ]

-- A request that is served leaves fewer bytes.
abbrev pub Shrinks : List ℕ → Next → Type 0
Shrinks bytes hang_up = Unit
Shrinks bytes (serve q rest) = length rest < length bytes

module _ (decode : List ℕ → Text) (to_int : Text → Option ℤ) where
  read_body-length :
      (headers : Dict Text) (bytes : List ℕ)
      → length (read_body decode to_int headers bytes).1 ≤ length bytes
  unfolding read_body
  read_body-length headers bytes =
      if_ind (λ (r : List ℕ × List ℕ). length r.1 ≤ length bytes)
        (is_nil (either_header (codes "Content-Length") (codes "content-length") headers)) _ _
        (λ e. omega arith)
        (λ e.
          read_exactly-length
            (to_int (either_header (codes "Content-Length") (codes "content-length") headers))
            bytes)

  pub read_message-total :
      (bytes : List ℕ)
      → (x : Dict Text × List ℕ × List ℕ) × (read_message decode to_int bytes ≡ some x)
  unfolding read_message
  read_message-total bytes =
      let (r, e, _) =
        read_headers-total decode to_int (suc (length bytes)) [] bytes (omega arith) in
      (with_body decode to_int r.0 (read_body decode to_int r.0 r.1), rw e refl)

  read_rest-total :
      (o : Option (Text × Text)) (bytes rest : List ℕ)
      → length rest < length bytes
      → (n : Next) × (read_rest decode to_int o rest ≡ some n) × Shrinks bytes n
  unfolding read_rest read_message
  read_rest-total none bytes rest h = (hang_up, refl, tt)
  read_rest-total (some (method, path)) bytes rest h =
      let (r, e, le) = read_headers-total decode to_int (suc (length rest)) [] rest (omega arith) in
      let taken = read_body decode to_int r.0 r.1 in
      (
        serve (record { method = method; path = path; headers = r.0; body = taken.0 }) taken.1,
        rw e refl,
        omega (arith, read_body-length r.0 r.1),
      )

  -- Reading a request comes to an end on any bytes, and takes a byte at least if it gives a request.
  pub read_request-total :
      (bytes : List ℕ) → (n : Next) × (read_request decode to_int bytes ≡ some n) × Shrinks bytes n
  unfolding read_request
  read_request-total bytes =
      let P = λ (o : Option Next). (n : Next) × (o ≡ some n) × Shrinks bytes n in
      if_ind P (is_nil (read_line bytes).0) _ _ (λ e. (hang_up, refl, tt))
        λ e.
          if_ind P (is_nil (strip (decode (read_line bytes).0))) _ _ (λ b. (hang_up, refl, tt))
            λ b. read_rest-total _ bytes (read_line bytes).1 (read_line-shorter bytes e)
