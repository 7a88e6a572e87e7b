-- ===== src/Sse/Lines.antt =====
-- claude_tap/sse.py: `feed_bytes` against a machine that reads one byte at a time.
use mathlib.Core.List.{append-nil, append_assoc, flatten}
use claude_tap.Base.{
  ℕ, zero, suc, ◌≤◌, ◌<◌, Text, true, false, Option, none, some, List, [], ◌∷◌, ◌++◌, if◌then◌else◌,
  length, split_first, ◌==◌, ◌≡◌, refl, sym, ap, ◌∙◌, arith, inl, inr, Bool-cases, Option-cases,
  ◌⊎◌,
}
use claude_tap.Json.{Json}
use claude_tap.Sse.{Parser, Reassembler, feed_line, drain, feed_bytes, feed_all}

-- No complete line waits in the buffer.
abbrev pub IsOpen : Reassembler → Type 0
IsOpen r = split_first b'\n' r.buf ≡ none

abbrev at : Parser → List ℕ → Reassembler
at p b = record { parser = p; buf = b }

split_first-snoc :
    (s : List ℕ) (c : ℕ)
    → split_first b'\n' s ≡ none
    → (c == b'\n') ≡ false
    → split_first b'\n' (s ++ c ∷ []) ≡ none
unfolding split_first
split_first-snoc [] c h e = ground arith
split_first-snoc (a ∷ s) c h e = ground (arith, split_first-snoc s c)

-- A line found behind `a` begins with `a`, unless `a` is the newline.
split_first-cons :
    (a : ℕ) (s l r : List ℕ)
    → split_first b'\n' (a ∷ s) ≡ some (l, r)
    → ((a == b'\n') ≡ true) × (l ≡ []) × (r ≡ s)
      ⊎ ((a == b'\n') ≡ false) × ((m : List ℕ) × (l ≡ a ∷ m) × (split_first b'\n' s ≡ some (m, r)))
unfolding split_first
split_first-cons a s l r h = ground arith

length-split_first : (s l r : List ℕ) → split_first b'\n' s ≡ some (l, r) → length r < length s
length-split_first [] l r h = unfold split_first in cc
length-split_first (a ∷ s) l r h = elim (split_first-cons a s l r h) [
  | inl (e, le, re) ↦ rw re (omega arith)
  | inr (e, (m, le, t)) ↦ omega (arith, length-split_first s m r t)
]

module _ (loads : Text → Option Json) (decode : List ℕ → Text) where
  -- One byte: a newline ends the line that the buffer holds.
  push : ℕ → Reassembler → Reassembler
  push c r =
      if c == b'\n'
      then at (feed_line loads (decode r.buf) r.parser) []
      else at r.parser (r.buf ++ c ∷ [])

  pub stream : List ℕ → Reassembler → Reassembler
  unfolding push
  stream [] r = r
  stream (c ∷ cs) r = stream cs (push c r)

  stream-append : (xs ys : List ℕ) (r : Reassembler) → stream (xs ++ ys) r ≡ stream ys (stream xs r)
  unfolding stream
  stream-append [] ys r = refl
  stream-append (x ∷ xs) ys r = stream-append xs ys (push x r)

  push-IsOpen : (c : ℕ) (r : Reassembler) → IsOpen r → IsOpen (push c r)
  unfolding push
  push-IsOpen c r h = elim (Bool-cases (c == b'\n')) [
    | inl e ↦ rw e (unfold split_first in refl)
    | inr e ↦ rw e (split_first-snoc r.buf c h e)
  ]

  stream-IsOpen : (cs : List ℕ) (r : Reassembler) → IsOpen r → IsOpen (stream cs r)
  unfolding stream
  stream-IsOpen [] r h = h
  stream-IsOpen (c ∷ cs) r h = stream-IsOpen cs (push c r) (push-IsOpen c r h)

  stream_rest :
      (b acc : List ℕ) (p : Parser)
      → split_first b'\n' b ≡ none
      → stream b (at p acc) ≡ at p (acc ++ b)
  unfolding stream push split_first
  stream_rest [] acc p h = rw append-nil refl
  stream_rest (c ∷ b) acc p h = elim (Bool-cases (c == b'\n')) [
    | inl e ↦ absurd (ground arith)
    | inr e ↦
        rw e
          (stream_rest b (acc ++ c ∷ []) p (ground arith) ∙ ap (at p) (append_assoc acc (c ∷ []) b))
  ]

  stream_line :
      (b acc l rest : List ℕ) (p : Parser)
      → split_first b'\n' b ≡ some (l, rest)
      → stream b (at p acc) ≡ stream rest (at (feed_line loads (decode (acc ++ l)) p) [])
  unfolding stream push split_first
  stream_line [] acc l rest p h = cc
  stream_line (c ∷ b) acc l rest p h = elim (split_first-cons c b l rest h) [
    | inl (e, le, re) ↦ rw (e, le, re, append-nil) refl
    | inr (e, (m, le, t)) ↦
        rw (e, le)
          (stream_line b (acc ++ c ∷ []) m rest p t
            ∙ ap (λ x. stream rest (at (feed_line loads (decode x) p) []))
                (append_assoc acc (c ∷ []) m))
  ]

  drain-stream :
      (fuel : ℕ) (p : Parser) (b : List ℕ)
      → length b ≤ fuel
      → drain loads decode fuel (at p b) ≡ stream b (at p [])
  unfolding drain
  drain-stream zero p [] h = unfold stream in refl
  drain-stream zero p (c ∷ b) h = absurd (omega arith)
  drain-stream (suc fuel) p b h = elim (Option-cases (split_first b'\n' b)) [
    | inl e ↦ rw e (sym (stream_rest b [] p e))
    | inr ((l, rest), e) ↦ rw e (
        drain-stream fuel (feed_line loads (decode l) p) rest
          (omega (arith, length-split_first b l rest e))
        ∙ sym (stream_line b [] l rest p e))
  ]

  -- The loop reads what the byte machine reads.
  pub feed_bytes-stream :
      (chunk : List ℕ) (r : Reassembler)
      → IsOpen r
      → feed_bytes loads decode chunk r ≡ stream chunk r
  unfolding feed_bytes
  feed_bytes-stream chunk r h =
      drain-stream _ r.parser (r.buf ++ chunk) (omega arith)
      ∙ (stream-append r.buf chunk (at r.parser [])
          ∙ ap (stream chunk) (stream_rest r.buf [] r.parser h))

  feed_bytes-IsOpen :
      (chunk : List ℕ) (r : Reassembler) → IsOpen r → IsOpen (feed_bytes loads decode chunk r)
  feed_bytes-IsOpen chunk r h = rw (feed_bytes-stream chunk r h) (stream-IsOpen chunk r h)

  feed_all-stream :
      (chunks : List (List ℕ)) (r : Reassembler)
      → IsOpen r
      → feed_all loads decode chunks r ≡ stream (flatten chunks) r
  unfolding feed_all flatten
  feed_all-stream [] r h = unfold stream in refl
  feed_all-stream (chunk ∷ chunks) r h =
      feed_all-stream chunks (feed_bytes loads decode chunk r) (feed_bytes-IsOpen chunk r h)
      ∙ (ap (stream (flatten chunks)) (feed_bytes-stream chunk r h)
          ∙ sym (stream-append chunk (flatten chunks) r))

  -- Where no complete line waits in the buffer, how a stream is cut into chunks does not matter: the
  -- chunks one by one leave the reassembler as one call with all their bytes does.
  pub feed_all-flatten :
      (chunks : List (List ℕ)) (r : Reassembler)
      → IsOpen r
      → feed_all loads decode chunks r ≡ feed_bytes loads decode (flatten chunks) r
  feed_all-flatten chunks r h =
      feed_all-stream chunks r h ∙ sym (feed_bytes-stream (flatten chunks) r h)

  pub feed_all-IsOpen :
      (chunks : List (List ℕ)) (r : Reassembler)
      → IsOpen r
      → IsOpen (feed_all loads decode chunks r)
  feed_all-IsOpen chunks r h = rw (feed_all-stream chunks r h) (stream-IsOpen (flatten chunks) r h)
