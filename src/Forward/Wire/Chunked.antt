-- ===== src/Forward/Wire/Chunked.antt =====
-- claude_tap/forward_proxy.py, `_handle_streaming`: a reader of the chunked coding gets the body.
use claude_tap.Base.{
  ℕ, zero, suc, ◌<◌, false, Option, none, some, List, [], ◌∷◌, ◌++◌, ◌≡◌, refl, arith,
  if◌then◌else◌, length, take, drop, ◌==◌, drop_prefix, split_first, bind, number_of, All,
  hexadecimal, is_nil, take-append_length, drop-append_length, number_of-hexadecimal,
  has_char-hexadecimal, split_first-append,
}
use mathlib.Core.List.{append_assoc}
use claude_tap.Proxy.Handler.{joined}
use claude_tap.Forward.Wire.{chunk_bytes, streamed_body}

-- The chunked coding of RFC 9112, without trailers: the body, and what follows it. Each chunk takes
-- a round.
unfoldable pub dechunk : (rounds : ℕ) → List ℕ → Option (List ℕ × List ℕ)
unfolding split_first number_of drop_prefix
dechunk zero bytes = none
dechunk (suc rounds) bytes = bind (split_first 13 bytes) λ (size, after).
    bind (number_of 16 size) λ n. bind (drop_prefix (10 ∷ []) after) λ body.
      if n == 0
      then bind (drop_prefix (13 ∷ 10 ∷ []) body) (λ rest. some ([], rest))
      else bind (drop_prefix (13 ∷ 10 ∷ []) (drop n body))
          λ more. bind (dechunk rounds more) λ (later, rest). some (take n body ++ later, rest)

nonzero_length : (chunk : List ℕ) → is_nil chunk ≡ false → (length chunk == 0) ≡ false
nonzero_length [] h = cc
nonzero_length (c ∷ chunk) h = ground arith

dechunk-chunk :
    (rounds : ℕ) (chunk more : List ℕ)
    → is_nil chunk ≡ false
    → dechunk (suc rounds) (hexadecimal (length chunk) ++ (13 ∷ 10 ∷ (chunk ++ (13 ∷ 10 ∷ more))))
      ≡ bind (dechunk rounds more) (λ (later, rest). some (chunk ++ later, rest))
unfolding dechunk drop_prefix
dechunk-chunk rounds chunk more h =
    rw
      (
        split_first-append 13 (hexadecimal (length chunk)) (10 ∷ (chunk ++ (13 ∷ 10 ∷ more)))
            (has_char-hexadecimal 13 (length chunk) (omega arith)),
        number_of-hexadecimal,
        nonzero_length chunk h,
        drop-append_length,
        take-append_length,
        dechunk,
      )
      refl

pub chunk_bytes-append :
    (chunk rest : List ℕ)
    → chunk_bytes chunk ++ rest
      ≡ hexadecimal (length chunk) ++ (13 ∷ 10 ∷ (chunk ++ (13 ∷ 10 ∷ rest)))
unfolding chunk_bytes
chunk_bytes-append chunk rest = rw (append_assoc, append_assoc chunk) refl

-- A reader of the chunked coding gets from the body of a streamed reply the chunks of the upstream's
-- reply, joined, and leaves what follows: no chunk being empty, and given a round for each of them
-- and one for the end.
pub dechunk-streamed_body :
    (rounds : ℕ) (chunks : List (List ℕ)) (rest : List ℕ)
    → length chunks < rounds
    → All (λ c. is_nil c ≡ false) chunks
    → dechunk rounds (streamed_body chunks ++ rest) ≡ some (joined chunks, rest)
unfolding streamed_body joined
dechunk-streamed_body zero chunks rest h k = absurd (omega arith)
dechunk-streamed_body (suc rounds) [] rest h k = unfold dechunk in refl
dechunk-streamed_body (suc rounds) (chunk ∷ chunks) rest h k =
    rw
      (
        append_assoc,
        chunk_bytes-append,
        dechunk-chunk rounds chunk (streamed_body chunks ++ rest) k.0,
        dechunk-streamed_body rounds chunks rest (omega arith) k.1,
      )
      refl
