-- ===== src/Viewer/Embedding/Closing.antt =====
-- claude_tap/viewer.py: the embedded records close no element.
use claude_tap.Base.{
  ℕ, Text, Bool, true, false, ◌&&◌, ◌||◌, List, [], ◌∷◌, ◌++◌, ◌≡◌, refl, arith, codes, ◌==◌, ltb,
  length, is_nil, strip, join, has_part, starts_with, All, if_ind, Bool-cases, inl, inr,
  drop_prefix,
}
use claude_tap.Viewer.Embedding.{
  escape_from, escape_closing, embedded_lines, records_block, lazy_threshold,
}

abbrev closes : Text → Bool
unfolding has_part
closes s = has_part (codes "</") s

-- No slash stands first.
abbrev NoSlash : Text → Type 0
NoSlash [] = Unit
NoSlash (c ∷ s) = (c == b'/') ≡ false

starts_with-closing :
    (c : ℕ) (s : Text) → ((c == b'<') ≡ true → NoSlash s) → starts_with (c ∷ s) (codes "</") ≡ false
unfolding starts_with drop_prefix
starts_with-closing c [] h = ground arith
starts_with-closing c (d ∷ s) h = elim (Bool-cases (c == b'<')) [
  | inl e ↦ let n = h e in ground arith
  | inr e ↦ ground arith
]

closes-cons :
    (c : ℕ) (s : Text)
    → ((c == b'<') ≡ true → NoSlash s)
    → closes s ≡ false
    → closes (c ∷ s) ≡ false
unfolding closes
closes-cons c s h e = rw (starts_with-closing c s h) e

escape_from-NoSlash : (s : Text) → NoSlash (escape_from true s)
unfolding escape_from
escape_from-NoSlash [] = tt
escape_from-NoSlash (c ∷ s) = if_ind NoSlash (c == b'/') _ _ (λ e. refl) (λ e. e)

closes-escape_from : (after_lt : Bool) (s : Text) → closes (escape_from after_lt s) ≡ false
unfolding escape_from
closes-escape_from after_lt [] = unfold closes has_part starts_with drop_prefix in refl
closes-escape_from after_lt (c ∷ s) =
    if_ind (λ (t : Text). closes t ≡ false) (after_lt && c == b'/') _ _
      (λ e.
        closes-cons b'\\' (b'/' ∷ escape_from false s) (λ h. cc)
          (closes-cons b'/' (escape_from false s) (λ h. cc) (closes-escape_from false s)))
      λ e.
        closes-cons c (escape_from (c == b'<') s) (λ h. rw h (escape_from-NoSlash s))
          (closes-escape_from (c == b'<') s)

or_false : (a b : Bool) → (a || b) ≡ false → (a ≡ false) × (b ≡ false)
or_false true b h = cc
or_false false b h = (refl, h)

starts_with-NoSlash :
    (c : ℕ) (s : Text) → starts_with (c ∷ s) (codes "</") ≡ false → (c == b'<') ≡ true → NoSlash s
unfolding starts_with drop_prefix
starts_with-NoSlash c [] h e = tt
starts_with-NoSlash c (d ∷ s) h e = ground arith

closes-uncons :
    (c : ℕ) (s : Text)
    → closes (c ∷ s) ≡ false
    → ((c == b'<') ≡ true → NoSlash s) × (closes s ≡ false)
unfolding closes has_part
closes-uncons c s h =
    let (first, rest) = or_false (starts_with (c ∷ s) (codes "</")) (has_part (codes "</") s) h in
    (starts_with-NoSlash c s first, rest)

NoSlash-append : (s t : Text) → NoSlash s → NoSlash t → NoSlash (s ++ t)
NoSlash-append [] t hs ht = ht
NoSlash-append (c ∷ s) t hs ht = hs

-- Two texts of which the second begins with no slash.
closes-append :
    (s t : Text) → closes s ≡ false → closes t ≡ false → NoSlash t → closes (s ++ t) ≡ false
closes-append [] t hs ht n = ht
closes-append (c ∷ s) t hs ht n =
    let (first, rest) = closes-uncons c s hs in
    closes-cons c (s ++ t) (λ e. NoSlash-append s t (first e) n) (closes-append s t rest ht n)

closes-escape_closing : (s : Text) → closes (escape_closing s) ≡ false
unfolding escape_closing
closes-escape_closing = closes-escape_from false

abbrev Closed : List Text → Type 0
Closed texts = All (λ t. closes t ≡ false) texts

embedded_lines-Closed :
    (normalize : Text → Text) (lines : List Text) → Closed (embedded_lines normalize lines)
unfolding embedded_lines
embedded_lines-Closed normalize [] = tt
embedded_lines-Closed normalize (line ∷ lines) =
    if_ind Closed (is_nil (strip line)) _ _ (λ e. embedded_lines-Closed normalize lines)
      (λ e. (closes-escape_closing (normalize (strip line)), embedded_lines-Closed normalize lines))

-- A separator that neither closes nor is undone by what follows it.
closes-join :
    (c : ℕ) (sep : Text) (texts : List Text)
    → (c == b'/') ≡ false
    → ((t : Text) → closes t ≡ false → closes (c ∷ (sep ++ t)) ≡ false)
    → Closed texts
    → closes (join (c ∷ sep) texts) ≡ false
unfolding join
closes-join c sep [] n h k = unfold closes has_part starts_with drop_prefix in refl
closes-join c sep (s ∷ []) n h k = k.0
closes-join c sep (s ∷ t ∷ texts) n h k =
    closes-append s (c ∷ (sep ++ join (c ∷ sep) (t ∷ texts))) k.0
      (h (join (c ∷ sep) (t ∷ texts)) (closes-join c sep (t ∷ texts) n h k.1)) n

newline : (t : Text) → closes t ≡ false → closes (10 ∷ t) ≡ false
newline t h = closes-cons 10 t (λ e. cc) h

comma_newline : (t : Text) → closes t ≡ false → closes (b',' ∷ 10 ∷ t) ≡ false
comma_newline t h = closes-cons b',' (10 ∷ t) (λ e. cc) (newline t h)

closes-array :
    (t : Text)
    → closes t ≡ false
    → closes (codes "const EMBEDDED_TRACE_DATA = [\n" ++ (t ++ codes "\n];\n")) ≡ false
unfolding closes has_part starts_with drop_prefix
closes-array t h = closes-append t (codes "\n];\n") h refl refl

-- Whatever the lines of a trace hold, the text of the records that is embedded in the page, as an array
-- or as lines, has no `</` in it, with which a browser would end the script around it.
pub records_block-Closed :
    (normalize : Text → Text) (lines : List Text)
    → has_part (codes "</") (records_block (embedded_lines normalize lines)) ≡ false
unfolding records_block closes
records_block-Closed normalize lines =
    let records = embedded_lines normalize lines in
    let closed = embedded_lines-Closed normalize lines in
    if_ind (λ (t : Text). closes t ≡ false) (ltb lazy_threshold (length records)) _ _
      (λ e. closes-join 10 [] records refl newline closed)
      (λ e.
        closes-array (join (codes ",\n") records)
          (closes-join b',' (10 ∷ []) records refl comma_newline closed))
