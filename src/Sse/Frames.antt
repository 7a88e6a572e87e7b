-- ===== src/Sse/Frames.antt =====
-- claude_tap/sse.py, `_feed_line`: what the lines of one frame become.
use mathlib.Core.List.{append_assoc, append-nil, reverse}
use claude_tap.Base.{
  ℕ, Text, Bool, true, false, Option, none, some, List, [], ◌∷◌, ◌++◌, map, ◌≡◌, refl, ap, ◌∙◌,
  ◌==◌, arith, codes, is_space, rstrip_char, rstrip_by, lstrip_by, drop_prefix, All, if◌then◌else◌,
  IsClean, Ends, Ends-append, Starts-mono, rstrip_by_of_Ends, strip_of_IsClean, strip-space,
  text_eq, join, ◌&&◌,
}
use claude_tap.Json.{Json}
use claude_tap.Sse.Sharing.{Event, Shared}
use claude_tap.Sse.{
  Parser, add_event, event_type, parsed, reset, end_frame, data_line, stripped_line, feed_line,
}

abbrev pub header : Text → Text
header name = codes "event: " ++ name

abbrev pub data_of : Text → Text
data_of s = codes "data: " ++ s

not_return : (c : ℕ) → is_space c ≡ false → (c == b'\r') ≡ false
unfolding is_space
not_return c h = ground arith

rstrip-prefix :
    (s t : Text) → Ends (λ a. a == b'\r') s → IsClean t → rstrip_char b'\r' (s ++ t) ≡ s ++ t
unfolding rstrip_char
rstrip-prefix s t hs ht =
    rstrip_by_of_Ends (λ a. a == b'\r') (s ++ t)
      (Ends-append (λ a. a == b'\r') s t hs
        (Starts-mono is_space (λ a. a == b'\r') (reverse t) not_return ht.1))

if-and_false : (b : Bool) (x y : Parser) → (if b && false then x else y) ≡ y
if-and_false true x y = refl
if-and_false false x y = refl

if-and_true : (b : Bool) (x y : Parser) → (if b && true then x else y) ≡ (if b then x else y)
if-and_true true x y = refl
if-and_true false x y = refl

abbrev opened : ℕ → Text → Parser → Parser
opened c name p = record p { current_event = some (c ∷ name); data_lines = [] }

-- The parser between two frames.
abbrev pub between : List Event → Json → Shared → Parser
between es snap shared = record {
  events = es;
  current_event = none;
  data_lines = [];
  snapshot = snap;
  shared = shared;
}

module _ (loads : Text → Option Json) where
  feed_line-header :
      (name : Text) (p : Parser)
      → IsClean name
      → feed_line loads (header name) p ≡ record p { current_event = some name; data_lines = [] }
  unfolding feed_line
  feed_line-header name p h =
      ap (λ l. stripped_line loads l p) (rstrip-prefix (codes "event: ") name refl h)
      ∙ (unfold stripped_line drop_prefix in rw (strip-space name, strip_of_IsClean name h) refl)

  feed_line-data :
      (s : Text) (p : Parser)
      → IsClean s
      → feed_line loads (data_of s) p ≡ record p { data_lines = p.data_lines ++ s ∷ [] }
  unfolding feed_line
  feed_line-data s p h =
      ap (λ l. stripped_line loads l p) (rstrip-prefix (codes "data: ") s refl h)
      ∙ (unfold stripped_line data_line drop_prefix in
          rw (strip-space s, strip_of_IsClean s h) refl)

  -- The lines of a frame, one after the other.
  unfoldable pub feed_lines : List Text → Parser → Parser
  feed_lines [] p = p
  feed_lines (line ∷ lines) p = feed_lines lines (feed_line loads line p)

  feed_lines-append :
      (xs ys : List Text) (p : Parser) → feed_lines (xs ++ ys) p ≡ feed_lines ys (feed_lines xs p)
  unfolding feed_lines
  feed_lines-append [] ys p = refl
  feed_lines-append (x ∷ xs) ys p = feed_lines-append xs ys (feed_line loads x p)

  feed_lines-data :
      (ds : List Text) (p : Parser)
      → All IsClean ds
      → feed_lines (map data_of ds) p ≡ record p { data_lines = p.data_lines ++ ds }
  unfolding feed_lines
  feed_lines-data [] p h = rw append-nil refl
  feed_lines-data (d ∷ ds) p h =
      ap (feed_lines (map data_of ds)) (feed_line-data d p h.0)
      ∙ (feed_lines-data ds (record p { data_lines = p.data_lines ++ d ∷ [] }) h.1
          ∙ ap (λ l. record p { data_lines = l }) (append_assoc p.data_lines (d ∷ []) ds))

  feed_line-blank : (p : Parser) → feed_line loads [] p ≡ end_frame loads p
  unfolding feed_line stripped_line data_line rstrip_char rstrip_by lstrip_by drop_prefix
  feed_line-blank p = refl

  end_frame-named :
      (c : ℕ) (name : Text) (ds : List Text) (p : Parser)
      → end_frame loads (record p { current_event = some (c ∷ name); data_lines = ds })
        ≡ reset (add_event loads (c ∷ name) (parsed loads (join (codes "\n") ds)) p)
  unfolding end_frame add_event event_type
  end_frame-named c name ds p = if-and_false _ _ _

  end_frame-bare :
      (d : Text) (ds : List Text) (es : List Event) (snap : Json) (shared : Shared)
      → end_frame loads (record (between es snap shared) { data_lines = d ∷ ds }) ≡ (
          if text_eq (join (codes "\n") (d ∷ ds)) (codes "[DONE]")
          then between es snap shared
          else add_event loads
              (codes "message")
              (parsed loads (join (codes "\n") (d ∷ ds)))
              (between es snap shared))
  unfolding end_frame add_event event_type
  end_frame-bare d ds es snap shared =
      if-and_true (text_eq (join (codes "\n") (d ∷ ds)) (codes "[DONE]")) (between es snap shared) (
        add_event loads (codes "message") (parsed loads (join (codes "\n") (d ∷ ds)))
          (between es snap shared))

  -- A frame with an `event:` line, whatever was pending before, is recorded as one event: its name,
  -- and its data lines joined by newlines and parsed, or kept as text where they are no JSON.
  pub feed_lines-named :
      (c : ℕ) (name : Text) (ds : List Text) (p : Parser)
      → IsClean (c ∷ name)
      → All IsClean ds
      → feed_lines ((header (c ∷ name) ∷ map data_of ds) ++ [] ∷ []) p
        ≡ reset (add_event loads (c ∷ name) (parsed loads (join (codes "\n") ds)) p)
  unfolding feed_lines
  feed_lines-named c name ds p hn hd =
      ap (λ q. feed_lines (map data_of ds ++ [] ∷ []) q) (feed_line-header (c ∷ name) p hn)
      ∙ (feed_lines-append (map data_of ds) ([] ∷ []) (opened c name p)
          ∙ (ap (feed_lines ([] ∷ [])) (feed_lines-data ds (opened c name p) hd)
              ∙ (feed_line-blank (record (opened c name p) { data_lines = ds })
                  ∙ end_frame-named c name ds p)))

  -- A frame of `data:` lines alone, after a whole frame, is recorded as a `message`; only the
  -- protocol's lone terminator is dropped.
  pub feed_lines-bare :
      (d : Text) (ds : List Text) (es : List Event) (snap : Json) (shared : Shared)
      → All IsClean (d ∷ ds)
      → feed_lines (map data_of (d ∷ ds) ++ [] ∷ []) (between es snap shared) ≡ (
          if text_eq (join (codes "\n") (d ∷ ds)) (codes "[DONE]")
          then between es snap shared
          else add_event loads
              (codes "message")
              (parsed loads (join (codes "\n") (d ∷ ds)))
              (between es snap shared))
  unfolding feed_lines
  feed_lines-bare d ds es snap shared hd =
      feed_lines-append (map data_of (d ∷ ds)) ([] ∷ []) (between es snap shared)
      ∙ (ap (feed_lines ([] ∷ [])) (feed_lines-data (d ∷ ds) (between es snap shared) hd)
          ∙ (feed_line-blank (record (between es snap shared) { data_lines = d ∷ ds })
              ∙ end_frame-bare d ds es snap shared))
