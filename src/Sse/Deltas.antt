-- ===== src/Sse/Deltas.antt =====
-- claude_tap/sse.py: the text of a content block under a sequence of deltas.
use mathlib.Core.List.{append-nil, append_assoc, flatten}
use claude_tap.Base.{
  ℕ, ◌<◌, Text, false, Option, none, some, List, [], ◌∷◌, ◌++◌, ◌≡◌, ◌≢◌, refl, ap, ◌∙◌, arith,
  codes, text_eq, bind, if◌then◌else◌, Bool-cases, inl, inr, ==_iff, ◌==◌,
}
use claude_tap.Json.{
  Json, pos, null, num, str, arr, obj, Items, Fields, end, field, get, set, at, item?, put, count,
  get-set_self, item?-put_self, item?-put_ne, lt-count_of_item?, position,
}
use claude_tap.Sse.{accumulate}
use claude_tap.Sse.Blocks.{content_block_delta, change_block, delta_block, on_block}

abbrev block_of : Option Json → Option Fields
block_of (some (obj b)) = some b
block_of _ = none

abbrev block_in : ℕ → Option Json → Option Fields
block_in i (some (arr xs)) = block_of (item? xs i)
block_in i _ = none

-- `snapshot["content"][i]`, where it is an object.
unfoldable pub block_at : ℕ → Json → Option Fields
unfolding at item?
block_at i snap = block_in i (at "content" snap)

abbrev text_fields : Text → Fields
text_fields piece = field "type" (str (codes "text_delta")) (field "text" (str piece) end)

abbrev delta_fields : ℕ → Text → Fields
delta_fields i piece = field "index" (num (pos i)) (field "delta" (obj (text_fields piece)) end)

-- The payload of a `content_block_delta` event with a piece of text.
abbrev pub text_delta : ℕ → Text → Json
text_delta i piece = obj (delta_fields i piece)

ne→== : (i j : ℕ) → i ≢ j → (i == j) ≡ false
ne→== i j h = ground arith

delta_block-text :
    (piece s : Text) (b : Fields)
    → get "text" b ≡ some (str s)
    → delta_block (field "type" (str (codes "text_delta")) (field "text" (str piece) end)) b
      ≡ some (set "text" (str (s ++ piece)) b)
unfolding delta_block text_eq
delta_block-text piece s b h = rw h refl

unfoldable pub text_at : ℕ → Json → Option Json
unfolding block_at get
text_at i snap = bind (block_at i snap) (get "text")

-- The block at `i`, with the parts of the snapshot that lead to it.
record Holds (i : ℕ) (s : Text) (snap : Json) : Type 0 where
  top : Fields
  xs : Items
  block : Fields
  is_top : snap ≡ obj top
  has_content : get "content" top ≡ some (arr xs)
  has_block : item? xs i ≡ some (obj block)
  has_text : get "text" block ≡ some (str s)

Holds-of-item :
    (i : ℕ) (s : Text) (top : Fields) (xs : Items) (x : Option Json)
    → get "content" top ≡ some (arr xs)
    → item? xs i ≡ x
    → bind (block_of x) (get "text") ≡ some (str s)
    → Holds i s (obj top)
Holds-of-item i s top xs (some (obj b)) hc hx h = record {
  top = top;
  xs = xs;
  block = b;
  is_top = refl;
  has_content = hc;
  has_block = hx;
  has_text = h;
}
Holds-of-item i s top xs none hc hx h = cc
Holds-of-item i s top xs (some _) hc hx h = cc

Holds-of-content :
    (i : ℕ) (s : Text) (top : Fields) (c : Option Json)
    → get "content" top ≡ c
    → bind (block_in i c) (get "text") ≡ some (str s)
    → Holds i s (obj top)
Holds-of-content i s top (some (arr xs)) hc h = Holds-of-item i s top xs (item? xs i) hc refl h
Holds-of-content i s top none hc h = cc
Holds-of-content i s top (some _) hc h = cc

Holds-of-text_at : (i : ℕ) (s : Text) (snap : Json) → text_at i snap ≡ some (str s) → Holds i s snap
unfolding text_at block_at
Holds-of-text_at i s (obj top) h = Holds-of-content i s top (get "content" top) refl h
Holds-of-text_at i s null h = cc
Holds-of-text_at i s _ h = cc

text_at-set :
    (i j : ℕ) (top : Fields) (xs : Items) (b : Fields)
    → get "content" top ≡ some (arr xs)
    → i < count xs
    → block_at j (obj (set "content" (arr (put xs i (obj b))) top))
      ≡ (if i == j then some b else block_at j (obj top))
unfolding block_at
text_at-set i j top xs b hc h = elim (Bool-cases (i == j)) [
  | inl e ↦
      let same : i ≡ j = (==_iff i j).0 e in
      rw (e, ← same, get-set_self) (rw (item?-put_self xs i (obj b) h) refl)
  | inr e ↦
      let other : i ≢ j = λ q. cc ((==_iff i j).1 q) in
      rw (e, get-set_self, hc) (ap block_of (item?-put_ne xs i j (obj b) other))
]

position_of_lt : (xs : Items) (i : ℕ) → i < count xs → position xs (pos i) ≡ some i
unfolding position
position_of_lt xs i h = ground arith

-- A change of one block, where every part is there.
change_block_lem :
    (f : Fields → Option Fields) (top event : Fields) (xs : Items) (i : ℕ) (b b' : Fields)
    → get "content" top ≡ some (arr xs)
    → get "index" event ≡ some (num (pos i))
    → item? xs i ≡ some (obj b)
    → f b ≡ some b'
    → change_block f top event ≡ set "content" (arr (put xs i (obj b'))) top
unfolding change_block on_block
change_block_lem f top event xs i b b' hc hi hb hf =
    rw
      (
        hc,
        hi,
        position_of_lt xs i (lt-count_of_item? xs i (obj b) hb),
        hb,
        hf,
        change_block,
        on_block,
      )
      refl

-- The snapshot after one delta.
delta_lem :
    (loads : Text → Option Json) (i : ℕ) (s piece : Text) (snap : Json) (h : Holds i s snap)
    → accumulate loads (codes "content_block_delta") (text_delta i piece) snap
      ≡ obj (set "content" (arr (put h.xs i (obj (set "text" (str (s ++ piece)) h.block)))) h.top)
unfolding accumulate content_block_delta
delta_lem loads i s piece snap h = rw h.is_top (
    ap (λ t. obj t)
      (change_block_lem (delta_block (text_fields piece)) h.top (delta_fields i piece) h.xs i
        h.block (set "text" (str (s ++ piece)) h.block) h.has_content refl h.has_block
        (delta_block-text piece s h.block h.has_text)))

delta-Holds :
    (loads : Text → Option Json) (i : ℕ) (s piece : Text) (snap : Json)
    → Holds i s snap
    → Holds i
        (s ++ piece)
        (accumulate loads (codes "content_block_delta") (text_delta i piece) snap)
delta-Holds loads i s piece snap h = record {
  top = set "content" (arr (put h.xs i (obj (set "text" (str (s ++ piece)) h.block)))) h.top;
  xs = put h.xs i (obj (set "text" (str (s ++ piece)) h.block));
  block = set "text" (str (s ++ piece)) h.block;
  is_top = delta_lem loads i s piece snap h;
  has_content = get-set_self _ _ h.top;
  has_block = item?-put_self h.xs i _ (lt-count_of_item? h.xs i (obj h.block) h.has_block);
  has_text = get-set_self _ _ h.block;
}

text_at_of-Holds : (i : ℕ) (s : Text) (snap : Json) → Holds i s snap → text_at i snap ≡ some (str s)
unfolding text_at block_at
text_at_of-Holds i s snap h = rw (h.is_top, h.has_content, h.has_block, h.has_text, block_in) refl

delta-other :
    (loads : Text → Option Json) (i j : ℕ) (s piece : Text) (snap : Json)
    → (i == j) ≡ false
    → Holds i s snap
    → block_at j (accumulate loads (codes "content_block_delta") (text_delta i piece) snap)
      ≡ block_at j snap
delta-other loads i j s piece snap e h =
    rw (delta_lem loads i s piece snap h, h.is_top)
      (text_at-set i j h.top h.xs (set "text" (str (s ++ piece)) h.block) h.has_content
          (lt-count_of_item? h.xs i (obj h.block) h.has_block)
        ∙ rw e refl)

-- The snapshot after a run of deltas for one block.
unfoldable pub deltas : (Text → Option Json) → ℕ → List Text → Json → Json
deltas loads i [] snap = snap
deltas loads i (piece ∷ pieces) snap =
    deltas loads i pieces (accumulate loads (codes "content_block_delta") (text_delta i piece) snap)

deltas-Holds :
    (loads : Text → Option Json) (i : ℕ) (s : Text) (pieces : List Text) (snap : Json)
    → Holds i s snap
    → Holds i (s ++ flatten pieces) (deltas loads i pieces snap)
unfolding deltas flatten
deltas-Holds loads i s [] snap h = rw append-nil h
deltas-Holds loads i s (piece ∷ pieces) snap h =
    rw (← append_assoc s piece (flatten pieces))
      (deltas-Holds loads i (s ++ piece) pieces _ (delta-Holds loads i s piece snap h))

deltas-other :
    (loads : Text → Option Json) (i j : ℕ) (s : Text) (pieces : List Text) (snap : Json)
    → (i == j) ≡ false
    → Holds i s snap
    → block_at j (deltas loads i pieces snap) ≡ block_at j snap
unfolding deltas
deltas-other loads i j s [] snap e h = refl
deltas-other loads i j s (piece ∷ pieces) snap e h =
    deltas-other loads i j (s ++ piece) pieces
      (accumulate loads (codes "content_block_delta") (text_delta i piece) snap) e
      (delta-Holds loads i s piece snap h)
    ∙ delta-other loads i j s piece snap e h

-- Where the block at `i` of the snapshot holds a text, a run of text deltas with that index leaves
-- there the text followed by the pieces in order, and the block at another index `j` as it was.
pub text_at-deltas :
    (loads : Text → Option Json) (i j : ℕ) (s : Text) (pieces : List Text) (snap : Json)
    → text_at i snap ≡ some (str s)
    → i ≢ j
    → (text_at i (deltas loads i pieces snap) ≡ some (str (s ++ flatten pieces)))
      × (block_at j (deltas loads i pieces snap) ≡ block_at j snap)
text_at-deltas loads i j s pieces snap h ne =
    let holds = Holds-of-text_at i s snap h in
    (
      text_at_of-Holds i _ _ (deltas-Holds loads i s pieces snap holds),
      deltas-other loads i j s pieces snap (ne→== i j ne) holds,
    )
