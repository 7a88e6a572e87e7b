-- ===== src/Sse/Blocks.antt =====
-- claude_tap/sse.py, `_accumulate`: the branches for Anthropic's content blocks. Each function
-- takes the snapshot's dict and the event's payload; where the source raises, which `_accumulate`
-- swallows, what was written before stays written.
use claude_tap.Base.{Text, String, Option, none, some, if◌then◌else◌, get_or, bind, codes}
use claude_tap.Json.{
  Json, ℤ, pos, null, num, str, arr, obj, Items, nil, Fields, end, truthy, equals_text, get, set,
  remove, at, update, count, item?, put, as_int, position, extend, plus,
}

start_at : Option ℤ → Json → Items → Option Items
unfolding extend position put
start_at none block xs = none
start_at (some z) block xs =
    let ys = extend z (obj end) xs in
    elim (position ys z) [ none ↦ some ys | some i ↦ some (put ys i block) ]

-- `content_block_start` with the list `content` at hand.
start_content : Fields → Fields → Json → Fields
unfolding start_at get as_int count set
start_content snap event (arr xs) =
    let index = get_or (get "index" event) (num (pos (count xs))) in
    let block = get_or (get "content_block" event) (obj end) in
    elim (start_at (as_int index) block xs) [ none ↦ snap | some ys ↦ set "content" (arr ys) snap ]
start_content snap event _ = snap

unfoldable pub content_block_start : Fields → Fields → Fields
unfolding start_content get set
content_block_start snap event = elim (get "content" snap) [
  | none ↦ start_content (set "content" (arr nil) snap) event (arr nil)
  | some content ↦ start_content snap event content
]

-- `block[key] = block.get(key, "") + delta.get(part, "")`.
unfoldable pub extend_key : String → String → Fields → Fields → Option Fields
unfolding get plus set
extend_key key part delta block =
    bind (plus (get_or (get key block) (str (codes ""))) (get_or (get part delta) (str (codes ""))))
      (λ v. some (set key v block))

unfoldable pub delta_block : Fields → Fields → Option Fields
unfolding extend_key at get
delta_block delta block =
    let kind = get_or (get "type" delta) null in
    if equals_text kind "text_delta"
    then extend_key "text" "text" delta block
    else if equals_text kind "thinking_delta"
    then extend_key "thinking" "thinking" delta block
    else if equals_text kind "input_json_delta"
    then extend_key "_partial_json" "partial_json" delta block
    else none

-- `_snapshot["content"][idx]`, after the test `idx < len(...)`, changed where it is an object.
unfoldable pub on_block : (Fields → Option Fields) → Json → Items → Option Items
unfolding as_int position item? put
on_block f index xs = bind (as_int index) λ z. bind (position xs z) λ i. elim (item? xs i) [
  | some (obj block) ↦ bind (f block) (λ b. some (put xs i (obj b)))
  | _ ↦ none
]

unfoldable pub change_block : (Fields → Option Fields) → Fields → Fields → Fields
unfolding on_block get set
change_block f snap event = elim (get "content" snap) [
  | some (arr xs) ↦ elim (on_block f (get_or (get "index" event) (num (pos 0))) xs) [
    | none ↦ snap
    | some ys ↦ set "content" (arr ys) snap
  ]
  | _ ↦ snap
]

unfoldable pub content_block_delta : Fields → Fields → Fields
unfolding change_block delta_block get
content_block_delta snap event = elim (get_or (get "delta" event) (obj end)) [
  | obj delta ↦ change_block (delta_block delta) snap event
  | _ ↦ snap
]

module _ (loads : Text → Option Json) where
  -- `json.loads` of the collected text; on a JSON error the block keeps its input.
  unfoldable pub stop_block : Fields → Option Fields
  unfolding get set remove
  stop_block block = elim (get "_partial_json" block) [
    | some (str t) ↦ elim (loads t) [
      | none ↦ some (remove "_partial_json" block)
      | some v ↦ some (remove "_partial_json" (set "input" v block))
    ]
    | _ ↦ none
  ]

  unfoldable pub content_block_stop : Fields → Fields → Fields
  unfolding change_block stop_block
  content_block_stop snap event = change_block stop_block snap event

merge_objects : Json → Json → Fields → Fields
unfolding set update
merge_objects (obj new) (obj old) snap = set "usage" (obj (update old new)) snap
merge_objects usage (obj old) snap = set "usage" (obj old) snap
merge_objects usage old snap = snap

-- `_snapshot["usage"].update(usage)`, after an empty dict was put where there was none.
unfoldable pub merge_usage : Json → Fields → Fields
unfolding truthy get merge_objects
merge_usage usage snap =
    if truthy usage then merge_objects usage (get_or (get "usage" snap) (obj end)) snap else snap

-- `delta.items()` written into the snapshot one by one is `update`.
unfoldable pub message_delta : Fields → Fields → Fields
unfolding merge_usage get update
message_delta snap event = elim (get_or (get "delta" event) (obj end)) [
  | obj delta ↦ merge_usage (get_or (get "usage" event) (obj end)) (update snap delta)
  | _ ↦ snap
]
