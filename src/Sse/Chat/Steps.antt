-- ===== src/Sse/Chat/Steps.antt =====
-- claude_tap/sse.py: the steps of `_accumulate_chat_completion_chunk` but for the tool calls, and
-- `_merge_chat_completion_usage`. A step changes a dict and may raise; `raised` carries what was
-- written before the exception, which `_accumulate` swallows.
use claude_tap.Base.{
  ℕ, ◌∷◌, Text, String, Bool, true, false, ◌&&◌, Option, none, some, if◌then◌else◌, get_or, is_some,
  bind, codes,
}
use claude_tap.Json.{
  Json, pos, null, num, str, arr, obj, nil, cons, Fields, end, field, truthy, get, set, has, item?,
  put, at, plus, set_key,
}

pub data Outcome : Type 0 where
  done : Fields → Outcome
  raised : Fields → Outcome

infixl 5 ◌>>=◌
abbrev pub ◌>>=◌ : Outcome → (Fields → Outcome) → Outcome
done s >>= f = f s
raised s >>= f = raised s

abbrev pub state : Outcome → Fields
state (done s) = s
state (raised s) = s

abbrev pub or_raise : Fields → Option Fields → Outcome
or_raise s none = raised s
or_raise s (some t) = done t

-- `v.get(k) or default`.
abbrev pub get_truthy : String → Json → Fields → Json
get_truthy k default fs = elim (get k fs) [
  | none ↦ default
  | some v ↦ if truthy v then v else default
]

-- Replaces `s[key][i]` by what `f` makes of it.
unfoldable pub at_item : String → ℕ → (Json → Option Json) → Fields → Option Fields
unfolding get set item? put
at_item key i f s = elim (get key s) [
  | some (arr xs) ↦ bind (item? xs i) λ x. bind (f x) λ y. some (set key (arr (put xs i y)) s)
  | _ ↦ none
]

unfoldable pub at_key : String → (Json → Option Json) → Json → Option Json
unfolding get set
at_key key f (obj fs) = bind (get key fs) λ x. bind (f x) λ y. some (obj (set key y fs))
at_key key f _ = none

-- `self._snapshot["choices"][0]["message"]` and `self._snapshot["content"][0]`.
unfoldable pub on_message : (Json → Option Json) → Fields → Option Fields
unfolding at_item at_key
on_message f = at_item "choices" 0 (at_key "message" f)

unfoldable pub on_text_block : (Json → Option Json) → Fields → Option Fields
unfolding at_item
on_text_block = at_item "content" 0

-- `d[key] = (d.get(key) or "") + piece`.
unfoldable pub append_to : String → Text → Json → Option Json
unfolding get set plus
append_to key piece (obj fs) =
    bind (plus (get_truthy key (str (codes "")) fs) (str piece)) λ v. some (obj (set key v fs))
append_to key piece _ = none

unfoldable pub role_step : Fields → Fields → Outcome
unfolding get on_message set_key
role_step delta snap = elim (get "role" delta) [
  | some (str (c ∷ s)) ↦ or_raise snap (on_message (set_key "role" (str (c ∷ s))) snap)
  | _ ↦ done snap
]

unfoldable pub content_step : Fields → Fields → Outcome
unfolding get on_message on_text_block append_to
content_step delta snap = elim (get "content" delta) [
  | some (str (c ∷ s)) ↦ or_raise snap (on_message (append_to "content" (c ∷ s)) snap) >>= λ t.
      or_raise t (on_text_block (append_to "text" (c ∷ s)) t)
  | _ ↦ done snap
]

-- `merged[new] = usage[old]` where only the old name is there.
unfoldable pub mirror_name_of : String → String → Fields → Fields → Fields
unfolding get has set
mirror_name_of old new usage merged = elim (get old usage) [
  | none ↦ merged
  | some v ↦ if has new usage then merged else set new v merged
]

unfoldable pub merged_usage : Fields → Fields
unfolding mirror_name_of
merged_usage usage =
    mirror_name_of "completion_tokens" "output_tokens" usage
      (mirror_name_of "prompt_tokens" "input_tokens" usage usage)

unfoldable pub merge_chat_usage : Fields → Fields → Fields
unfolding merged_usage set
merge_chat_usage usage snap = set "usage" (obj (merged_usage usage)) snap

-- `if isinstance(usage, dict)`.
unfoldable pub usage_step : Json → Fields → Outcome
unfolding merge_chat_usage
usage_step (obj usage) snap = done (merge_chat_usage usage snap)
usage_step _ snap = done snap

-- A chunk without choices.
unfoldable pub usage_only : Json → Json → Json
unfolding merge_chat_usage
usage_only (obj usage) (obj snap) = obj (merge_chat_usage usage snap)
usage_only _ snap = snap

-- The snapshot that the first chunk creates.
unfoldable pub new_snapshot : Fields → Fields → Fields
unfolding get truthy
new_snapshot event delta = field "id" (get_or (get "id" event) (str (codes ""))) (
    field "object" (str (codes "chat.completion")) (
      field "model" (get_or (get "model" event) (str (codes ""))) (
        field "choices" (arr (cons (obj first) nil))
          (field "content" (arr (cons (obj text_block) nil)) end))))
  where
    first : Fields
    first = field "index" (num (pos 0)) (
        field "message"
          (obj (
            field "role" (get_truthy "role" (str (codes "assistant")) delta)
              (field "content" (str (codes "")) end)))
          (field "finish_reason" null end))

    text_block : Fields
    text_block = field "type" (str (codes "text")) (field "text" (str (codes "")) end)

-- `if finish_reason: self._snapshot["choices"][0]["finish_reason"] = finish_reason`.
unfoldable pub finish_step : Json → Fields → Outcome
unfolding truthy at_item set_key
finish_step reason snap =
    if truthy reason
    then or_raise snap (at_item "choices" 0 (set_key "finish_reason" reason) snap)
    else done snap

unfoldable pub read_message : Fields → Option Json
unfolding get item? at
read_message snap = elim (get "choices" snap) [
  | some (arr xs) ↦ bind (item? xs 0) (at "message")
  | _ ↦ none
]

-- Both `msg` and `text_block` can be read.
unfoldable pub reachable : Fields → Bool
unfolding read_message get item?
reachable snap = is_some (read_message snap) && elim (get "content" snap) [
  | some (arr (cons x xs)) ↦ true
  | some (str (c ∷ s)) ↦ true
  | _ ↦ false
]
