-- ===== src/Sse/Chat/Tools.antt =====
-- claude_tap/sse.py: the loop over `delta["tool_calls"]` and `_mirror_tool_call_to_content`.
use claude_tap.Base.{ℕ, Text, String, Option, none, some, if◌then◌else◌, get_or, bind, codes}
use claude_tap.Json.{
  Json, ℤ, pos, null, num, bool, str, arr, obj, Items, nil, cons, Fields, end, field, truthy, get,
  set, has, item?, put, as_int, at, set_default, position, extend, set_key, ◌+ℤ◌,
}
use claude_tap.Sse.Chat.Steps.{
  Outcome, done, raised, ◌>>=◌, or_raise, get_truthy, at_item, at_key, on_message, append_to,
  read_message,
}

abbrev pub new_function : Json
new_function = obj (field "name" (str (codes "")) (field "arguments" (str (codes "")) end))

abbrev pub new_tool_call : Json
new_tool_call = obj (
    field "id" (str (codes ""))
      (field "type" (str (codes "function")) (field "function" new_function end)))

abbrev pub new_tool_use : Json
new_tool_use = obj (
    field "type" (str (codes "tool_use"))
      (field "id" (str (codes "")) (field "name" (str (codes "")) (field "input" (obj end) end))))

-- `if isinstance(tc_delta.get(key), str): existing[key] = tc_delta[key]`.
unfoldable pub copy_text : String → Fields → Fields → Fields
unfolding get set
copy_text key tc existing = elim (get key tc) [
  | some (str s) ↦ set key (str s) existing
  | _ ↦ existing
]

-- `fn[key] = (fn.get(key) or "") + fn_delta[key]`, where `fn` is `existing["function"]`.
unfoldable pub extend_function : String → Fields → Fields → Outcome
unfolding get at_key append_to
extend_function key fn_delta existing = elim (get key fn_delta) [
  | some (str s) ↦ elim (at_key "function" (append_to key s) (obj existing)) [
    | some (obj e) ↦ done e
    | _ ↦ raised existing
  ]
  | _ ↦ done existing
]

unfoldable pub function_step : Fields → Fields → Outcome
unfolding get has set extend_function
function_step tc existing = elim (get_truthy "function" (obj end) tc) [
  | obj fn_delta ↦
      let e = if has "function" existing then existing else set "function" new_function existing in
      extend_function "name" fn_delta e >>= extend_function "arguments" fn_delta
  | _ ↦ done existing
]

unfoldable pub tool_step : Fields → Fields → Outcome
unfolding copy_text function_step
tool_step tc existing = function_step tc (copy_text "type" tc (copy_text "id" tc existing))

-- `msg.setdefault("tool_calls", [])`.
unfoldable pub default_calls : Json → Option Json
unfolding set_default
default_calls (obj msg) = some (obj (set_default "tool_calls" (arr nil) msg))
default_calls _ = none

unfoldable pub read_calls : Fields → Option Json
unfolding read_message at
read_calls snap = bind (read_message snap) (at "tool_calls")

unfoldable pub write_calls : Items → Fields → Fields
unfolding on_message set_key
write_calls ys snap = get_or (on_message (set_key "tool_calls" (arr ys)) snap) snap

module _ (loads : Text → Option Json) where
  unfoldable pub mirror_input : Json → Json → Option Json
  unfolding set_key
  mirror_input (str s) block = elim (loads s) [
    | none ↦ some block
    | some v ↦ set_key "input" v block
  ]
  mirror_input _ block = none

  unfoldable pub mirror_name : Json → Json → Option Json
  unfolding truthy get set_key
  mirror_name (obj fn) block =
      let name = get_or (get "name" fn) null in
      if truthy name then set_key "name" name block else some block
  mirror_name _ block = none

  unfoldable pub mirror_arguments : Json → Json → Option Json
  unfolding truthy get mirror_input
  mirror_arguments (obj fn) block =
      let args = get_or (get "arguments" fn) (str (codes "")) in
      if truthy args then mirror_input args block else some block
  mirror_arguments _ block = none

  unfoldable pub mirror_id : Fields → Json → Option Json
  unfolding truthy get set_key
  mirror_id tc block =
      let id = get_or (get "id" tc) null in if truthy id then set_key "id" id block else some block

  -- One change of `content[target]`, which is not undone by a later exception.
  unfoldable pub mirror_write : ℕ → (Json → Option Json) → Fields → Outcome
  unfolding at_item
  mirror_write target f snap = or_raise snap (at_item "content" target f snap)

  unfoldable pub mirror_at : ℕ → Fields → Fields → Outcome
  unfolding mirror_write mirror_id mirror_name mirror_arguments get
  mirror_at target tc snap =
      let fn = get_truthy "function" (obj end) tc in
      mirror_write target (mirror_id tc) snap
      >>= mirror_write target (mirror_name fn)
      >>= mirror_write target (mirror_arguments fn)

  unfoldable pub mirror_tool_call : ℤ → Fields → Fields → Outcome
  unfolding mirror_at get set extend position ◌+ℤ◌
  mirror_tool_call idx tc snap = elim (get "content" snap) [
    | some (arr xs) ↦
        let target = ◌+ℤ◌ idx (pos 1) in
        let ys = extend target new_tool_use xs in
        let snap' = set "content" (arr ys) snap in
        elim (position ys target) [ none ↦ raised snap' | some i ↦ mirror_at i tc snap' ]
    | _ ↦ raised snap
  ]

  -- The tool call at `i`, changed in place and then mirrored.
  unfoldable pub existing_step : ℤ → Fields → Items → ℕ → Fields → Outcome
  unfolding tool_step mirror_tool_call item? put write_calls
  existing_step idx tc calls i snap = elim (item? calls i) [
    | some (obj existing) ↦ elim (tool_step tc existing) [
      | raised e ↦ raised (write_calls (put calls i (obj e)) snap)
      | done e ↦ mirror_tool_call idx e (write_calls (put calls i (obj e)) snap)
    ]
    | _ ↦ raised snap
  ]

  -- `tool_calls` is at hand: it is extended up to the index.
  unfoldable pub indexed_step : Option ℤ → Fields → Json → Fields → Outcome
  unfolding extend position write_calls existing_step
  indexed_step (some idx) tc (arr calls) snap =
      let ys = extend idx new_tool_call calls in
      let snap' = write_calls ys snap in
      elim (position ys idx) [ none ↦ raised snap' | some i ↦ existing_step idx tc ys i snap' ]
  indexed_step _ tc calls snap = raised snap

  -- The body of the loop over `delta["tool_calls"]`.
  unfoldable pub tool_delta : Json → Fields → Outcome
  unfolding on_message default_calls read_calls indexed_step get as_int
  tool_delta (obj tc) snap = elim (on_message default_calls snap) [
    | none ↦ raised snap
    | some snap' ↦ elim (read_calls snap') [
      | none ↦ raised snap'
      | some calls ↦ indexed_step (as_int (get_or (get "index" tc) (num (pos 0)))) tc calls snap'
    ]
  ]
  tool_delta _ snap = done snap

  unfoldable pub tool_deltas : Items → Fields → Outcome
  unfolding tool_delta
  tool_deltas nil snap = done snap
  tool_deltas (cons x xs) snap = elim (tool_delta x snap) [
    | raised s ↦ raised s
    | done s ↦ tool_deltas xs s
  ]

  -- The loop. A truthy number cannot be iterated; texts and objects iterate over texts.
  unfoldable pub tools_step : Fields → Fields → Outcome
  unfolding tool_deltas get truthy
  tools_step delta snap = elim (get_truthy "tool_calls" (arr nil) delta) [
    | arr xs ↦ tool_deltas xs snap
    | num z ↦ raised snap
    | bool b ↦ raised snap
    | _ ↦ done snap
  ]
