-- ===== src/Proxy/Websocket.antt =====
-- claude_tap/proxy.py: the bodies that a WebSocket trace shows, put together from the messages of
-- both directions. `loads` is `json.loads`, `none` for a text that is no JSON; `item_key` is
-- `json.dumps` with sorted keys, which `_json_list_item_key` calls.
pub mod Merging
pub mod Filled
use text.Mathlib.Text.{◌==◌ as str_eq}
use claude_tap.Base.{
  ℕ, Text, String, Bool, true, false, not, ◌||◌, ◌&&◌, Option, none, some, List, [], ◌∷◌, ◌++◌,
  if◌then◌else◌, text_eq, any, map, ◌==◌, ltb, get_or,
}
use claude_tap.Json.{
  Json, ℤ, pos, negsuc, null, str, arr, obj, Items, nil, cons, Fields, end, field, truthy,
  equals_text, get, set, set_default, to_list, of_list, as_int,
}

-- `value in (None, "", [], {})`
unfoldable pub is_blank : Json → Bool
is_blank null = true
is_blank (str []) = true
is_blank (arr nil) = true
is_blank (obj end) = true
is_blank _ = false

-- The branch that keeps a value unless it is blank, or false.
abbrev pub set_if : Bool → String → Json → Fields → Fields
set_if b k v fs = if b then set k v fs else set_default k v fs

module _ (item_key : Json → Text) where
  -- The loop of `_merge_json_lists`; `seen` has the keys of `merged`.
  unfoldable pub merge_items : (merged : List Json) (seen : List Text) → List Json → List Json
  unfolding any text_eq
  merge_items merged seen [] = merged
  merge_items merged seen (item ∷ incoming) =
      let key = item_key item in
      let skipped = merge_items merged seen incoming in
      let added = merge_items (merged ++ item ∷ []) (key ∷ seen) incoming in
      if any (text_eq key) seen then skipped else added

  unfoldable pub merge_json_lists : List Json → List Json → List Json
  unfolding merge_items
  merge_json_lists existing incoming = merge_items existing (map item_key existing) incoming

  -- `input` and `tools`: two lists are merged.
  abbrev pub merge_list_field : String → Option Json → Json → Fields → Fields
  merge_list_field k (some (arr old)) (arr new) fs =
      set k (arr (of_list (merge_json_lists (to_list old) (to_list new)))) fs
  merge_list_field k old v fs = set_if (truthy v) k v fs

  unfoldable pub merge_request_field : String → Json → Fields → Fields
  unfolding get set set_default truthy is_blank merge_json_lists to_list of_list
  merge_request_field k v fs =
      if str_eq k "input" || str_eq k "tools"
      then merge_list_field k (get k fs) v fs
      else set_if (not (is_blank v)) k v fs

  unfoldable pub merge_request : Fields → Fields → Fields
  unfolding merge_request_field
  merge_request merged end = merged
  merge_request merged (field k v fs) = merge_request (merge_request_field k v merged) fs

  abbrev pub merge_message : Option Fields → Option Json → Option Fields
  merge_message none (some (obj fs)) = some fs
  merge_message (some merged) (some (obj fs)) = some (merge_request merged fs)
  merge_message merged _ = merged

  module _ (loads : Text → Option Json) where
    unfoldable pub request_body_from : Option Fields → List Text → Option Fields
    unfolding merge_request
    request_body_from merged [] = merged
    request_body_from merged (msg ∷ msgs) =
        request_body_from (merge_message merged (loads msg)) msgs

    unfoldable pub reconstruct_ws_request_body : List Text → Option Fields
    unfolding request_body_from
    reconstruct_ws_request_body msgs = request_body_from none msgs

module _ (loads : Text → Option Json) where
  abbrev parsed_message : Text → Option Json → Json
  parsed_message msg (some (obj fs)) = obj fs
  parsed_message msg (some v) = obj (field "raw" v end)
  parsed_message msg none = obj (field "raw" (str msg) end)

  unfoldable pub parse_ws_messages : List Text → List Json
  parse_ws_messages msgs = map (λ msg. parsed_message msg (loads msg)) msgs

  -- What `_build_ws_record` makes of the server's messages.
  unfoldable pub ws_events_of : List Text → List Json
  ws_events_of msgs = map (λ msg. get_or (loads msg) (obj (field "raw" (str msg) end))) msgs

-- `_reconstruct_ws_response_body`
unfoldable pub merge_response_field : String → Json → Fields → Fields
unfolding set set_default truthy is_blank
merge_response_field k v fs =
    if str_eq k "output" || str_eq k "usage"
    then set_if (truthy v) k v fs
    else set_if (not (is_blank v)) k v fs

unfoldable pub merge_response : Fields → Fields → Fields
unfolding merge_response_field
merge_response merged end = merged
merge_response merged (field k v fs) = merge_response (merge_response_field k v merged) fs

abbrev is_type : String → Option Json → Bool
is_type t none = false
is_type t (some v) = equals_text v t

abbrev carries_response : Option Json → Bool
carries_response t =
    is_type "response.created" t
    || is_type "response.in_progress" t
    || is_type "response.completed" t
    || is_type "response.done" t

abbrev merge_payload : Option Fields → Json → Option Fields
unfolding merge_response
merge_payload none (obj fs) = some fs
merge_payload (some merged) (obj fs) = some (merge_response merged fs)
merge_payload merged _ = merged

unfoldable pub merge_event : Option Fields → Fields → Option Fields
unfolding get text_eq merge_response
merge_event merged event =
    if carries_response (get "type" event)
    then merge_payload merged (get_or (get "response" event) (obj event))
    else merged

-- `output_items`: the items by their index, in ascending order, as `sorted` reads them.
abbrev pub lt_ℤ : ℤ → ℤ → Bool
lt_ℤ (pos a) (pos b) = ltb a b
lt_ℤ (pos a) (negsuc b) = false
lt_ℤ (negsuc a) (pos b) = true
lt_ℤ (negsuc a) (negsuc b) = ltb b a

abbrev pub eq_ℤ : ℤ → ℤ → Bool
eq_ℤ (pos a) (pos b) = a == b
eq_ℤ (negsuc a) (negsuc b) = a == b
eq_ℤ _ _ = false

unfoldable pub put_item : ℤ → Json → List (ℤ × Json) → List (ℤ × Json)
put_item i v [] = (i, v) ∷ []
put_item i v ((j, w) ∷ items) =
    if eq_ℤ i j
    then (i, v) ∷ items
    else if lt_ℤ i j
    then (i, v) ∷ (j, w) ∷ items
    else (j, w) ∷ put_item i v items

abbrev done_item : Option Json → Option ℤ → List (ℤ × Json) → List (ℤ × Json)
unfolding put_item
done_item (some (obj item)) (some i) items = put_item i (obj item) items
done_item _ _ items = items

abbrev index_of : Option Json → Option ℤ
unfolding as_int
index_of none = none
index_of (some v) = as_int v

unfoldable pub note_item : List (ℤ × Json) → Fields → List (ℤ × Json)
unfolding get text_eq as_int put_item
note_item items event =
    if is_type "response.output_item.done" (get "type" event)
    then done_item (get "item" event) (index_of (get "output_index" event)) items
    else items

abbrev pub merged_output : Option Json → Json
merged_output none = null
merged_output (some v) = v

-- The end: the collected items fill in for an output that is missing or empty.
unfoldable pub with_output : Option Fields → List (ℤ × Json) → Option Fields
unfolding get set truthy of_list
with_output merged [] = merged
with_output none (i ∷ items) =
    some (field "output" (arr (of_list (map (λ e. e.1) (i ∷ items)))) end)
with_output (some fs) (i ∷ items) = some (
    if truthy (merged_output (get "output" fs))
    then fs
    else set "output" (arr (of_list (map (λ e. e.1) (i ∷ items)))) fs)

unfoldable pub response_body_from : Option Fields → List (ℤ × Json) → List Json → Option Fields
unfolding merge_event note_item with_output
response_body_from merged items [] = with_output merged items
response_body_from merged items (obj event ∷ events) =
    response_body_from (merge_event merged event) (note_item items event) events
response_body_from merged items (v ∷ events) = response_body_from merged items events

unfoldable pub reconstruct_ws_response_body : List Json → Option Fields
unfolding response_body_from
reconstruct_ws_response_body events = response_body_from none [] events
