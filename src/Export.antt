-- ===== src/Export.antt =====
-- claude_tap/export.py: a trace as JSON. The command's output, the Markdown format and the page are
-- left out. `loads` is `json.loads`, `none` where it raises, `dumps` is `json.dumps`, and `normalize`
-- is `_normalize_record_for_viewer`.
pub mod Sorting
mod Tests
use claude_tap.Base.{
  ℕ, zero, suc, Text, String, Bool, true, false, ◌&&◌, ◌||◌, Option, none, some, List, [], ◌∷◌,
  ◌++◌, codes, map, text_eq, if◌then◌else◌, is_nil, get_or, strip, lower, leb,
}
use claude_tap.Json.{
  ℤ, pos, negsuc, Json, null, bool, num, str, arr, obj, Items, nil, Fields, end, field, get, set,
  truthy,
}

-- `_as_dict`
abbrev pub as_dict : Option Json → Fields
as_dict (some (obj fs)) = fs
as_dict _ = end

unfoldable pub request_body : Fields → Fields
unfolding get
request_body record' = as_dict (get "body" (as_dict (get "request" record')))

unfoldable pub response_body : Fields → Fields
unfolding get
response_body record' = as_dict (get "body" (as_dict (get "response" record')))

unfoldable pub usage_from : Fields → Fields
unfolding get response_body
usage_from record' = as_dict (get "usage" (response_body record'))

abbrev pub int_or_zero : Option Json → ℤ
int_or_zero (some (num n)) = n
int_or_zero (some (bool true)) = pos 1
int_or_zero _ = pos 0

-- A bool is an int in Python.
unfoldable pub turn_sort_key : Fields → ℤ
unfolding get
turn_sort_key record' = int_or_zero (get "turn" record')

unfoldable pub le_ℤ : ℤ → ℤ → Bool
le_ℤ (pos a) (pos b) = leb a b
le_ℤ (pos a) (negsuc b) = false
le_ℤ (negsuc a) (pos b) = true
le_ℤ (negsuc a) (negsuc b) = leb b a

unfoldable pub insert_by_turn : Fields → List Fields → List Fields
unfolding turn_sort_key le_ℤ
insert_by_turn r [] = r ∷ []
insert_by_turn r (x ∷ records) =
    let later = insert_by_turn r records in
    if le_ℤ (turn_sort_key r) (turn_sort_key x) then r ∷ x ∷ records else x ∷ later

-- `records.sort(key=_turn_sort_key)`
unfoldable pub sort_by_turn : List Fields → List Fields
unfolding insert_by_turn
sort_by_turn [] = []
sort_by_turn (r ∷ records) = insert_by_turn r (sort_by_turn records)

abbrev object_or : Option Json → Fields → Fields
object_or (some (obj fs)) record' = fs
object_or _ record' = record'

module _ (loads : Text → Option Json) (dumps : Fields → Text) (normalize : Text → Text) where
  -- On an object.
  unfoldable pub normalize_record_for_export : Fields → Fields
  normalize_record_for_export record' = object_or (loads (normalize (dumps record'))) record'

  abbrev read_record : Option Json → List Fields
  unfolding normalize_record_for_export
  read_record (some (obj record')) = normalize_record_for_export record' ∷ []
  read_record _ = []

  -- The records of a trace's lines; a line that is no JSON, or no object, is passed over.
  unfoldable pub read_records : List Text → List Fields
  unfolding read_record strip
  read_records [] = []
  read_records (line ∷ lines) =
      let later = read_records lines in
      if is_nil (strip line) then later else read_record (loads (strip line)) ++ later

pub data Format : Type 0 where
  markdown json html : Format

-- `--format`, or else what the suffix of the output says.
unfoldable pub infer_format : Option Format → (suffix : Option Text) → Format
unfolding lower text_eq
infer_format (some format) suffix = format
infer_format none none = markdown
infer_format none (some suffix) =
    if text_eq (lower suffix) (codes ".json")
    then json
    else if text_eq (lower suffix) (codes ".html") || text_eq (lower suffix) (codes ".htm")
    then html
    else markdown

abbrev list_json : Option Json → Json
list_json (some (arr items)) = arr items
list_json _ = arr nil

-- One more field if the value is truthy.
abbrev set_if_truthy : String → Option Json → Fields → Fields
unfolding truthy set
set_if_truthy key none entry = entry
set_if_truthy key (some v) entry = if truthy v then set key v entry else entry

-- An entry of `_export_json`.
unfoldable pub export_entry : Fields → Fields
unfolding get request_body response_body set_if_truthy
export_entry record' =
    let req_body = request_body record' in
    let resp_body = response_body record' in
    let response = field "content" (list_json (get "content" resp_body)) (
      field "usage" (obj (as_dict (get "usage" resp_body)))
        (field "stop_reason" (get_or (get "stop_reason" resp_body) null) end)) in
    let entry = field "turn" (get_or (get "turn" record') null) (
      field "timestamp" (get_or (get "timestamp" record') null) (
        field "duration_ms" (get_or (get "duration_ms" record') null) (
          field "model" (get_or (get "model" req_body) null) (
            field "messages" (list_json (get "messages" req_body))
              (field "response" (obj response) end))))) in
    set_if_truthy "tools" (get "tools" req_body)
      (set_if_truthy "system" (get "system" req_body) entry)

unfoldable pub export_json : List Fields → List Fields
unfolding export_entry
export_json records = map export_entry records
