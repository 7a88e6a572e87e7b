-- ===== src/Viewer/Embedding.antt =====
-- claude_tap/viewer.py, `_generate_html_viewer`: the records as they stand in the page. `normalize` is
-- `_normalize_record_for_viewer`, `metadata` the text that `json.dumps` gives of the metadata of the
-- records; the paths and the version are JSON texts too. The template is given by its text; where it
-- has no place for the data the function raises.
pub mod Closing
use claude_tap.Base.{
  ℕ, zero, suc, Text, Bool, true, false, ◌&&◌, ◌||◌, Option, none, some, List, [], ◌∷◌, ◌++◌, map,
  codes, if◌then◌else◌, ◌==◌, ltb, length, is_nil, strip, join, has_part, split_all, drop_prefix,
}

-- `LAZY_THRESHOLD`
abbrev pub lazy_threshold : ℕ
lazy_threshold = 50

-- `rec.replace("</", "<\\/")`: a slash after `<` gets a backslash before it.
unfoldable pub escape_from : (after_lt : Bool) → Text → Text
escape_from after_lt [] = []
escape_from after_lt (c ∷ s) =
    let plain = escape_from (c == b'<') s in
    let escaped = escape_from false s in
    if after_lt && c == b'/' then b'\\' ∷ b'/' ∷ escaped else c ∷ plain

unfoldable pub escape_closing : Text → Text
unfolding escape_from
escape_closing = escape_from false

-- The records of the trace's lines, normalized and escaped.
unfoldable pub embedded_lines : (normalize : Text → Text) → List Text → List Text
unfolding strip escape_closing
embedded_lines normalize [] = []
embedded_lines normalize (line ∷ lines) =
    let later = embedded_lines normalize lines in
    if is_nil (strip line) then later else escape_closing (normalize (strip line)) ∷ later

-- The records as an array, or as lines where there are many.
unfoldable pub records_block : List Text → Text
unfolding join
records_block records =
    if ltb lazy_threshold (length records)
    then join (codes "\n") records
    else codes "const EMBEDDED_TRACE_DATA = [\n" ++ (join (codes ",\n") records ++ codes "\n];\n")

abbrev constants : (jsonl_path html_path version : Text) → Text
constants jsonl_path html_path version =
    codes "const __TRACE_JSONL_PATH__ = "
    ++ jsonl_path
    ++ codes ";\nconst __TRACE_HTML_PATH__ = "
    ++ html_path
    ++ codes ";\nconst __CLAUDE_TAP_VERSION__ = "
    ++ version
    ++ codes ";\n"

-- What is put before the place in the template.
unfoldable pub data_block : (metadata jsonl_path html_path version : Text) → List Text → Text
unfolding records_block
data_block metadata jsonl_path html_path version records =
    if ltb lazy_threshold (length records)
    then codes "<script>\nconst EMBEDDED_TRACE_META = "
      ++ metadata
      ++ codes ";\n"
      ++ constants jsonl_path html_path version
      ++ codes "</script>\n<script type=\"text/plain\" id=\"trace-raw\">\n"
      ++ records_block records
      ++ codes "\n</script>\n"
    else codes "<script>\n"
      ++ records_block records
      ++ constants jsonl_path html_path version
      ++ codes "</script>\n"

abbrev pub marked_needle : Text
marked_needle = codes "<script>\n/* CLAUDETAP_LIVE_CONFIG */\nconst $ = s =>"

abbrev pub legacy_needle : Text
legacy_needle = codes "<script>\nconst $ = s =>"

-- `_main_script_inject_needle`
unfoldable pub inject_needle : (html : Text) → Option Text
unfolding has_part
inject_needle html =
    if has_part marked_needle html
    then some marked_needle
    else if has_part legacy_needle html
    then some legacy_needle
    else none

-- `html.replace(needle, data + needle, 1)`
unfoldable pub insert_before : (needle data_text : Text) → Text → Text
unfolding drop_prefix
insert_before needle data_text [] = []
insert_before needle data_text (c ∷ s) = elim (drop_prefix needle (c ∷ s)) [
  | some rest ↦ data_text ++ needle ++ rest
  | none ↦ c ∷ insert_before needle data_text s
]

abbrev inserted : (data_text html : Text) → Option Text → Option Text
unfolding insert_before
inserted data_text html none = none
inserted data_text html (some needle) = some (insert_before needle data_text html)

-- The page, `none` where the function raises. `lines` are those of the trace, none without a file.
unfoldable pub generate_html_viewer :
    (normalize : Text → Text)
    → (metadata_of : List Text → Text) → (jsonl_path html_path version template : Text)
    → (lines : List Text) → Option Text
unfolding embedded_lines data_block inject_needle inserted
generate_html_viewer normalize metadata_of jsonl_path html_path version template lines =
    let records = embedded_lines normalize lines in
    inserted (data_block (metadata_of records) jsonl_path html_path version records) template
      (inject_needle template)
