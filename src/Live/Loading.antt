-- ===== src/Live/Loading.antt =====
-- claude_tap/live.py: the records of a session as they are read from its file, and the handlers that
-- answer with them. `loads` is `json.loads`, `to_int` is `int` on a text; `read_text` gives the text of
-- a file, `none` where there is no file or it cannot be read; `unquote` undoes the quoting of a URL.
-- A handler gets the parameters of the query as a dict; a result `none` is a reply 400.
pub mod Written
use claude_tap.Base.{
  ℕ, zero, suc, ◌≤◌, Text, String, Bool, true, false, not, ◌||◌, ◌&&◌, Option, none, some, List, [],
  ◌∷◌, ◌++◌, codes, text_eq, if◌then◌else◌, ◌==◌, leb, is_nil, bind, map, get_or, strip,
  starts_with, Dict, lookup, keep,
}
use Prim.Native.Nat.{min, max}
use claude_tap.Json.{
  ℤ, pos, negsuc, Json, null, bool, num, str, arr, obj, Items, nil, Fields, end, field, get, set,
  remove, truthy,
}
use claude_tap.Session.Index.{Table, Row, get_session}
use claude_tap.Live.Buffers.{strip_stream_events_keep_counts}

-- What `str.splitlines` splits at.
unfoldable pub is_line_end : ℕ → Bool
is_line_end c = leb 10 c && leb c 13 || leb 28 c && leb c 30 || c == 133 || c == 8232 || c == 8233

abbrev onto_line : ℕ → List Text → List Text
onto_line c [] = (c ∷ []) ∷ []
onto_line c (line ∷ lines) = (c ∷ line) ∷ lines

-- `str.splitlines`: `\r\n` is one end of a line.
unfoldable pub splitlines : Text → List Text
unfolding is_line_end starts_with
splitlines [] = []
splitlines (c ∷ s) =
    let lines = splitlines s in
    if is_line_end c
    then if c == 13 && starts_with s (10 ∷ []) then lines else [] ∷ lines
    else onto_line c lines

-- `n <= limit`
abbrev pub le_int : ℤ → ℕ → Bool
le_int (pos n) limit = leb n limit
le_int (negsuc n) limit = true

module _ (loads : Text → Option Json) (to_int : Text → Option ℤ) where
  -- `int` on a value, `none` where it raises.
  unfoldable pub int_of : Json → Option ℤ
  int_of (num n) = some n
  int_of (bool true) = some (pos 1)
  int_of (bool false) = some (pos 0)
  int_of (str s) = to_int s
  int_of _ = none

  abbrev pub after : ℕ → Option ℤ → Bool
  after since_turn none = false
  after since_turn (some turn) = not (le_int turn since_turn)

  -- Whether a record passes the filter; none is set by 0.
  unfoldable pub is_newer : (since_turn : ℕ) → Fields → Bool
  unfolding int_of get
  is_newer since_turn record' =
      since_turn == 0 || after since_turn (int_of (get_or (get "turn" record') null))

  abbrev kept : (since_turn : ℕ) → Option Json → Option (List Fields)
  unfolding is_newer
  kept since_turn none = none
  kept since_turn (some (obj record')) =
      some (if is_newer since_turn record' then record' ∷ [] else [])
  kept since_turn (some _) = some []

  unfoldable pub load_line : (since_turn : ℕ) → Text → Option (List Fields)
  unfolding kept strip
  load_line since_turn line =
      if is_nil (strip line) then some [] else kept since_turn (loads (strip line))

  -- `none` where a line is no JSON.
  unfoldable pub load_lines : (since_turn : ℕ) → List Text → Option (List Fields)
  unfolding load_line
  load_lines since_turn [] = some []
  load_lines since_turn (line ∷ lines) =
      bind (load_line since_turn line)
        λ first. bind (load_lines since_turn lines) λ more. some (first ++ more)

  module _ (index : Table) (read_text : Text → Option Text) where
    -- The text of a session's file, `none` where the session or its file is not there.
    unfoldable pub session_text : Text → Option Text
    unfolding get_session
    session_text id = bind (get_session id index) λ r. read_text r.jsonl_relpath

    unfoldable pub load_session_records : Text → (since_turn : ℕ) → List Fields
    unfolding session_text load_lines splitlines
    load_session_records id since_turn =
        get_or (bind (session_text id) λ text. load_lines since_turn (splitlines text)) []
