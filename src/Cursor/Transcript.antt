-- ===== src/Cursor/Transcript.antt =====
-- claude_tap/cursor_transcript.py: the messages of a transcript, and the steps of the assistant in them.
-- `loads` is `json.loads`, `none` where it raises.
pub mod Numbering
use claude_tap.Base.{
  ℕ, zero, suc, ◌+◌, ◌-◌, Text, String, Bool, true, false, not, ◌&&◌, ◌||◌, Option, none, some,
  List, [], ◌∷◌, ◌++◌, map, codes, text_eq, if◌then◌else◌, is_nil, bind, get_or, strip, lstrip_by,
  is_space, drop_prefix, join, decimal, length,
}
use claude_tap.Json.{
  Json, null, num, pos, str, arr, obj, Items, nil, cons, Fields, end, field, get, to_list, of_list,
  equals_text,
}
use claude_tap.Live.Loading.{splitlines}

-- A block of a message's content.
pub data Block : Type 0 where
  text_block : Text → Block
  tool_block : (name : Text) → (input : Fields) → (id : Option Text) → Block

pub data Role : Type 0 where
  user assistant : Role

abbrev text_of_field : Option Json → Option Text
text_of_field (some (str s)) = some s
text_of_field _ = none

abbrev name_of : Option Json → Text
name_of (some (str (c ∷ s))) = c ∷ s
name_of _ = codes "Tool"

abbrev input_of : Option Json → Fields
input_of (some (obj input)) = input
input_of _ = end

abbrev id_of : Option Json → Option Text
id_of (some (str (c ∷ s))) = some (c ∷ s)
id_of _ = none

abbrev text_blocks : Option Text → List Block
text_blocks none = []
text_blocks (some text) = text_block text ∷ []

unfoldable pub block_of : Json → List Block
unfolding get
block_of (obj item) =
    let type = get_or (get "type" item) null in
    if equals_text type "text"
    then text_blocks (text_of_field (get "text" item))
    else if equals_text type "tool_use"
    then tool_block (name_of (get "name" item)) (input_of (get "input" item))
        (id_of (get "id" item))
      ∷ []
    else []
block_of _ = []

unfoldable pub blocks_of : List Json → List Block
unfolding block_of
blocks_of [] = []
blocks_of (item ∷ items) = block_of item ++ blocks_of items

abbrev content_of : Option Json → List Json
unfolding to_list
content_of (some (arr items)) = to_list items
content_of _ = []

unfoldable pub extract_content_blocks : Option Json → List Block
unfolding blocks_of content_of get
extract_content_blocks (some (obj message)) = blocks_of (content_of (get "content" message))
extract_content_blocks _ = []

unfoldable pub texts_of : List Block → List Text
texts_of [] = []
texts_of (text_block s ∷ blocks) = s ∷ texts_of blocks
texts_of (tool_block name input id ∷ blocks) = texts_of blocks

unfoldable pub text_from_blocks : List Block → Text
unfolding texts_of join strip
text_from_blocks blocks = strip (join (codes "\n") (texts_of blocks))

-- The parts before and after the first occurrence of a text.
unfoldable pub split_part : Text → Text → Option (Text × Text)
unfolding drop_prefix
split_part part [] = none
split_part part (c ∷ s) = elim (drop_prefix part (c ∷ s)) [
  | some rest ↦ some ([], rest)
  | none ↦ elim (split_part part s) [ none ↦ none | some (l, r) ↦ some (c ∷ l, r) ]
]

-- `re.sub(r"<timestamp>.*?</timestamp>\s*", "", text)`; each round takes a match away.
unfoldable pub without_timestamps : (rounds : ℕ) → Text → Text
unfolding split_part lstrip_by is_space
without_timestamps zero text = text
without_timestamps (suc rounds) text = elim (split_part (codes "<timestamp>") text) [
  | none ↦ text
  | some (before, inside) ↦ elim (split_part (codes "</timestamp>") inside) [
    | none ↦ text
    | some (stamp, after) ↦ before ++ without_timestamps rounds (lstrip_by is_space after)
  ]
]

-- What stands in `<user_query>`, if that is closed.
unfoldable pub user_query : Text → Option Text
unfolding split_part
user_query text = bind (split_part (codes "<user_query>") text) λ (before, inside).
    bind (split_part (codes "</user_query>") inside) λ (query, after). some query

unfoldable pub strip_cursor_wrappers : Text → Text
unfolding user_query strip without_timestamps
strip_cursor_wrappers text =
    strip (get_or (user_query text) (without_timestamps (length text) text))

pub data Message : Type 0 where
  message : Role → List Block → Message

abbrev role_of : Option Json → Option Role
unfolding text_eq
role_of (some (str s)) =
    if text_eq s (codes "user")
    then some user
    else if text_eq s (codes "assistant")
    then some assistant
    else none
role_of _ = none

unfoldable pub message_of : Role → List Block → List Message
unfolding strip_cursor_wrappers text_from_blocks
message_of role [] = []
message_of assistant (b ∷ blocks) = message assistant (b ∷ blocks) ∷ []
message_of user (b ∷ blocks) =
    let text = strip_cursor_wrappers (text_from_blocks (b ∷ blocks)) in
    message user (if is_nil text then [] else text_block text ∷ []) ∷ []

abbrev messages_of_role : Option Role → List Block → List Message
unfolding message_of
messages_of_role none blocks = []
messages_of_role (some role) blocks = message_of role blocks

abbrev messages_of_value : Option Json → List Message
unfolding messages_of_role role_of extract_content_blocks get
messages_of_value (some (obj record')) =
    messages_of_role (role_of (get "role" record')) (extract_content_blocks (get "message" record'))
messages_of_value _ = []

module _ (loads : Text → Option Json) where
  unfoldable pub messages_of_lines : List Text → List Message
  unfolding messages_of_value strip
  messages_of_lines [] = []
  messages_of_lines (line ∷ lines) =
      let later = messages_of_lines lines in
      if is_nil (strip line) then later else messages_of_value (loads line) ++ later

  unfoldable pub load_transcript : Text → List Message
  unfolding messages_of_lines splitlines
  load_transcript text = messages_of_lines (splitlines text)

-- A message of the assistant with the request that it answers, and its numbers.
pub record CursorStep : Type 0 where
  pub user_text : Text
  pub blocks : List Block
  pub cursor_turn : ℕ
  pub cursor_step : ℕ

abbrev or_empty : List Block → List Block
or_empty [] = text_block [] ∷ []
or_empty (b ∷ blocks) = b ∷ blocks

unfoldable pub steps_from :
    (pending_user : Option Text) → (turn step : ℕ) → List Message → List CursorStep
unfolding text_from_blocks
steps_from pending_user turn step [] = []
steps_from pending_user turn step (message user blocks ∷ messages) =
    steps_from (some (text_from_blocks blocks)) (turn + 1) 0 messages
steps_from none turn step (message assistant blocks ∷ messages) = steps_from none turn step messages
steps_from (some text) turn step (message assistant blocks ∷ messages) =
    (record {
      user_text = text;
      blocks = or_empty blocks;
      cursor_turn = turn;
      cursor_step = step + 1;
    })
    ∷ steps_from (some text) turn (step + 1) messages

unfoldable pub assistant_steps : List Message → List CursorStep
unfolding steps_from
assistant_steps messages = steps_from none 0 0 messages
