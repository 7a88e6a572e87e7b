-- ===== src/Cursor/Records.antt =====
-- claude_tap/cursor_transcript.py: the records of a transcript, and their import by the dispatcher. A
-- transcript is its name and its text, and transcripts come in the order of modification.
-- `request_ids` gives an id to each record.
use claude_tap.Base.{
  ℕ, ◌+◌, ◌-◌, Text, Bool, true, false, Option, none, some, List, [], ◌∷◌, ◌++◌, map, codes,
  if◌then◌else◌, decimal,
}
use claude_tap.Json.{Json, num, pos, str, arr, obj, nil, cons, Fields, end, field, of_list}
use claude_tap.Session.Index.{Clock}
use claude_tap.Session.Dispatcher.{Dispatcher, write_record}
use claude_tap.Cursor.Transcript.{
  Block, text_block, tool_block, CursorStep, load_transcript, assistant_steps,
}

abbrev tool_id : (turn_index index : ℕ) → Text
unfolding decimal
tool_id turn_index index = codes "cursor_tool_" ++ decimal turn_index ++ b'_' ∷ decimal index

abbrev with_id : Text → Block → Block
with_id id (tool_block name input none) = tool_block name input (some id)
with_id id (tool_block name input (some [])) = tool_block name input (some id)
with_id id block = block

-- The blocks are numbered from 1.
unfoldable pub normalize_from : (turn_index index : ℕ) → List Block → List Block
unfolding tool_id
normalize_from turn_index index [] = []
normalize_from turn_index index (b ∷ blocks) =
    with_id (tool_id turn_index index) b ∷ normalize_from turn_index (index + 1) blocks

unfoldable pub normalize_assistant_blocks : (turn_index : ℕ) → List Block → List Block
unfolding normalize_from
normalize_assistant_blocks turn_index blocks = normalize_from turn_index 1 blocks

abbrev pub block_json : Block → Json
block_json (text_block s) = obj (field "type" (str (codes "text")) (field "text" (str s) end))
block_json (tool_block name input none) = obj (
    field "type" (str (codes "tool_use")) (field "name" (str name) (field "input" (obj input) end)))
block_json (tool_block name input (some id)) = obj (
    field "type" (str (codes "tool_use"))
      (field "name" (str name) (field "input" (obj input) (field "id" (str id) end))))

-- The path of a record.
unfoldable pub step_path : (session_id : Text) → CursorStep → Text
unfolding decimal
step_path session_id s =
    codes "/cursor/transcript/"
    ++ session_id
    ++ codes "/turn/"
    ++ decimal s.cursor_turn
    ++ codes "/step/"
    ++ decimal s.cursor_step

abbrev message_json : Text → Json
message_json text = obj (field "role" (str (codes "user")) (field "content" (str text) end))

abbrev step_request : (session_id : Text) → CursorStep → Fields
unfolding step_path
step_request session_id s = field "method" (str (codes "CURSOR_TRANSCRIPT")) (
    field "path" (str (step_path session_id s)) (
      field "headers" (obj end) (
        field "body"
          (obj (
            field "model" (str (codes "cursor-auto")) (
              field "cursor_turn" (num (pos s.cursor_turn)) (
                field "cursor_step" (num (pos s.cursor_step))
                  (field "messages" (arr (cons (message_json s.user_text) nil)) end)))))
          end)))

abbrev step_response : (session_id : Text) → List Block → Fields
unfolding of_list
step_response session_id blocks = field "status" (num (pos 200)) (
    field "headers" (obj end) (
      field "body"
        (obj (
          field "id" (str session_id) (
            field "type" (str (codes "message")) (
              field "role" (str (codes "assistant"))
                (field "content" (arr (of_list (map block_json blocks))) end)))))
        end))

module _ (timestamp : Text) (request_ids : ℕ → Text) where
  unfoldable pub step_record : (session_id : Text) → (start_turn index : ℕ) → CursorStep → Fields
  unfolding step_request step_response normalize_assistant_blocks
  step_record session_id start_turn index s = field "timestamp" (str timestamp) (
      field "request_id" (str (codes "cursor_transcript_" ++ request_ids index)) (
        field "turn" (num (pos (start_turn + index - 1))) (
          field "duration_ms" (num (pos 0)) (
            field "transport" (str (codes "cursor-transcript")) (
              field "request" (obj (step_request session_id s)) (
                field "response"
                  (obj (step_response session_id (normalize_assistant_blocks index s.blocks)))
                  end))))))

  unfoldable pub records_from :
      (session_id : Text) → (start_turn index : ℕ) → List CursorStep → List Fields
  unfolding step_record
  records_from session_id start_turn index [] = []
  records_from session_id start_turn index (s ∷ steps) =
      step_record session_id start_turn index s
      ∷ records_from session_id start_turn (index + 1) steps

  unfoldable pub build_cursor_transcript_records :
      (loads : Text → Option Json) → (session_id text : Text) → (start_turn : ℕ) → List Fields
  unfolding records_from assistant_steps load_transcript
  build_cursor_transcript_records loads session_id text start_turn =
      records_from session_id start_turn 1 (assistant_steps (load_transcript loads text))

  module _ (sha256 : Text → Text) (on_disk : Text → List Json) (c : Clock) where
    -- The writes of one transcript: how many returned, and the dispatcher; false where one raised.
    unfoldable pub write_all : Text → List Fields → Dispatcher → Bool × ℕ × Dispatcher
    unfolding write_record
    write_all raw [] d = (true, 0, d)
    write_all raw (r ∷ records) d =
        let (returned, e) = write_record sha256 on_disk c raw r d in
        let (rest, imported, f) = write_all raw records e in
        if returned then (rest, imported + 1, f) else (false, 0, e)

    -- The transcripts are their names and texts; a raise ends the import.
    unfoldable pub import_cursor_transcripts :
        (loads : Text → Option Json) → List (Text × Text) → Dispatcher → Bool × ℕ × Dispatcher
    unfolding write_all build_cursor_transcript_records
    import_cursor_transcripts loads [] d = (true, 0, d)
    import_cursor_transcripts loads ((stem, text) ∷ transcripts) d =
        let records = build_cursor_transcript_records loads stem text 1 in
        let (returned, imported, e) = write_all (codes "cursor:" ++ stem) records d in
        let (rest, later, f) = import_cursor_transcripts loads transcripts e in
        if returned then (rest, imported + later, f) else (false, imported, e)
