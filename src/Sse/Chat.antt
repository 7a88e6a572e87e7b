-- ===== src/Sse/Chat.antt =====
-- claude_tap/sse.py: `_accumulate_chat_completion_chunk`, put together from its steps.
mod Steps
mod Tools
use text.Mathlib.Text.{◌==◌ as str_eq}
use claude_tap.Base.{
  ℕ, zero, suc, ◌∷◌, List, [], Text, String, Bool, true, false, not, ◌&&◌, ◌||◌, Option, none, some,
  if◌then◌else◌, get_or, is_some, bind, codes,
}
use claude_tap.Json.{
  Json, ℤ, pos, negsuc, null, num, bool, str, arr, obj, Items, nil, cons, Fields, end, field,
  truthy, is_obj, is_str, get, set, has, count, item?, put, as_int, at, set_default, position,
  extend, plus, set_key, ◌+ℤ◌,
}
use claude_tap.Sse.Chat.Steps.{
  Outcome, done, raised, ◌>>=◌, state, or_raise, get_truthy, at_item, at_key, on_message,
  on_text_block, append_to, role_step, content_step, usage_step, usage_only, new_snapshot,
  finish_step, read_message, reachable,
}
use claude_tap.Sse.Chat.Tools.{tools_step}

module _ (loads : Text → Option Json) where
  -- The part after the snapshot is known to exist.
  unfoldable pub apply_delta : Json → Json → Json → Fields → Outcome
  unfolding on_message on_text_block role_step content_step tools_step finish_step
  apply_delta reason usage (obj delta) snap = elim (reachable snap) [
    | false ↦ raised snap
    | true ↦
        role_step delta snap
        >>= content_step delta
        >>= tools_step loads delta
        >>= finish_step reason
        >>= usage_step usage
  ]
  apply_delta reason usage _ snap = raised snap

  -- A chunk with a choice, after the tests on its shape.
  unfoldable pub chunk_body : Json → Json → Json → Fields → Json → Json
  unfolding apply_delta new_snapshot
  chunk_body (obj d) reason usage event null =
      obj (state (apply_delta reason usage (obj d) (new_snapshot event d)))
  chunk_body _ reason usage event null = null
  chunk_body delta reason usage event (obj snap) = obj (state (apply_delta reason usage delta snap))
  chunk_body delta reason usage event snap = snap

  unfoldable pub chat_completion_chunk : Fields → Json → Json
  unfolding chunk_body usage_only get truthy
  chat_completion_chunk event snap =
      let usage = get_or (get "usage" event) null in
      elim (get_truthy "choices" (arr nil) event) [
        | arr (cons first rest) ↦
            let choice : Fields = elim first [ obj c ↦ c | _ ↦ end ] in
            let delta = get_truthy "delta" (obj end) choice in
            let reason = get_or (get "finish_reason" choice) null in
            chunk_body delta reason usage event snap
        | _ ↦ usage_only usage snap
      ]

  abbrev is_done : Outcome → Bool
  is_done (done snap) = true
  is_done (raised snap) = false

  abbrev applied : Json → Json → Json → Json → Bool
  unfolding apply_delta
  applied (obj delta) reason usage (obj snap) = is_done (apply_delta reason usage (obj delta) snap)
  applied delta reason usage snap = false

  -- Whether the chunk gives the snapshot a usage of its own.
  unfoldable pub sets_usage : Fields → Json → Bool
  unfolding applied get truthy
  sets_usage event snap =
      let usage = get_or (get "usage" event) null in
      elim (get_truthy "choices" (arr nil) event) [
        | arr (cons first rest) ↦
            let choice : Fields = elim first [ obj c ↦ c | _ ↦ end ] in
            let delta = get_truthy "delta" (obj end) choice in
            let reason = get_or (get "finish_reason" choice) null in
            is_obj usage && applied delta reason usage snap
        | _ ↦ is_obj usage
      ]
