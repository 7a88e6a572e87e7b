-- ===== src/Sse/Kept.antt =====
-- claude_tap/sse.py: what `add_event` keeps is kept by the whole stream; the events that stay as they were
-- recorded.
use claude_tap.Base.{
  ℕ, zero, suc, Text, false, not, ◌&&◌, ◌||◌, Option, some, List, [], ◌∷◌, ◌++◌, ◌≡◌, inl, inr,
  codes, length, if_ind, is_some, is_nil, Option-cases, drop_prefix, split_first, rstrip_char, join,
  text_eq,
}
use claude_tap.Json.{Json}
use claude_tap.Sse.Sharing.{Event, Shared}
use claude_tap.Sse.{
  Parser, Reassembler, is_name, fresh, add_event, end_frame, event_type, parsed, reset, data_line,
  stripped_line, feed_line, drain, feed_bytes, feed_all,
}
use claude_tap.Sse.Recorded.{AllDeltas, event_at, add_event-AllDeltas, event_at-add_event}

module _ (loads : Text → Option Json) (P : List Event → Shared → Type 0)
    (kept : (name : Text) (payload : Json) (p : Parser)
      → P p.events p.shared
      → P (add_event loads name payload p).events (add_event loads name payload p).shared) where
  abbrev Holds : Parser → Type 0
  Holds p = P p.events p.shared

  end_frame-Holds : (p : Parser) → Holds p → Holds (end_frame loads p)
  unfolding end_frame
  end_frame-Holds p h =
      let raw : Text = join (codes "\n") p.data_lines in
      let added : Parser = add_event loads (event_type p.current_event) (parsed loads raw) p in
      if_ind Holds (is_some p.current_event || not (is_nil p.data_lines)) _ p
        (λ _.
          if_ind Holds (text_eq raw (codes "[DONE]") && not (is_some p.current_event)) (reset p)
            (reset added) (λ _. h) (λ _. kept (event_type p.current_event) (parsed loads raw) p h))
        (λ _. h)

  data_line-Holds : (line : Text) (p : Parser) → Holds p → Holds (data_line loads line p)
  unfolding data_line
  data_line-Holds line p h = elim (Option-cases (drop_prefix (codes "data:") line)) [
    | inl e ↦ rw e (if_ind Holds (is_nil line) _ p (λ _. end_frame-Holds p h) (λ _. h))
    | inr (rest, e) ↦ rw e h
  ]

  stripped_line-Holds : (line : Text) (p : Parser) → Holds p → Holds (stripped_line loads line p)
  unfolding stripped_line
  stripped_line-Holds line p h = elim (Option-cases (drop_prefix (codes "event:") line)) [
    | inl e ↦ rw e (data_line-Holds line p h)
    | inr (rest, e) ↦ rw e h
  ]

  feed_line-Holds : (line : Text) (p : Parser) → Holds p → Holds (feed_line loads line p)
  unfolding feed_line
  feed_line-Holds line p h = stripped_line-Holds (rstrip_char b'\r' line) p h

  module _ (decode : List ℕ → Text) where
    drain-Holds :
        (fuel : ℕ) (r : Reassembler) → Holds r.parser → Holds (drain loads decode fuel r).parser
    unfolding drain
    drain-Holds zero r h = h
    drain-Holds (suc fuel) r h = elim (Option-cases (split_first b'\n' r.buf)) [
      | inl e ↦ rw (e, drain) h
      | inr ((line, rest), e) ↦
          rw (e, drain)
            (drain-Holds fuel
              (record { parser = feed_line loads (decode line) r.parser; buf = rest })
              (feed_line-Holds (decode line) r.parser h))
    ]

    feed_all-Holds :
        (chunks : List (List ℕ)) (r : Reassembler)
        → Holds r.parser
        → Holds (feed_all loads decode chunks r).parser
    unfolding feed_all feed_bytes
    feed_all-Holds [] r h = h
    feed_all-Holds (chunk ∷ chunks) r h =
        feed_all-Holds chunks (feed_bytes loads decode chunk r)
          (drain-Holds (length (r.buf ++ chunk)) (record r { buf = r.buf ++ chunk }) h)

module _ (loads : Text → Option Json) (decode : List ℕ → Text) where
  -- The invariant of sharing, and one event that is recorded.
  abbrev HasEvent : ℕ → Event → List Event → Shared → Type 0
  HasEvent j x events shared = AllDeltas events shared × (event_at j events ≡ some x)

  feed_all-AllDeltas :
      (chunks : List (List ℕ))
      → AllDeltas
          (feed_all loads decode chunks fresh).events
          (feed_all loads decode chunks fresh).shared
  feed_all-AllDeltas chunks =
      feed_all-Holds loads AllDeltas (add_event-AllDeltas loads) decode chunks fresh tt

  -- An event that is recorded at some point of a stream, and is no `message_delta`, stands there as it was
  -- recorded whatever the rest of the stream brings, although the snapshot shares objects with events.
  pub event_at-feed_all :
      (chunks more : List (List ℕ)) (j : ℕ) (x : Event)
      → event_at j (feed_all loads decode chunks fresh).events ≡ some x
      → is_name x.name "message_delta" ≡ false
      → event_at j (feed_all loads decode more (feed_all loads decode chunks fresh)).events ≡ some x
  event_at-feed_all chunks more j x h n =
      (feed_all-Holds loads (HasEvent j x)
        (λ name payload p g. (
          add_event-AllDeltas loads name payload p g.0,
          event_at-add_event loads name payload p j x g.0 g.1 n,
        ))
        decode more (feed_all loads decode chunks fresh) (feed_all-AllDeltas chunks, h)).1
