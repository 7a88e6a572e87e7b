-- ===== src/Sse/Sharing.antt =====
-- claude_tap/sse.py: `message_delta` puts the values of the event's delta into the snapshot without a
-- copy, so that what changes them there changes the recorded event. `Shared` has, for a key of the
-- snapshot, the number of the event in whose delta the same object stands.
use text.Mathlib.Text.{◌==◌ as str_eq}
use claude_tap.Base.{ℕ, zero, suc, Text, String, not, Option, none, some, List, [], ◌∷◌, keep}
use claude_tap.Json.{Json, obj, Fields, end, field, get, set}

pub record Event : Type 0 where
  pub name : Text
  pub payload : Json

abbrev pub Shared : Type 0
Shared = List (String × ℕ)

-- The key is given another object.
unfoldable pub unshare : String → Shared → Shared
unfolding keep
unshare k shared = keep (λ e. not (str_eq e.0 k)) shared

-- The loop of `message_delta` over the items of the delta of event `i`.
unfoldable pub share_items : Fields → (i : ℕ) → Shared → Shared
unfolding unshare
share_items end i shared = shared
share_items (field k v fs) i shared = (k, i) ∷ share_items fs i (unshare k shared)

unfoldable pub with_delta : String → Json → Json → Json
unfolding get set
with_delta k v (obj event) = elim (get "delta" event) [
  | some (obj delta) ↦ obj (set "delta" (obj (set k v delta)) event)
  | _ ↦ obj event
]
with_delta k v payload = payload

unfoldable pub with_value : String → Option Json → Event → Event
unfolding with_delta
with_value k none e = e
with_value k (some v) e = record e { payload = with_delta k v e.payload }

unfoldable pub alter : ℕ → (Event → Event) → List Event → List Event
alter i f [] = []
alter zero f (e ∷ events) = f e ∷ events
alter (suc i) f (e ∷ events) = e ∷ alter i f events

-- The events as they are once the snapshot has changed.
unfoldable pub seen_through : (snapshot : Json) → Shared → List Event → List Event
unfolding alter with_value get
seen_through (obj snap) [] events = events
seen_through (obj snap) ((k, i) ∷ shared) events =
    seen_through (obj snap) shared (alter i (with_value k (get k snap)) events)
seen_through snap shared events = events
