-- ===== src/Session/Dispatcher.antt =====
-- claude_tap/session_dispatcher.py: `SessionTraceDispatcher`. A method returns its result, `none`
-- where the index raises, and the dispatcher as it is then. The awaits inside a method are points
-- where another task may run; each step between them is a function of its own here, and a method
-- is their sequence with no other task in between. Telling the live viewer is left out. `sha256`
-- is the hex digest; `on_disk` is what a trace file holds when it is opened.
pub mod Turns
pub mod Slugs
pub mod Totals
pub mod Interleaving
use claude_tap.Base.{
  ℕ, zero, suc, ◌+◌, Text, Bool, true, false, not, Option, none, some, List, [], ◌∷◌, ◌++◌, map,
  if◌then◌else◌, codes, text_eq, get_or, bind, is_some, Dict, lookup, insert, values, take, length,
}
use claude_tap.Json.{Json, ℤ, pos, num, bool, str, obj, Fields, get, set, as_int, ◌+ℤ◌}
use claude_tap.Session.Claw.{sanitize_filename_suffix}
use claude_tap.Session.Index.{Table, Clock, get_last_turn, upsert_session_row, record_write}
use claude_tap.Session.Trace.{
  Writer, Outcome, done, raised, writer_of, new_writer, write, release_fd, is_idle, add_model,
}

pub record Dispatcher : Type 0 where
  pub index : Table
  pub writer_idle_seconds : ℕ
  pub writers : Dict Writer
  pub raw_to_slug : Dict Text
  pub slug_to_raw : Dict Text
  pub turns : Dict ℕ

-- `jsonl_relpath_for_slug`
abbrev pub jsonl_relpath_for_slug : Text → Text
jsonl_relpath_for_slug slug = codes "sessions/" ++ (slug ++ codes "/trace.jsonl")

-- A slug that is recorded on both maps.
abbrev pub register : Text → Text → Dispatcher → Dispatcher
register raw slug d = record d {
  raw_to_slug = insert raw slug d.raw_to_slug;
  slug_to_raw = insert slug raw d.slug_to_raw;
}

abbrev pub upsert_row : Clock → Text → Text → Dispatcher → Option Table
upsert_row c raw slug d = upsert_session_row c raw slug (jsonl_relpath_for_slug slug) d.index

-- What follows an upsert; an IntegrityError leaves the dispatcher as it was before.
abbrev pub with_table {ℓ} :
    {A : Type ℓ}
    → Option Table
    → Dispatcher
    → (Dispatcher → Option A × Dispatcher)
    → Option A × Dispatcher
with_table none d k = (none, d)
with_table (some t) d k = k (record d { index = t })

-- Under the lock: the next turn of the slug, which starts from the index.
unfoldable pub next_turn : Text → Text → Dispatcher → ℕ
unfolding get_last_turn lookup
next_turn raw slug d = get_or (lookup slug d.turns) (get_last_turn raw d.index) + 1

abbrev pub turn_taken : Clock → Text → Text → ℕ → Dispatcher → Dispatcher
turn_taken c raw slug turn d = record d {
  turns = insert slug turn d.turns;
  index = record_write c raw turn d.index;
}

abbrev pub take_turn : Clock → Text → Text → Dispatcher → Option ℕ × Dispatcher
take_turn c raw slug d =
    let turn = next_turn raw slug d in (some turn, turn_taken c raw slug turn d)

-- `_reclaim_idle_writers`: a limit of 0 turns it off.
abbrev pub release_idle : (now limit : ℕ) → Dict Writer → Dict Writer
release_idle now zero ws = ws
release_idle now (suc n) ws =
    map (λ e. (e.0, if is_idle now (suc n) e.1 then release_fd e.1 else e.1)) ws

unfoldable pub reclaim : ℕ → Dispatcher → Dispatcher
reclaim now d = record d { writers = release_idle now d.writer_idle_seconds d.writers }

module _ (sha256 : Text → Text) where
  -- The slug that `_make_unique_slug` tries if the short one belongs to another session.
  abbrev pub long_slug : Text → Text → Text
  long_slug base raw = base ++ (b'_' ∷ take 8 (sha256 raw))

  abbrev pub slug_unless_owned : (base raw : Text) → Option Text → Text
  slug_unless_owned base raw none = base
  slug_unless_owned base raw (some owner) = if text_eq owner raw then base else long_slug base raw

  unfoldable pub make_unique_slug : Text → Dispatcher → Text
  unfolding sanitize_filename_suffix lookup
  make_unique_slug raw d =
      let base = sanitize_filename_suffix sha256 raw in
      slug_unless_owned base raw (lookup base d.slug_to_raw)

  abbrev pub slug_found : Option Text → Text → Dispatcher → Text × Dispatcher
  slug_found (some slug) raw d = (slug, d)
  slug_found none raw d = let slug = make_unique_slug raw d in (slug, register raw slug d)

  unfoldable pub slug_for : Text → Dispatcher → Text × Dispatcher
  unfolding make_unique_slug lookup
  slug_for raw d = slug_found (lookup raw d.raw_to_slug) raw d

  unfoldable pub alloc_turn : Clock → Text → Dispatcher → Option ℕ × Dispatcher
  unfolding slug_for next_turn upsert_session_row record_write
  alloc_turn c raw d =
      let (slug, d') = slug_for raw d in
      with_table (upsert_row c raw slug d') d' (take_turn c raw slug)

  module _ (on_disk : Text → List Json) where
    abbrev pub add_writer : Clock → Text → Dispatcher → Option Writer × Dispatcher
    add_writer c slug d =
        let path = jsonl_relpath_for_slug slug in
        let w = new_writer path (on_disk path) c.now in
        (some w, record d { writers = insert slug w d.writers })

    abbrev pub writer_found :
        Clock → (raw slug : Text) → Option Writer → Dispatcher → Option Writer × Dispatcher
    writer_found c raw slug (some w) d = (some w, d)
    writer_found c raw slug none d = with_table (upsert_row c raw slug d) d (add_writer c slug)

    unfoldable pub ensure_writer : Clock → Text → Dispatcher → Option Writer × Dispatcher
    unfolding slug_for reclaim lookup upsert_session_row
    ensure_writer c raw d =
        let (slug, d₀) = slug_for raw d in
        let d' = reclaim c.now d₀ in writer_found c raw slug (lookup slug d'.writers) d'

    -- `int(turn)`, 0 where it fails; texts that are numbers are read as 0 here.
    unfoldable pub turn_of : Fields → ℕ
    unfolding get as_int
    turn_of rec = elim (as_int (get_or (get "turn" rec) (num (pos 0)))) [ some (pos n) ↦ n | _ ↦ 0 ]

    -- The record is written by the session's writer, and then the turn is noted in the index; where
    -- the statistics raise, the turn is not noted.
    unfoldable pub finish_write :
        Clock → Text → Text → Fields → Outcome → Dispatcher → Bool × Dispatcher
    unfolding turn_of record_write
    finish_write c raw slug rec (done w) d = (
      true,
      record d {
        writers = insert slug w d.writers;
        index = record_write c raw (turn_of rec) d.index;
      },
    )
    finish_write c raw slug rec (raised w) d =
        (false, record d { writers = insert slug w d.writers })

    unfoldable pub write_with :
        Clock → Text → Fields → Option Writer → Dispatcher → Bool × Dispatcher
    unfolding slug_for finish_write
    write_with c raw rec none d = (false, d)
    write_with c raw rec (some w) d =
        finish_write c raw (slug_for raw d).0 rec (write c.now rec w) d

    -- False where it raises.
    unfoldable pub write_record : Clock → Text → Fields → Dispatcher → Bool × Dispatcher
    unfolding ensure_writer write_with set
    write_record c raw rec d =
        let tagged = set "claw_session_id" (str raw) rec in
        let (w, d') = ensure_writer c raw d in write_with c raw tagged w d'

-- `sum(w.count for w in self._writers.values())`
unfoldable pub total_count : Dict Writer → ℕ
total_count [] = 0
total_count ((slug, w) ∷ ws) = w.count + total_count ws

abbrev pub total_record_count : Dispatcher → ℕ
total_record_count d = total_count d.writers

pub record Summary : Type 0 where
  pub api_calls : ℕ
  pub input_tokens : ℤ
  pub output_tokens : ℤ
  pub cache_read_tokens : ℤ
  pub cache_create_tokens : ℤ
  pub models_used : List (Json × ℕ)

-- The loop over a writer's models.
unfoldable pub merge_models : List (Json × ℕ) → List (Json × ℕ) → List (Json × ℕ)
unfolding add_model
merge_models [] used = used
merge_models ((m, c) ∷ ms) used = merge_models ms (add_model m c used)

unfoldable pub add_summary : Writer → Summary → Summary
unfolding ◌+ℤ◌ merge_models
add_summary w s = record {
  api_calls = s.api_calls + w.count;
  input_tokens = ◌+ℤ◌ s.input_tokens w.total_input_tokens;
  output_tokens = ◌+ℤ◌ s.output_tokens w.total_output_tokens;
  cache_read_tokens = ◌+ℤ◌ s.cache_read_tokens w.total_cache_read_tokens;
  cache_create_tokens = ◌+ℤ◌ s.cache_create_tokens w.total_cache_create_tokens;
  models_used = merge_models w.models_used s.models_used;
}

unfoldable pub summary_from : Dict Writer → Summary → Summary
unfolding add_summary
summary_from [] s = s
summary_from ((slug, w) ∷ ws) s = summary_from ws (add_summary w s)

unfoldable pub get_summary : Dispatcher → Summary
unfolding summary_from
get_summary d = summary_from d.writers (record {
  api_calls = 0;
  input_tokens = pos 0;
  output_tokens = pos 0;
  cache_read_tokens = pos 0;
  cache_create_tokens = pos 0;
  models_used = [];
})
