-- ===== src/Session/Tests.antt =====
-- claude_tap/session_dispatcher.py, session_index.py, trace.py and claw_session.py: runs of the
-- theorems on two sessions.
use claude_tap.Base.{
  ℕ, ◌+◌, ◌≤◌, Text, Option, some, [], ◌∷◌, ◌≡◌, refl, codes, text_eq, lookup, get_or, Dict, List,
}
use claude_tap.Json.{num, pos, str, obj, Fields, end, field, Json, is_encodable, set}
use claude_tap.Session.Claw.{sanitize_filename_suffix, is_slug_char}
use claude_tap.Session.Claw.Slug.{IsSlug, IsDigest, sanitize-IsSlug}
use claude_tap.Session.Index.{Row, Clock, Table, new_row, get_last_turn, upsert_session_row}
use claude_tap.Session.Index.Rows.{IsTable, upsert-IsTable}
use claude_tap.Session.Trace.{new_writer, write, raised, Writer}
use claude_tap.Session.Trace.Counts.{IsWritten, write-IsWritten}
use claude_tap.Session.Dispatcher.{
  Dispatcher, upsert_row, next_turn, turn_taken, alloc_turn, slug_for, ensure_writer, write_record,
  total_record_count,
}
use claude_tap.Session.Dispatcher.Totals.{total-write_record}
use claude_tap.Session.Dispatcher.Turns.{alloc_turn-next, alloc_turn-Turn}
use claude_tap.Session.Dispatcher.Interleaving.{
  Allocation, at_head, behind, AllocStep, ask, give, start, step, IsFresh, AllocRun-IsFresh,
}
use claude_tap.Session.Dispatcher.Slugs.{IsRouted, slug_for-IsRouted}

abbrev digest : Text → Text
digest s = codes "0123456789abcdef"

digest-IsDigest : IsDigest digest
unfolding is_slug_char
digest-IsDigest = record {
  hex = λ raw. (
    refl,
    (
      refl,
      (
        refl,
        (
          refl,
          (
            refl,
            (
              refl,
              (refl, (refl, (refl, (refl, (refl, (refl, (refl, (refl, (refl, (refl, tt)))))))))),
            ),
          ),
        ),
      ),
    ),
  );
}

abbrev noon : Clock
noon = record { now = 12; cal = 1 }

abbrev later : Clock
later = record { now = 20; cal = 2 }

-- The index has turns of the session `a:b`, whose slug is `a_b`.
abbrev old_row : Row
old_row = record (new_row noon (codes "a:b") (codes "a_b") (codes "sessions/a_b/trace.jsonl")) {
  last_turn = 4;
}

abbrev idle : Dispatcher
idle = record {
  index = old_row ∷ [];
  writer_idle_seconds = 60;
  writers = [];
  raw_to_slug = [];
  slug_to_raw = [];
  turns = [];
}

abbrev after_one : Option ℕ × Dispatcher
unfolding alloc_turn
after_one = alloc_turn digest noon (codes "a:b") idle

first_turn : alloc_turn digest noon (codes "a:b") idle ≡ (some 5, after_one.1)
unfolding alloc_turn text_eq
first_turn = refl

alloc_turn-next_example : (alloc_turn digest later (codes "a:b") after_one.1).0 ≡ some 6
alloc_turn-next_example =
    alloc_turn-next digest noon later (codes "a:b") idle after_one.1 5 first_turn

alloc_turn-Turn_example :
    (5
      ≡ get_or
          (lookup (slug_for digest (codes "a:b") idle).0 idle.turns)
          (get_last_turn (codes "a:b") idle.index)
        + 1)
    × (5 ≤ get_last_turn (codes "a:b") after_one.1.index)
    × (lookup (codes "other") after_one.1.turns ≡ lookup (codes "other") idle.turns)
unfolding slug_for text_eq
alloc_turn-Turn_example =
    alloc_turn-Turn digest noon (codes "a:b") (codes "other") idle after_one.1 5 first_turn refl

empty-IsRouted : IsRouted idle
unfolding lookup
empty-IsRouted = record { at = λ raw slug e. cc; back = λ raw slug e. cc }

slug_for-IsRouted_example : IsRouted (slug_for digest (codes "a/b") idle).1
unfolding lookup
slug_for-IsRouted_example = slug_for-IsRouted digest (codes "a/b") idle empty-IsRouted refl

sanitize-IsSlug_example : IsSlug (sanitize_filename_suffix digest (codes " ../etc/passwd "))
sanitize-IsSlug_example = sanitize-IsSlug digest (codes " ../etc/passwd ") digest-IsDigest

abbrev two_headers : Dict Text
two_headers = (codes "Claw-Session-ID", codes "a:b") ∷ (codes "Accept", codes "*/*") ∷ []

abbrev other_row : Row
other_row = new_row later (codes "c") (codes "c") (codes "sessions/c/trace.jsonl")

one-IsTable : IsTable (old_row ∷ [])
one-IsTable = record { ids = (tt, tt); slugs = (tt, tt) }

upsert-IsTable_example : IsTable (old_row ∷ other_row ∷ [])
unfolding upsert_session_row text_eq
upsert-IsTable_example =
    upsert-IsTable later (codes "c") (codes "c") (codes "sessions/c/trace.jsonl") (old_row ∷ [])
      (old_row ∷ other_row ∷ []) one-IsTable refl

-- A record whose model is counted and whose usage has a token count that is no number.
abbrev small_record : Fields
small_record = field "turn" (num (pos 1)) (
    field "request" (obj (field "body" (obj (field "model" (str (codes "m")) end)) end)) (
      field "response"
        (obj (
          field "body" (obj (field "usage" (obj (field "input_tokens" (str (codes "x")) end)) end))
            end))
        end))

write-IsWritten_example :
    IsWritten small_record
      (new_writer (codes "t") [] 0)
      (write 5 small_record (new_writer (codes "t") [] 0))
write-IsWritten_example = write-IsWritten 5 small_record (new_writer (codes "t") [] 0)

-- A lone surrogate is not written.
lone_surrogate :
    write 5 (field "turn" (str (55296 ∷ [])) end) (new_writer (codes "t") [] 0)
    ≡ raised (new_writer (codes "t") [] 0)
unfolding write
lone_surrogate = refl

abbrev no_records : Text → List Json
no_records path = []

abbrev first_writer : Writer
first_writer = new_writer (codes "sessions/a_b/trace.jsonl") [] 12

total-write_record_example :
    total_record_count (write_record digest no_records noon (codes "a:b") small_record idle).1
    ≡ total_record_count idle + 1
unfolding ensure_writer text_eq is_encodable set
total-write_record_example =
    total-write_record digest no_records noon (codes "a:b") small_record idle first_writer refl

-- A call that waits at the lock while another one asks for the same session.
abbrev one_waits : Allocation
one_waits = record { dispatcher = idle; waiting = (codes "a:b", codes "a_b") ∷ []; given = [] }

abbrev asked_table : Table
unfolding slug_for upsert_session_row
asked_table =
    get_or
      (upsert_row noon (codes "a:b") (slug_for digest (codes "a:b") idle).0
        (slug_for digest (codes "a:b") idle).1)
      []

abbrev asked : Allocation
unfolding slug_for asked_table
asked = record {
  dispatcher = record (slug_for digest (codes "a:b") idle).1 { index = asked_table };
  waiting = (codes "a:b", codes "a_b") ∷ one_waits.waiting;
  given = [];
}

both_wait : AllocStep digest one_waits asked
unfolding slug_for upsert_session_row asked_table asked text_eq
both_wait = ask one_waits noon (codes "a:b") asked_table refl

abbrev served : List (Text × Text) → Allocation → Allocation
unfolding next_turn
served rest s =
    let turn = next_turn (codes "a:b") (codes "a_b") s.dispatcher in
    record {
      dispatcher = turn_taken noon (codes "a:b") (codes "a_b") turn s.dispatcher;
      waiting = rest;
      given = (codes "a_b", turn) ∷ s.given;
    }

AllocRun-IsFresh_example :
    IsFresh (served [] (served ((codes "a:b", codes "a_b") ∷ []) asked)).given
unfolding served asked
AllocRun-IsFresh_example =
    AllocRun-IsFresh digest one_waits (served [] (served ((codes "a:b", codes "a_b") ∷ []) asked))
      refl
      (step
        (step (step start both_wait) (
          give asked noon (codes "a:b") (codes "a_b") ((codes "a:b", codes "a_b") ∷ [])
            (behind (at_head []))))
        (give (served ((codes "a:b", codes "a_b") ∷ []) asked) noon (codes "a:b") (codes "a_b") []
          (at_head [])))
