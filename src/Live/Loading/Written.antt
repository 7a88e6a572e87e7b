-- ===== src/Live/Loading/Written.antt =====
-- claude_tap/live.py and claude_tap/trace.py: the records that the writer has written are loaded again.
use claude_tap.Base.{
  ℕ, arith, zero, suc, ltb, get_or, ◌==◌, ◌||◌, none, Text, Bool, true, false, Option, some, List,
  [], ◌∷◌, ◌++◌, ◌≡◌, refl, ap, if◌then◌else◌, is_nil, strip, keep, All,
}
use claude_tap.Json.{ℤ, pos, negsuc, Json, null, get, obj, Fields}
use claude_tap.Session.Index.{Table, Row, get_session}
use claude_tap.Live.Loading.{
  is_line_end, splitlines, is_newer, int_of, after, load_line, load_lines, session_text,
  load_session_records,
}

-- The file after the writes of `trace.py`: a line for each record.
unfoldable pub written_text : (dumps : Fields → Text) → List Fields → Text
written_text dumps [] = []
written_text dumps (r ∷ records) = dumps r ++ (10 ∷ written_text dumps records)

-- A record's text is a line, and is parsed to the record.
pub record IsDumped (loads : Text → Option Json) (dumps : Fields → Text) (r : Fields) : Type 0 where
  pub one_line : All (λ c. is_line_end c ≡ false) (dumps r)
  pub trimmed : strip (dumps r) ≡ dumps r
  pub given : is_nil (dumps r) ≡ false
  pub parsed : loads (dumps r) ≡ some (obj r)

splitlines-line :
    (t rest : Text)
    → All (λ c. is_line_end c ≡ false) t
    → splitlines (t ++ (10 ∷ rest)) ≡ t ∷ splitlines rest
unfolding splitlines is_line_end
splitlines-line [] rest h = refl
splitlines-line (c ∷ t) rest h = rw (h.0, splitlines-line t rest h.1) refl

-- What a query for the turns after `since_turn` asks for: 0 asks for everything, and otherwise the record
-- has a turn that is read as a number, and a greater one.
abbrev pub is_after : (since_turn : ℕ) → Option ℤ → Bool
is_after zero turn = true
is_after (suc k) (some (pos n)) = ltb (suc k) n
is_after (suc k) _ = false

abbrev pub asked_for : (Text → Option Json) → (Text → Option ℤ) → (since_turn : ℕ) → Fields → Bool
unfolding int_of get
asked_for loads to_int since_turn r =
    is_after since_turn (int_of loads to_int (get_or (get "turn" r) null))

module _ (loads : Text → Option Json) (to_int : Text → Option ℤ) (dumps : Fields → Text) where
  load_line-dumps :
      (since_turn : ℕ) (r : Fields)
      → IsDumped loads dumps r
      → load_line loads to_int since_turn (dumps r)
        ≡ some (if is_newer loads to_int since_turn r then r ∷ [] else [])
  unfolding load_line
  load_line-dumps since_turn r h = rw (h.trimmed, h.given, h.parsed) refl

  if-append :
      (b : Bool) (r : Fields) (records : List Fields)
      → (if b then r ∷ [] else []) ++ records ≡ (if b then r ∷ records else records)
  if-append true r records = refl
  if-append false r records = refl

  load_lines-written_text :
      (since_turn : ℕ) (records : List Fields)
      → All (IsDumped loads dumps) records
      → load_lines loads to_int since_turn (splitlines (written_text dumps records))
        ≡ some (keep (is_newer loads to_int since_turn) records)
  unfolding load_lines written_text keep splitlines
  load_lines-written_text since_turn [] h = refl
  load_lines-written_text since_turn (r ∷ records) h =
      rw
        (
          splitlines-line (dumps r) (written_text dumps records) h.0.one_line,
          load_lines,
          load_line-dumps since_turn r h.0,
          load_lines-written_text since_turn records h.1,
        )
        (ap some (
          if-append (is_newer loads to_int since_turn r) r
            (keep (is_newer loads to_int since_turn) records)))

  is_newer-asked_for :
      (since_turn : ℕ) (r : Fields)
      → is_newer loads to_int since_turn r ≡ asked_for loads to_int since_turn r
  unfolding is_newer
  is_newer-asked_for zero r = refl
  is_newer-asked_for (suc k) r =
      elim (int_of loads to_int (get_or (get "turn" r) null))
        as (λ o. (suc k == 0 || after loads to_int (suc k) o) ≡ is_after (suc k) o) [
          | none ↦ ground arith
          | some (pos n) ↦ ground arith
          | some (negsuc n) ↦ ground arith
        ]

  keep-asked_for :
      (since_turn : ℕ) (records : List Fields)
      → keep (is_newer loads to_int since_turn) records
        ≡ keep (asked_for loads to_int since_turn) records
  unfolding keep
  keep-asked_for since_turn [] = refl
  keep-asked_for since_turn (r ∷ records) =
      rw (is_newer-asked_for since_turn r, keep-asked_for since_turn records) refl

  -- Of a session whose file holds the lines of records, each of them one line by `splitlines` too, the
  -- records are loaded in their order: all of them where the turn given is 0, and otherwise those whose
  -- turn is read as a number greater than the one given.
  pub load_session_records-written_text :
      (index : Table) (read_text : Text → Option Text) (id : Text) (row : Row) (since_turn : ℕ)
      (records : List Fields)
      → get_session id index ≡ some row
      → read_text row.jsonl_relpath ≡ some (written_text dumps records)
      → All (IsDumped loads dumps) records
      → load_session_records loads to_int index read_text id since_turn
        ≡ keep (asked_for loads to_int since_turn) records
  unfolding load_session_records session_text
  load_session_records-written_text index read_text id row since_turn records hr ht h =
      rw (hr, ht, load_lines-written_text since_turn records h) (keep-asked_for since_turn records)
