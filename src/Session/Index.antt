-- ===== src/Session/Index.antt =====
-- claude_tap/session_index.py: the table `sessions` as the list of its rows in the order of their
-- insertion. Times are numbers, ordered like the UTC timestamps that the source writes, and dates
-- are numbers. Each operation is one transaction under the lock. An INSERT that breaks the
-- uniqueness of `storage_slug` raises, which is `none`. The files that `delete_oldest_sessions`
-- removes, and a connection that is closed, are not modelled.
pub mod Rows
pub mod LastTurn
pub mod Sorting
pub mod Trimming
use Prim.Native.Nat.{max}
use claude_tap.Base.{
  ℕ, zero, suc, Text, Bool, true, false, Option, none, some, List, [], ◌∷◌, ◌++◌, map,
  if◌then◌else◌, text_eq, codes, length, take, drop, leb, ltb, get_or, is_some, keep, not, any,
  bind,
}

-- `SessionRow`
pub record Row : Type 0 where
  pub claw_session_id : Text
  pub storage_slug : Text
  pub jsonl_relpath : Text
  pub created_at : ℕ
  pub updated_at : ℕ
  pub first_calendar_date : Option ℕ
  pub last_calendar_date : Option ℕ
  pub last_turn : ℕ

abbrev pub Table : Type 0
Table = List Row

abbrev pub has_id : Text → Row → Bool
has_id id r = text_eq r.claw_session_id id

-- `SELECT * FROM sessions WHERE claw_session_id = ?`, `fetchone`.
unfoldable pub get_session : Text → Table → Option Row
get_session id [] = none
get_session id (r ∷ t) = if has_id id r then some r else get_session id t

-- `UPDATE sessions SET ... WHERE claw_session_id = ?`.
unfoldable pub update_where : Text → (Row → Row) → Table → Table
update_where id f [] = []
update_where id f (r ∷ t) = (if has_id id r then f r else r) ∷ update_where id f t

unfoldable pub has_slug : Text → Table → Bool
unfolding any
has_slug slug = any (λ r. text_eq r.storage_slug slug)

abbrev pub last_turn_of : Option Row → ℕ
last_turn_of none = 0
last_turn_of (some r) = r.last_turn

unfoldable pub get_last_turn : Text → Table → ℕ
unfolding get_session
get_last_turn id t = last_turn_of (get_session id t)

-- The clock, read by the operations that stamp a row.
pub record Clock : Type 0 where
  pub now : ℕ
  pub cal : ℕ

abbrev pub new_row : Clock → (id slug relpath : Text) → Row
new_row c id slug relpath = record {
  claw_session_id = id;
  storage_slug = slug;
  jsonl_relpath = relpath;
  created_at = c.now;
  updated_at = c.now;
  first_calendar_date = some c.cal;
  last_calendar_date = some c.cal;
  last_turn = 0;
}

-- INSERT ... ON CONFLICT(claw_session_id) DO UPDATE SET updated_at = excluded.updated_at
unfoldable pub upsert_session_row : Clock → (id slug relpath : Text) → Table → Option Table
unfolding get_session update_where has_slug
upsert_session_row c id slug relpath t =
    if is_some (get_session id t)
    then some (update_where id (λ r. record r { updated_at = c.now }) t)
    else if has_slug slug t
    then none
    else some (t ++ new_row c id slug relpath ∷ [])

-- The row after `record_write`; COALESCE keeps a first date that is there.
abbrev pub written : Clock → ℕ → Row → Row
written c new_last r = record r {
  updated_at = c.now;
  last_turn = new_last;
  last_calendar_date = some c.cal;
  first_calendar_date = some (get_or r.first_calendar_date c.cal);
}

unfoldable pub record_write : Clock → Text → ℕ → Table → Table
unfolding get_last_turn update_where
record_write c id turn t = update_where id (written c (max (get_last_turn id t) turn)) t

-- ORDER BY updated_at ASC scans the index on updated_at DESC backwards, so that of the rows of one time
-- those that were inserted later come first.
unfoldable pub insert_by_time : Row → Table → Table
insert_by_time r [] = r ∷ []
insert_by_time r (s ∷ t) =
    if ltb r.updated_at s.updated_at then r ∷ s ∷ t else s ∷ insert_by_time r t

unfoldable pub oldest_first : Table → Table
unfolding insert_by_time
oldest_first [] = []
oldest_first (r ∷ t) = insert_by_time r (oldest_first t)

unfoldable pub insert_newest : Row → Table → Table
insert_newest r [] = r ∷ []
insert_newest r (s ∷ t) = if leb s.updated_at r.updated_at then r ∷ s ∷ t else s ∷ insert_newest r t

unfoldable pub newest_first : Table → Table
unfolding insert_newest
newest_first [] = []
newest_first (r ∷ t) = insert_newest r (newest_first t)

abbrev pub session_count : Table → ℕ
session_count = length

-- The rows of one page, and the number of all rows.
unfoldable pub list_sessions : (limit offset : ℕ) → Table → Table × ℕ
unfolding newest_first
list_sessions limit offset t = (take limit (drop offset (newest_first t)), session_count t)

-- DELETE FROM sessions WHERE claw_session_id = ?
unfoldable pub delete_where : Text → Table → Table
unfolding keep
delete_where id = keep (λ r. not (has_id id r))

unfoldable pub delete_all : Table → Table → Table
unfolding delete_where
delete_all [] t = t
delete_all (r ∷ victims) t = delete_all victims (delete_where r.claw_session_id t)

-- The rows that are left, and the number of those deleted.
unfoldable pub delete_oldest_sessions : ℕ → Table → Table × ℕ
unfolding oldest_first delete_all
delete_oldest_sessions count t =
    let victims = take count (oldest_first t) in (delete_all victims t, length victims)
