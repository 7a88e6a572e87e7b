-- ===== src/Live/Buffers/Replay.antt =====
-- claude_tap/live.py: what the buffers hold after a run of records.
use claude_tap.Base.{
  ℕ, zero, suc, ◌+◌, ◌-◌, ◌≤◌, Text, Bool, true, false, Option, none, some, List, [], ◌∷◌, ◌++◌,
  ◌≡◌, refl, ap, sym, subst, ◌∙◌, arith, length, length-append, drop, text_eq, if◌then◌else◌,
  Bool-cases, inl, inr, lookup, lookup-move, text_eq_sound,
}
use mathlib.Core.List.{append-nil, append_assoc}
use claude_tap.Json.{Json, obj, Fields}
use claude_tap.Live.Buffers.{
  Viewer, Live, append_bounded, appended, buffer_append_if_watched, session_of,
  strip_stream_events_keep_counts, pushed, broadcast, sse_replay_max, move_to_end,
}

-- The last `n` of a list.
abbrev pub last_n : ℕ → List Json → List Json
last_n n records = drop (length records - n) records

drop-nil : (j : ℕ) → drop {A = Json} j [] ≡ []
drop-nil zero = refl
drop-nil (suc j) = refl

drop-drop : (j k : ℕ) (xs : List Json) → drop j (drop k xs) ≡ drop (k + j) xs
drop-drop j zero xs = let e : j ≡ 0 + j = omega arith in ap (λ m. drop m xs) e
drop-drop j (suc k) [] = drop-nil j ∙ sym (drop-nil (suc k + j))
drop-drop j (suc k) (x ∷ xs) =
    let e : suc (k + j) ≡ suc k + j = omega arith in drop-drop j k xs ∙ ap (λ m. drop m (x ∷ xs)) e

drop-append : (k : ℕ) (xs ys : List Json) → k ≤ length xs → drop k xs ++ ys ≡ drop k (xs ++ ys)
drop-append zero xs ys h = refl
drop-append (suc k) [] ys h = absurd (omega arith)
drop-append (suc k) (x ∷ xs) ys h = drop-append k xs ys (omega arith)

length-drop : (k : ℕ) (xs : List Json) → length (drop k xs) ≡ length xs - k
length-drop zero xs = omega arith
length-drop (suc k) [] = omega arith
length-drop (suc k) (x ∷ xs) = omega (arith, length-drop k xs)

last_n-append : (n : ℕ) (xs ys : List Json) → last_n n (last_n n xs ++ ys) ≡ last_n n (xs ++ ys)
last_n-append n xs ys =
    let k = length xs - n in
    let dropped : drop k xs ++ ys ≡ drop k (xs ++ ys) = drop-append k xs ys (omega arith) in
    ap (last_n n) dropped
    ∙ (drop-drop (length (drop k (xs ++ ys)) - n) k (xs ++ ys)
        ∙ ap (λ m. drop m (xs ++ ys))
            (omega (arith, length-drop k (xs ++ ys), length-append xs ys)))

length-last_n : (n : ℕ) (xs : List Json) → length (last_n n xs) ≤ n
length-last_n n xs = omega (arith, length-drop (length xs - n) xs)

last_n_all : (n : ℕ) (xs : List Json) → length xs ≤ n → last_n n xs ≡ xs
last_n_all n xs h = let e : length xs - n ≡ 0 = omega arith in ap (λ m. drop m xs) e

-- What a record does to the buffer of `session`, if it has one.
abbrev bumped : Bool → Json → Option (List Json) → Option (List Json)
unfolding append_bounded
bumped b record' none = none
bumped false record' (some records) = some records
bumped true record' (some records) = some (append_bounded sse_replay_max records record')

bumped-false : (record' : Json) (o : Option (List Json)) → bumped false record' o ≡ o
unfolding bumped
bumped-false record' none = refl
bumped-false record' (some records) = refl

same_lookup :
    (other session : Text) (s : Live)
    → text_eq other session ≡ true
    → lookup other s.session_buffers ≡ lookup session s.session_buffers
same_lookup other session s h = ap (λ k. lookup k s.session_buffers) (text_eq_sound other session h)

appended-lookup :
    (other session : Text) (record' : Json) (s : Live) (o : Option (List Json))
    → lookup other s.session_buffers ≡ o
    → lookup session (appended other record' s o).session_buffers
      ≡ bumped (text_eq other session) record' (lookup session s.session_buffers)
unfolding appended bumped move_to_end
appended-lookup other session record' s none e = elim (Bool-cases (text_eq other session)) [
  | inl h ↦ rw (h, sym (same_lookup other session s h), e) refl
  | inr h ↦ rw h (sym (bumped-false record' (lookup session s.session_buffers)))
]
appended-lookup other session record' s (some records) e =
    rw (lookup-move other session (append_bounded sse_replay_max records record') s.session_buffers)
      elim (Bool-cases (text_eq other session)) [
        | inl h ↦ rw (h, sym (same_lookup other session s h), e) refl
        | inr h ↦ rw h (sym (bumped-false record' (lookup session s.session_buffers)))
      ]

abbrev bumped_by : Text → Option Text → Json → Option (List Json) → Option (List Json)
unfolding bumped
bumped_by session none record' o = o
bumped_by session (some other) record' o = bumped (text_eq other session) record' o

pushed-lookup :
    (works : Viewer → Bool) (session : Text) (record' : Json) (o : Option Text) (s : Live)
    → lookup session (pushed works record' o s).1.session_buffers
      ≡ bumped_by session o record' (lookup session s.session_buffers)
unfolding pushed buffer_append_if_watched bumped_by
pushed-lookup works session record' none s = refl
pushed-lookup works session record' (some other) s =
    appended-lookup other session record' s (lookup other s.session_buffers) refl

-- The records of a run that a viewer of `session` sees.
abbrev seen_if : Text → Option Text → Json → List Json → List Json
seen_if session none record' more = more
seen_if session (some other) record' more = if text_eq other session then record' ∷ more else more

module _ (shown : Json → Text) (works : Viewer → Bool) where
  unfoldable pub records_of : Text → List Fields → List Json
  unfolding session_of strip_stream_events_keep_counts
  records_of session [] = []
  records_of session (r ∷ records) =
      let more = records_of session records in
      seen_if session (session_of shown r) (obj (strip_stream_events_keep_counts r)) more

  unfoldable pub broadcast_all : List Fields → Live → Live
  unfolding broadcast
  broadcast_all [] s = s
  broadcast_all (r ∷ records) s = broadcast_all records (broadcast shown works r s).1

-- A buffer, if there is one, with records put to it.
abbrev pub with_records : List Json → Option (List Json) → Option (List Json)
with_records records none = none
with_records records (some buffer) = some (last_n sse_replay_max (buffer ++ records))

abbrev pub IsBounded : Option (List Json) → Type 0
IsBounded none = Unit
IsBounded (some buffer) = length buffer ≤ sse_replay_max

with_records-nil : (o : Option (List Json)) → IsBounded o → o ≡ with_records [] o
with_records-nil none h = refl
with_records-nil (some buffer) h =
    ap some
      (sym (ap (last_n sse_replay_max) (append-nil buffer) ∙ last_n_all sse_replay_max buffer h))

bumped-IsBounded :
    (b : Bool) (record' : Json) (o : Option (List Json))
    → IsBounded o
    → IsBounded (bumped b record' o)
unfolding bumped append_bounded
bumped-IsBounded b record' none h = tt
bumped-IsBounded false record' (some buffer) h = h
bumped-IsBounded true record' (some buffer) h =
    length-last_n sse_replay_max (buffer ++ record' ∷ [])

bumped_by-IsBounded :
    (session : Text) (sid : Option Text) (record' : Json) (o : Option (List Json))
    → IsBounded o
    → IsBounded (bumped_by session sid record' o)
unfolding bumped_by
bumped_by-IsBounded session none record' o h = h
bumped_by-IsBounded session (some other) record' o h =
    bumped-IsBounded (text_eq other session) record' o h

with_records-bumped :
    (b : Bool) (record' : Json) (more : List Json) (o : Option (List Json))
    → with_records more (bumped b record' o) ≡ with_records (if b then record' ∷ more else more) o
unfolding bumped append_bounded
with_records-bumped true record' more none = refl
with_records-bumped false record' more none = refl
with_records-bumped false record' more (some buffer) = refl
with_records-bumped true record' more (some buffer) = ap some (
    last_n-append sse_replay_max (buffer ++ record' ∷ []) more
    ∙ ap (last_n sse_replay_max) (append_assoc buffer (record' ∷ []) more))

with_records-seen :
    (session : Text) (sid : Option Text) (record' : Json) (more : List Json)
    (o : Option (List Json))
    → with_records more (bumped_by session sid record' o)
      ≡ with_records (seen_if session sid record' more) o
unfolding bumped_by
with_records-seen session none record' more o = refl
with_records-seen session (some other) record' more o =
    with_records-bumped (text_eq other session) record' more o

-- After a run of records, whatever viewers go away in it, the buffer of a watched session holds the
-- last 1000 of what it held and the session's records of the run, in their order, stripped; a session
-- that is not watched has no buffer. At the start the buffer has at most 1000 records.
pub lookup-broadcast_all :
    (shown : Json → Text) (works : Viewer → Bool) (session : Text) (records : List Fields)
    (s : Live)
    → IsBounded (lookup session s.session_buffers)
    → lookup session (broadcast_all shown works records s).session_buffers
      ≡ with_records (records_of shown works session records) (lookup session s.session_buffers)
unfolding broadcast_all records_of broadcast
lookup-broadcast_all shown works session [] s h =
    with_records-nil (lookup session s.session_buffers) h
lookup-broadcast_all shown works session (r ∷ records) s h =
    let stripped = obj (strip_stream_events_keep_counts r) in
    let sid = session_of shown r in
    let t = (broadcast shown works r s).1 in
    let step : lookup session t.session_buffers
        ≡ bumped_by session sid stripped (lookup session s.session_buffers) =
      pushed-lookup works session stripped sid s in
    lookup-broadcast_all shown works session records t (
      subst IsBounded (sym step)
        (bumped_by-IsBounded session sid stripped (lookup session s.session_buffers) h))
    ∙ (ap (with_records (records_of shown works session records)) step
        ∙ with_records-seen session sid stripped (records_of shown works session records)
            (lookup session s.session_buffers))
