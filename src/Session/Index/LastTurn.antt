-- ===== src/Session/Index/LastTurn.antt =====
-- claude_tap/session_index.py: the last turn of a session after the writes.
use Prim.Native.Nat.{max}
use mathlib.Core.Option
use claude_tap.Base.{
  some_inj, ℕ, Text, true, Option, none, some, [], ◌∷◌, ◌++◌, ◌≡◌, refl, ◌∙◌, sym, arith, subst,
  text_eq, text_eq_refl, is_some, Bool-cases, Option-cases, inl, inr,
}
use claude_tap.Session.Index.{
  Row, Table, Clock, has_id, get_session, update_where, has_slug, last_turn_of, get_last_turn,
  new_row, upsert_session_row, record_write,
}
use claude_tap.Session.Index.Rows.{
  get_session-update_where, get_session-append, get_session-record_write,
}

is_some-map {ℓ} : {A : Type ℓ} (f : A → A) (o : Option A) → is_some (Option.map f o) ≡ is_some o
is_some-map f none = refl
is_some-map f (some a) = refl

update_where-is_some :
    (id j : Text) (f : Row → Row) (t : Table)
    → ((r : Row) → (f r).claw_session_id ≡ r.claw_session_id)
    → is_some (get_session j (update_where id f t)) ≡ is_some (get_session j t)
update_where-is_some id j f t h =
    rw (get_session-update_where id j f t h) (elim (Bool-cases (text_eq id j)) [
      | inl e ↦ rw e (is_some-map f (get_session j t))
      | inr e ↦ rw e refl
    ])

-- A session that is there stays there.
pub record_write-is_some :
    (c : Clock) (id j : Text) (turn : ℕ) (t : Table)
    → is_some (get_session j (record_write c id turn t)) ≡ is_some (get_session j t)
unfolding record_write
record_write-is_some c id j turn t = update_where-is_some id j _ t (λ r. refl)

is_some-append :
    (id slug relpath : Text) (c : Clock) (t : Table)
    → is_some (get_session id (t ++ new_row c id slug relpath ∷ [])) ≡ true
unfolding get_session
is_some-append id slug relpath c [] = rw (text_eq_refl id) refl
is_some-append id slug relpath c (r ∷ t) = elim (Bool-cases (has_id id r)) [
  | inl e ↦ rw e refl
  | inr e ↦ rw e (is_some-append id slug relpath c t)
]

-- After an upsert that does not raise the session has a row.
pub upsert-is_some :
    (c : Clock) (id slug relpath : Text) (t u : Table)
    → upsert_session_row c id slug relpath t ≡ some u
    → is_some (get_session id u) ≡ true
unfolding upsert_session_row
upsert-is_some c id slug relpath t u e = elim (Bool-cases (is_some (get_session id t))) [
  | inl known ↦
      subst (λ v. is_some (get_session id v) ≡ true) (some_inj (rw known at e))
        (update_where-is_some id id _ t (λ r. refl) ∙ known)
  | inr new ↦ elim (Bool-cases (has_slug slug t)) [
    | inl taken ↦ absurd (ground arith)
    | inr free ↦
        subst (λ v. is_some (get_session id v) ≡ true) (some_inj (rw (new, free) at e))
          (is_some-append id slug relpath c t)
  ]
]

-- An upsert of a session that has a row does not raise.
pub upsert-known :
    (c : Clock) (id slug relpath : Text) (t : Table)
    → is_some (get_session id t) ≡ true
    → upsert_session_row c id slug relpath t
      ≡ some (update_where id (λ r. record r { updated_at = c.now }) t)
unfolding upsert_session_row
upsert-known c id slug relpath t h = rw h refl

-- The last turn of a session that has a row after a write is the greater of the two.
pub get_last_turn-record_write :
    (c : Clock) (id : Text) (turn : ℕ) (t : Table)
    → is_some (get_session id t) ≡ true
    → get_last_turn id (record_write c id turn t) ≡ max (get_last_turn id t) turn
unfolding get_last_turn
get_last_turn-record_write c id turn t h = elim (Option-cases (get_session id t)) [
  | inl e ↦ absurd (cc (rw e at h))
  | inr (r, e) ↦ rw (get_session-record_write, text_eq_refl id, e) refl
]

last_turn_of-map :
    (n : ℕ) (o : Option Row)
    → last_turn_of (Option.map (λ (r : Row). record r { updated_at = n }) o) ≡ last_turn_of o
last_turn_of-map n none = refl
last_turn_of-map n (some r) = refl

update_where-last_turn :
    (id : Text) (n : ℕ) (t : Table)
    → get_last_turn id (update_where id (λ r. record r { updated_at = n }) t) ≡ get_last_turn id t
unfolding get_last_turn
update_where-last_turn id n t =
    rw
      (
        get_session-update_where id id (λ r. record r { updated_at = n }) t (λ r. refl),
        text_eq_refl id,
      )
      (last_turn_of-map n (get_session id t))

append-last_turn :
    (id slug relpath : Text) (c : Clock) (t : Table)
    → get_session id t ≡ none
    → get_last_turn id (t ++ new_row c id slug relpath ∷ []) ≡ 0
unfolding get_last_turn
append-last_turn id slug relpath c t h =
    rw (get_session-append id t (new_row c id slug relpath), h, text_eq_refl id) refl

-- An upsert keeps the last turn of its session, which is 0 where it had no row.
pub get_last_turn-upsert :
    (c : Clock) (id slug relpath : Text) (t u : Table)
    → upsert_session_row c id slug relpath t ≡ some u
    → get_last_turn id u ≡ get_last_turn id t
unfolding upsert_session_row get_last_turn
get_last_turn-upsert c id slug relpath t u e = elim (Option-cases (get_session id t)) [
  | inr (r, known) ↦
      subst (λ v. get_last_turn id v ≡ get_last_turn id t) (some_inj (rw known at e))
        (update_where-last_turn id c.now t)
  | inl new ↦ elim (Bool-cases (has_slug slug t)) [
    | inl taken ↦ absurd (ground arith)
    | inr free ↦
        subst (λ v. get_last_turn id v ≡ get_last_turn id t) (some_inj (rw (new, free) at e))
          (append-last_turn id slug relpath c t new ∙ sym (rw new refl))
  ]
]
