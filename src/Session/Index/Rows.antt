-- ===== src/Session/Index/Rows.antt =====
-- claude_tap/session_index.py: what the writes do to the rows, and the uniqueness of ids and slugs.
use Prim.Native.Nat.{max}
use mathlib.Core.Option
use claude_tap.Base.{
  some_inj, ℕ, Text, false, none, some, [], ◌∷◌, ◌++◌, ◌≡◌, refl, arith, if_ind, subst,
  if◌then◌else◌, text_eq, text_eq_iff, any, is_some, Bool-cases, inl, inr, All, All-append,
}
use claude_tap.Session.Index.{
  Row, Table, Clock, has_id, get_session, update_where, has_slug, get_last_turn, new_row,
  upsert_session_row, written, record_write,
}

-- An update that keeps the ids changes the row of that id and no other.
pub get_session-update_where :
    (id j : Text) (f : Row → Row) (t : Table)
    → ((r : Row) → (f r).claw_session_id ≡ r.claw_session_id)
    → get_session j (update_where id f t)
      ≡ (if text_eq id j then Option.map f (get_session j t) else get_session j t)
unfolding get_session update_where
get_session-update_where id j f [] h = ground arith
get_session-update_where id j f (r ∷ t) h = ground (
  arith,
  h r,
  text_eq_iff r.claw_session_id id,
  text_eq_iff r.claw_session_id j,
  text_eq_iff id j,
  get_session-update_where id j f t h,
)

pub get_session-append :
    (j : Text) (t : Table) (r : Row)
    → get_session j (t ++ r ∷ [])
      ≡ elim (get_session j t) [ none ↦ if has_id j r then some r else none | some s ↦ some s ]
unfolding get_session
get_session-append j [] r = refl
get_session-append j (s ∷ t) r = ground (arith, get_session-append j t r)

-- No two rows agree on `f`.
abbrev pub DistinctBy : (Row → Text) → Table → Type 0
DistinctBy f [] = Unit
DistinctBy f (r ∷ t) = All (λ s. text_eq (f s) (f r) ≡ false) t × DistinctBy f t

-- The PRIMARY KEY and the UNIQUE column.
pub record IsTable (t : Table) : Type 0 where
  pub ids : DistinctBy (λ r. r.claw_session_id) t
  pub slugs : DistinctBy (λ r. r.storage_slug) t

module _ (f : Row → Text) (g : Row → Row) (id : Text) (same : (r : Row) → f (g r) ≡ f r) where
  All-update_where :
      (k : Text) (t : Table)
      → All (λ s. text_eq (f s) k ≡ false) t
      → All (λ s. text_eq (f s) k ≡ false) (update_where id g t)
  unfolding update_where
  All-update_where k [] h = tt
  All-update_where k (r ∷ t) h = (
    if_ind (λ s. text_eq (f s) k ≡ false) (has_id id r) (g r) r (λ _. rw same h.0) (λ _. h.0),
    All-update_where k t h.1,
  )

  key-update : (r : Row) → f (if has_id id r then g r else r) ≡ f r
  key-update r = if_ind (λ s. f s ≡ f r) (has_id id r) (g r) r (λ _. same r) (λ _. refl)

  DistinctBy-update_where : (t : Table) → DistinctBy f t → DistinctBy f (update_where id g t)
  unfolding update_where
  DistinctBy-update_where [] h = tt
  DistinctBy-update_where (r ∷ t) h =
      (rw key-update (All-update_where (f r) t h.0), DistinctBy-update_where t h.1)

DistinctBy-append :
    (f : Row → Text) (t : Table) (r : Row)
    → DistinctBy f t
    → All (λ s. text_eq (f r) (f s) ≡ false) t
    → DistinctBy f (t ++ r ∷ [])
DistinctBy-append f [] r h new = (tt, tt)
DistinctBy-append f (s ∷ t) r h new = (
  All-append (λ x. text_eq (f x) (f s) ≡ false) t (r ∷ []) h.0 (new.0, tt),
  DistinctBy-append f t r h.1 new.1,
)

text_eq-false_sym : (s t : Text) → text_eq s t ≡ false → text_eq t s ≡ false
text_eq-false_sym s t h = ground (arith, text_eq_iff s t, text_eq_iff t s)

absent-All :
    (id : Text) (t : Table)
    → is_some (get_session id t) ≡ false
    → All (λ s. text_eq id s.claw_session_id ≡ false) t
unfolding get_session
absent-All id [] h = tt
absent-All id (r ∷ t) h = elim (Bool-cases (has_id id r)) [
  | inl e ↦ absurd (ground arith)
  | inr e ↦ (text_eq-false_sym r.claw_session_id id e, absent-All id t (rw e at h))
]

no_slug-All :
    (slug : Text) (t : Table)
    → has_slug slug t ≡ false
    → All (λ s. text_eq slug s.storage_slug ≡ false) t
unfolding has_slug any
no_slug-All slug [] h = tt
no_slug-All slug (r ∷ t) h =
    (text_eq-false_sym r.storage_slug slug (ground arith), no_slug-All slug t (ground arith))

pub record_write-IsTable :
    (c : Clock) (id : Text) (turn : ℕ) (t : Table) → IsTable t → IsTable (record_write c id turn t)
unfolding record_write
record_write-IsTable c id turn t h = record {
  ids = DistinctBy-update_where (λ r. r.claw_session_id) _ id (λ r. refl) t h.ids;
  slugs = DistinctBy-update_where (λ r. r.storage_slug) _ id (λ r. refl) t h.slugs;
}

inserted-IsTable :
    (c : Clock) (id slug relpath : Text) (t : Table)
    → IsTable t
    → is_some (get_session id t) ≡ false
    → has_slug slug t ≡ false
    → IsTable (t ++ new_row c id slug relpath ∷ [])
inserted-IsTable c id slug relpath t h e f = record {
  ids = DistinctBy-append (λ r. r.claw_session_id) t _ h.ids (absent-All id t e);
  slugs = DistinctBy-append (λ r. r.storage_slug) t _ h.slugs (no_slug-All slug t f);
}

-- An upsert that does not raise keeps the ids and the slugs unique.
pub upsert-IsTable :
    (c : Clock) (id slug relpath : Text) (t u : Table)
    → IsTable t
    → upsert_session_row c id slug relpath t ≡ some u
    → IsTable u
unfolding upsert_session_row
upsert-IsTable c id slug relpath t u h e = elim (Bool-cases (is_some (get_session id t))) [
  | inl known ↦ subst IsTable (some_inj (rw known at e)) (record {
    ids = DistinctBy-update_where (λ r. r.claw_session_id) _ id (λ r. refl) t h.ids;
    slugs = DistinctBy-update_where (λ r. r.storage_slug) _ id (λ r. refl) t h.slugs;
  })
  | inr new ↦ elim (Bool-cases (has_slug slug t)) [
    | inl taken ↦ absurd (ground arith)
    | inr free ↦
        subst IsTable (some_inj (rw (new, free) at e))
          (inserted-IsTable c id slug relpath t h new free)
  ]
]

-- After a write the last turn is the greater of the old one and the new one where the session is
-- there, and the other sessions are as they were.
pub get_session-record_write :
    (c : Clock) (id j : Text) (turn : ℕ) (t : Table)
    → get_session j (record_write c id turn t) ≡ (
        if text_eq id j
        then Option.map (written c (max (get_last_turn id t) turn)) (get_session j t)
        else get_session j t)
unfolding record_write
get_session-record_write c id j turn t =
    get_session-update_where id j (written c (max (get_last_turn id t) turn)) t (λ r. refl)
