-- ===== src/Session/Dispatcher/Turns.antt =====
-- claude_tap/session_dispatcher.py: the turns that `alloc_turn` hands out.
use claude_tap.Base.{
  ℕ, ◌+◌, ◌≤◌, Text, true, false, Option, some, ◌≡◌, refl, ap, ◌∙◌, sym, arith, text_eq, get_or,
  is_some, Option-cases, inl, inr, some_inj, lookup, lookup-insert_self, lookup-insert_ne,
}
use claude_tap.Session.Index.{Table, Clock, get_session, get_last_turn, record_write}
use claude_tap.Session.Index.LastTurn.{
  upsert-is_some, upsert-known, record_write-is_some, get_last_turn-record_write,
  get_last_turn-upsert,
}
use claude_tap.Session.Dispatcher.{
  Dispatcher, slug_for, make_unique_slug, next_turn, take_turn, turn_taken, upsert_row, alloc_turn,
  jsonl_relpath_for_slug,
}

module _ (sha256 : Text → Text) where
  pub slug_for_known :
      (raw slug : Text) (d : Dispatcher)
      → lookup raw d.raw_to_slug ≡ some slug
      → slug_for sha256 raw d ≡ (slug, d)
  unfolding slug_for
  slug_for_known raw slug d h = rw h refl

  pub slug_for_lem :
      (raw : Text) (d : Dispatcher)
      → lookup raw (slug_for sha256 raw d).1.raw_to_slug ≡ some (slug_for sha256 raw d).0
  unfolding slug_for
  slug_for_lem raw d = elim (Option-cases (lookup raw d.raw_to_slug)) [
    | inl e ↦ rw e (lookup-insert_self raw (make_unique_slug sha256 raw d) d.raw_to_slug)
    | inr (slug, e) ↦ rw e e
  ]

  -- Finding the slug changes neither the turns nor the index.
  turns-slug_for : (raw : Text) (d : Dispatcher) → (slug_for sha256 raw d).1.turns ≡ d.turns
  unfolding slug_for
  turns-slug_for raw d = elim (Option-cases (lookup raw d.raw_to_slug)) [
    | inl e ↦ rw e refl
    | inr (slug, e) ↦ rw e refl
  ]

  index-slug_for : (raw : Text) (d : Dispatcher) → (slug_for sha256 raw d).1.index ≡ d.index
  unfolding slug_for
  index-slug_for raw d = elim (Option-cases (lookup raw d.raw_to_slug)) [
    | inl e ↦ rw e refl
    | inr (slug, e) ↦ rw e refl
  ]

  -- What a call that returns a turn went through.
  record Allocated (c : Clock) (raw : Text) (d : Dispatcher) (n : ℕ) (d' : Dispatcher)
      : Type 0 where
    table : Table
    upserted : upsert_row c raw (slug_for sha256 raw d).0 (slug_for sha256 raw d).1 ≡ some table
    taken :
        take_turn c raw
          (slug_for sha256 raw d).0
          (record (slug_for sha256 raw d).1 { index = table })
        ≡ (some n, d')

  Allocated-of :
      (c : Clock) (raw : Text) (d : Dispatcher) (n : ℕ) (d' : Dispatcher)
      → alloc_turn sha256 c raw d ≡ (some n, d')
      → Allocated c raw d n d'
  unfolding alloc_turn
  Allocated-of c raw d n d' h =
      let (slug, e) = slug_for sha256 raw d in
      elim (Option-cases (upsert_row c raw slug e)) [
        | inl u ↦ absurd (cc (ap (λ (p : Option ℕ × Dispatcher). p.0) (rw u at h)))
        | inr (t, u) ↦ record { table = t; upserted = u; taken = rw u at h }
      ]

  -- The dispatcher after a turn `m` was taken.
  abbrev taken_state : Clock → Text → Text → ℕ → Table → Dispatcher → Dispatcher
  taken_state c raw slug m table e = turn_taken c raw slug m (record e { index = table })

  next_lem :
      (c c' : Clock) (raw slug : Text) (m : ℕ) (table : Table) (e : Dispatcher)
      → lookup raw e.raw_to_slug ≡ some slug
      → is_some (get_session raw table) ≡ true
      → (alloc_turn sha256 c' raw (taken_state c raw slug m table e)).0 ≡ some (m + 1)
  unfolding alloc_turn next_turn
  next_lem c c' raw slug m table e hs hr =
      rw
        (
          slug_for_known raw slug (taken_state c raw slug m table e) hs,
          upsert-known c' raw slug (jsonl_relpath_for_slug slug) (record_write c raw m table)
              (record_write-is_some c raw raw m table ∙ hr),
          lookup-insert_self slug m e.turns,
        )
        refl

  -- The state after a call that returns a turn, written out.
  state_of :
      {c : Clock} {raw : Text} {d d' : Dispatcher} {n : ℕ} (a : Allocated c raw d n d')
      → d' ≡ taken_state c raw (slug_for sha256 raw d).0 n a.table (slug_for sha256 raw d).1
  state_of {c} {raw} {d} {d'} {n} a =
      let slug = (slug_for sha256 raw d).0 in
      let e = (slug_for sha256 raw d).1 in
      let same : next_turn raw slug (record e { index = a.table }) ≡ n =
        some_inj (ap (λ (p : Option ℕ × Dispatcher). p.0) a.taken) in
      sym (ap (λ (p : Option ℕ × Dispatcher). p.1) a.taken)
      ∙ ap (λ m. taken_state c raw slug m a.table e) same

  is_some-table :
      {c : Clock} {raw : Text} {d d' : Dispatcher} {n : ℕ} (a : Allocated c raw d n d')
      → is_some (get_session raw a.table) ≡ true
  is_some-table {c} {raw} {d} a =
      upsert-is_some c raw (slug_for sha256 raw d).0 _ (slug_for sha256 raw d).1.index a.table
        a.upserted

  -- Two calls in a row for one session: where the first returns a turn, the second does, and it is
  -- the next number.
  pub alloc_turn-next :
      (c c' : Clock) (raw : Text) (d d' : Dispatcher) (n : ℕ)
      → alloc_turn sha256 c raw d ≡ (some n, d')
      → (alloc_turn sha256 c' raw d').0 ≡ some (n + 1)
  alloc_turn-next c c' raw d d' n h =
      let a = Allocated-of c raw d n d' h in
      rw (state_of a) (
        next_lem c c' raw (slug_for sha256 raw d).0 n a.table (slug_for sha256 raw d).1
          (slug_for_lem raw d) (is_some-table a))

  -- A turn that is returned: it is one more than the last turn of this process for the slug, or,
  -- where this process has handed out none, than the last turn in the index; the index then holds
  -- no smaller turn; and the turn of another slug is as it was.
  pub alloc_turn-Turn :
      (c : Clock) (raw s : Text) (d d' : Dispatcher) (n : ℕ)
      → alloc_turn sha256 c raw d ≡ (some n, d')
      → text_eq (slug_for sha256 raw d).0 s ≡ false
      → (n ≡ get_or (lookup (slug_for sha256 raw d).0 d.turns) (get_last_turn raw d.index) + 1)
        × (n ≤ get_last_turn raw d'.index)
        × (lookup s d'.turns ≡ lookup s d.turns)
  unfolding next_turn
  alloc_turn-Turn c raw s d d' n h ne =
      let a = Allocated-of c raw d n d' h in
      let slug = (slug_for sha256 raw d).0 in
      let e = (slug_for sha256 raw d).1 in
      (
        sym (some_inj (ap (λ (p : Option ℕ × Dispatcher). p.0) a.taken))
            ∙ rw
                (
                  turns-slug_for raw d,
                  get_last_turn-upsert c raw slug (jsonl_relpath_for_slug slug) e.index a.table
                      a.upserted,
                  index-slug_for raw d,
                )
                refl,
        rw (state_of a)
            (rw (get_last_turn-record_write c raw n a.table (is_some-table a)) (omega arith)),
        rw (state_of a, lookup-insert_ne slug s n e.turns ne, turns-slug_for raw d) refl,
      )
