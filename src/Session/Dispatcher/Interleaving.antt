-- ===== src/Session/Dispatcher/Interleaving.antt =====
-- claude_tap/session_dispatcher.py: tasks that allocate turns at the same time. A call of `alloc_turn`
-- has one await, at the lock, and so two parts between which any other task may run. The state has the
-- calls that wait at the lock and the turns that were given, the newest first.
use claude_tap.Base.{
  ℕ, ◌+◌, ◌≤◌, ◌<◌, Text, true, Option, none, some, List, [], ◌∷◌, ◌≡◌, refl, sym, subst, ap, ◌∙◌,
  arith, text_eq, text_eq_sound, text_eq_refl, Bool-cases, Option-cases, inl, inr, All, All-mono,
  lookup, lookup-insert,
}
use claude_tap.Session.Index.{Clock, Table}
use claude_tap.Session.Dispatcher.{
  Dispatcher, alloc_turn, slug_for, upsert_row, next_turn, turn_taken,
}

pub record Allocation : Type 0 where
  pub dispatcher : Dispatcher
  pub waiting : List (Text × Text)
  pub given : List (Text × ℕ)

-- A list without one of its elements.
pub data Without {A : Type 0} (x : A) : List A → List A → Type 0 where
  at_head : (xs : List A) → Without x (x ∷ xs) xs
  behind : {y : A} {xs ys : List A} → Without x xs ys → Without x (y ∷ xs) (y ∷ ys)

module _ (sha256 : Text → Text) where
  -- `ask` is the part before the lock, where the index may raise, and `give` the part under the lock and
  -- after it. Other methods, and their parts, leave the turns alone.
  pub data AllocStep : Allocation → Allocation → Type 0 where
    ask :
        (s : Allocation) (c : Clock) (raw : Text) (t : Table)
        → upsert_row c raw (slug_for sha256 raw s.dispatcher).0 (slug_for sha256 raw s.dispatcher).1
          ≡ some t
        → AllocStep s (record s {
          dispatcher = record (slug_for sha256 raw s.dispatcher).1 { index = t };
          waiting = (raw, (slug_for sha256 raw s.dispatcher).0) ∷ s.waiting;
        })
    ask_raises :
        (s : Allocation) (c : Clock) (raw : Text)
        → upsert_row c raw (slug_for sha256 raw s.dispatcher).0 (slug_for sha256 raw s.dispatcher).1
          ≡ none
        → AllocStep s (record s { dispatcher = (slug_for sha256 raw s.dispatcher).1 })
    give :
        (s : Allocation) (c : Clock) (raw slug : Text) (rest : List (Text × Text))
        → Without (raw, slug) s.waiting rest
        → AllocStep s (record {
          dispatcher = turn_taken c raw slug (next_turn raw slug s.dispatcher) s.dispatcher;
          waiting = rest;
          given = (slug, next_turn raw slug s.dispatcher) ∷ s.given;
        })
    elsewhere :
        (s : Allocation) (d : Dispatcher)
        → d.turns ≡ s.dispatcher.turns
        → AllocStep s (record s { dispatcher = d })

  pub data AllocRun (s : Allocation) : Allocation → Type 0 where
    start : AllocRun s s
    step : {t u : Allocation} → AllocRun s t → AllocStep t u → AllocRun s u

-- A turn is less than another one, if that is given under the same slug.
abbrev pub IsBelow : Text × ℕ → Text × ℕ → Type 0
IsBelow (slug, turn) (other, n) = text_eq other slug ≡ true → n < turn

-- One more turn, if one was given.
abbrev option_turns : Text → Option ℕ → List (Text × ℕ) → List (Text × ℕ)
option_turns slug none given = given
option_turns slug (some turn) given = (slug, turn) ∷ given

-- Each turn is above all that were given before it under its slug.
abbrev pub IsFresh : List (Text × ℕ) → Type 0
IsFresh [] = Unit
IsFresh (g ∷ given) = All (IsBelow g) given × IsFresh given

-- The counter of a slug is at least what was given.
record IsCounted (d : Dispatcher) (g : Text × ℕ) : Type 0 where
  top : ℕ
  counter : lookup g.0 d.turns ≡ some top
  least : g.1 ≤ top

record IsInOrder (s : Allocation) : Type 0 where
  counted : All (IsCounted s.dispatcher) s.given
  fresh : IsFresh s.given

same_turns :
    (d e : Dispatcher) (given : List (Text × ℕ))
    → e.turns ≡ d.turns
    → All (IsCounted d) given
    → All (IsCounted e) given
same_turns d e given h =
    All-mono (IsCounted d) (IsCounted e)
      (λ g k. record { top = k.top; counter = ap (lookup g.0) h ∙ k.counter; least = k.least })
      given

next_turn-some :
    (raw slug : Text) (d : Dispatcher) (n : ℕ)
    → lookup slug d.turns ≡ some n
    → next_turn raw slug d ≡ n + 1
unfolding next_turn
next_turn-some raw slug d n h = rw h refl

-- What was given under the slug is below the next turn.
IsCounted-IsBelow :
    (raw slug : Text) (d : Dispatcher) (g : Text × ℕ)
    → IsCounted d g
    → IsBelow (slug, next_turn raw slug d) g
IsCounted-IsBelow raw slug d (other, n) k e =
    let counter =
      subst (λ x. lookup x d.turns ≡ some k.top) (text_eq_sound other slug e) k.counter in
    omega (arith, next_turn-some raw slug d k.top counter, k.least)

-- The counters after a turn is given.
IsCounted-taken :
    (c : Clock) (raw slug : Text) (d : Dispatcher) (g : Text × ℕ)
    → IsCounted d g
    → IsCounted (turn_taken c raw slug (next_turn raw slug d) d) g
IsCounted-taken c raw slug d (other, n) k = elim (Bool-cases (text_eq slug other)) [
  | inr e ↦ record { top = k.top; counter = rw (lookup-insert, e) k.counter; least = k.least }
  | inl e ↦
      let counter =
        subst (λ x. lookup x d.turns ≡ some k.top) (sym (text_eq_sound slug other e)) k.counter in
      record {
        top = next_turn raw slug d;
        counter = rw (lookup-insert, e) refl;
        least = omega (arith, next_turn-some raw slug d k.top counter, k.least);
      }
]

module _ (sha256 : Text → Text) where
  slug_for-turns : (raw : Text) (d : Dispatcher) → (slug_for sha256 raw d).1.turns ≡ d.turns
  unfolding slug_for
  slug_for-turns raw d = elim (Option-cases (lookup raw d.raw_to_slug)) [
    | inl e ↦ rw e refl
    | inr (slug, e) ↦ rw e refl
  ]

  AllocStep-IsInOrder : {s t : Allocation} → AllocStep sha256 s t → IsInOrder s → IsInOrder t
  AllocStep-IsInOrder (ask s c raw t e) h = record {
    counted = same_turns s.dispatcher _ s.given (slug_for-turns raw s.dispatcher) h.counted;
    fresh = h.fresh;
  }
  AllocStep-IsInOrder (ask_raises s c raw e) h = record {
    counted = same_turns s.dispatcher _ s.given (slug_for-turns raw s.dispatcher) h.counted;
    fresh = h.fresh;
  }
  AllocStep-IsInOrder (elsewhere s d e) h = record {
    counted = same_turns s.dispatcher d s.given e h.counted;
    fresh = h.fresh;
  }
  AllocStep-IsInOrder (give s c raw slug rest w) h =
      let d = s.dispatcher in
      let turn = next_turn raw slug d in
      record {
        counted = (
          record {
            top = turn;
            counter = rw (lookup-insert, text_eq_refl) refl;
            least = omega arith;
          },
          All-mono (IsCounted d) (IsCounted (turn_taken c raw slug turn d))
              (IsCounted-taken c raw slug d) s.given h.counted,
        );
        fresh = (
          All-mono (IsCounted d) (IsBelow (slug, turn)) (IsCounted-IsBelow raw slug d) s.given
              h.counted,
          h.fresh,
        );
      }

  AllocRun-IsInOrder : {s t : Allocation} → AllocRun sha256 s t → IsInOrder s → IsInOrder t
  AllocRun-IsInOrder start h = h
  AllocRun-IsInOrder (step run last) h = AllocStep-IsInOrder last (AllocRun-IsInOrder run h)

  -- However the calls of alloc_turn and the other methods take turns at the lock, of the turns that are
  -- given under one slug each is greater than those given before it, so that none is given twice.
  pub AllocRun-IsFresh : (s t : Allocation) → s.given ≡ [] → AllocRun sha256 s t → IsFresh t.given
  AllocRun-IsFresh s t h run =
      (AllocRun-IsInOrder run (record {
        counted = subst (All (IsCounted s.dispatcher)) (sym h) tt;
        fresh = subst IsFresh (sym h) tt;
      })).fresh

  -- A call of `alloc_turn` that no other task interrupts is a run of both parts.
  alloc_turn-AllocRun :
      (c : Clock) (raw : Text) (d : Dispatcher) (t : Table) (given : List (Text × ℕ))
      → upsert_row c raw (slug_for sha256 raw d).0 (slug_for sha256 raw d).1 ≡ some t
      → AllocRun sha256
          (record { dispatcher = d; waiting = []; given = given })
          (record {
            dispatcher = (alloc_turn sha256 c raw d).1;
            waiting = [];
            given = option_turns (slug_for sha256 raw d).0 (alloc_turn sha256 c raw d).0 given;
          })
  unfolding alloc_turn
  alloc_turn-AllocRun c raw d t given e = rw e (
      step (step start (ask (record { dispatcher = d; waiting = []; given = given }) c raw t e))
        (give _ c raw (slug_for sha256 raw d).0 [] (at_head [])))
