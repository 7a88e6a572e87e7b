-- ===== src/Sse/Recorded.antt =====
-- claude_tap/sse.py: which of the recorded events stay as they were recorded.
use claude_tap.Base.{
  ℕ, zero, suc, String, Text, some_inj, Bool, true, false, not, ◌&&◌, ◌||◌, Option, none, some,
  List, [], ◌∷◌, ◌++◌, ◌≡◌, refl, sym, ◌∙◌, subst, ap, length, All, All-keep_of, All-mono, if_ind,
  get_or, text_eq,
}
use claude_tap.Json.{Json, null, obj, Fields, end, field, get, has, is_obj}
use claude_tap.Sse.Sharing.{Event, Shared, unshare, share_items, with_value, alter, seen_through}
use claude_tap.Sse.{Parser, is_name, shares, add_event, accumulate}
use claude_tap.Sse.Chat.{sets_usage}

unfoldable pub event_at : ℕ → List Event → Option Event
event_at i [] = none
event_at zero (e ∷ events) = some e
event_at (suc i) (e ∷ events) = event_at i events

-- The event there is a `message_delta`.
unfoldable pub delta_at : ℕ → List Event → Bool
unfolding text_eq
delta_at i [] = false
delta_at zero (e ∷ events) = is_name e.name "message_delta"
delta_at (suc i) (e ∷ events) = delta_at i events

-- The snapshot shares objects with such events only.
abbrev pub AllDeltas : List Event → Shared → Type 0
AllDeltas events shared = All (λ s. delta_at s.1 events ≡ true) shared

delta_at-append :
    (i : ℕ) (events : List Event) (e : Event)
    → delta_at i events ≡ true
    → delta_at i (events ++ e ∷ []) ≡ true
unfolding delta_at
delta_at-append i [] e h = cc
delta_at-append zero (x ∷ events) e h = h
delta_at-append (suc i) (x ∷ events) e h = delta_at-append i events e h

delta_at-last :
    (events : List Event) (e : Event)
    → delta_at (length events) (events ++ e ∷ []) ≡ is_name e.name "message_delta"
unfolding delta_at
delta_at-last [] e = refl
delta_at-last (x ∷ events) e = delta_at-last events e

event_at-append :
    (i : ℕ) (events : List Event) (e x : Event)
    → event_at i events ≡ some x
    → event_at i (events ++ e ∷ []) ≡ some x
unfolding event_at
event_at-append i [] e x h = cc
event_at-append zero (y ∷ events) e x h = h
event_at-append (suc i) (y ∷ events) e x h = event_at-append i events e x h

and_left : (a b : Bool) → (a && b) ≡ true → a ≡ true
and_left true b h = refl
and_left false b h = cc

module _ (f : Event → Event) (same : (e : Event) → (f e).name ≡ e.name) where
  delta_at-alter :
      (j i : ℕ) (events : List Event) → delta_at j (alter i f events) ≡ delta_at j events
  unfolding delta_at alter
  delta_at-alter j i [] = refl
  delta_at-alter zero zero (e ∷ events) = ap (λ n. is_name n "message_delta") (same e)
  delta_at-alter (suc j) zero (e ∷ events) = refl
  delta_at-alter zero (suc i) (e ∷ events) = refl
  delta_at-alter (suc j) (suc i) (e ∷ events) = delta_at-alter j i events

  event_at-alter :
      (j i : ℕ) (events : List Event) (x : Event)
      → delta_at i events ≡ true
      → event_at j events ≡ some x
      → is_name x.name "message_delta" ≡ false
      → event_at j (alter i f events) ≡ some x
  unfolding delta_at event_at alter
  event_at-alter j i [] x d h n = h
  event_at-alter zero zero (e ∷ events) x d h n =
      let clash : is_name e.name "message_delta" ≡ false =
        subst (λ (y : Event). is_name y.name "message_delta" ≡ false) (sym (some_inj h)) n in
      absurd (cc)
  event_at-alter (suc j) zero (e ∷ events) x d h n = h
  event_at-alter zero (suc i) (e ∷ events) x d h n = h
  event_at-alter (suc j) (suc i) (e ∷ events) x d h n = event_at-alter j i events x d h n

name-with_value : (k : String) (v : Option Json) (e : Event) → (with_value k v e).name ≡ e.name
unfolding with_value
name-with_value k none e = refl
name-with_value k (some v) e = refl

delta_at-seen_through :
    (snap : Json) (shared : Shared) (events : List Event) (j : ℕ)
    → delta_at j (seen_through snap shared events) ≡ delta_at j events
unfolding seen_through
delta_at-seen_through (obj snap) [] events j = refl
delta_at-seen_through (obj snap) ((k, i) ∷ shared) events j =
    let f = with_value k (get k snap) in
    delta_at-seen_through (obj snap) shared (alter i f events) j
    ∙ delta_at-alter f (name-with_value k (get k snap)) j i events
delta_at-seen_through _ shared events j = refl

event_at-seen_through :
    (snap : Json) (shared : Shared) (events : List Event) (j : ℕ) (x : Event)
    → AllDeltas events shared
    → event_at j events ≡ some x
    → is_name x.name "message_delta" ≡ false
    → event_at j (seen_through snap shared events) ≡ some x
unfolding seen_through
event_at-seen_through (obj snap) [] events j x a h n = h
event_at-seen_through (obj snap) ((k, i) ∷ shared) events j x a h n =
    let f = with_value k (get k snap) in
    let names = name-with_value k (get k snap) in
    event_at-seen_through (obj snap) shared (alter i f events) j x
      (All-mono _ _ (λ s e. delta_at-alter f names s.1 i events ∙ e) shared a.1)
      (event_at-alter f names j i events x a.0 h n) n
event_at-seen_through _ shared events j x a h n = h

share_items-AllDeltas :
    (events : List Event) (fs : Fields) (i : ℕ) (shared : Shared)
    → delta_at i events ≡ true
    → AllDeltas events shared
    → AllDeltas events (share_items fs i shared)
unfolding share_items unshare
share_items-AllDeltas events end i shared d a = a
share_items-AllDeltas events (field k v fs) i shared d a =
    (d, share_items-AllDeltas events fs i (unshare k shared) d (All-keep_of _ _ shared a))

module _ (loads : Text → Option Json) where
  shares-AllDeltas :
      (events : List Event) (name : Text) (payload snap : Json) (i : ℕ) (shared : Shared)
      → delta_at i events ≡ is_name name "message_delta"
      → AllDeltas events shared
      → AllDeltas events (shares loads name payload snap i shared)
  unfolding shares unshare
  shares-AllDeltas events name (obj event) snap i shared d a =
      let P = AllDeltas events in
      if_ind P (is_name name "message_start") [] _ (λ _. tt)
        λ _.
          if_ind P
            (is_name name "response.created"
              || is_name name "response.completed"
              || is_name name "response.done")
            _ _
            (λ _.
              if_ind P
                (is_obj (get_or (get "response" event) null)
                  || not (is_name name "response.created"))
                [] shared (λ _. tt) (λ _. a))
            λ _.
              if_ind P (is_name name "message" && has "choices" event) _ _
                (λ _.
                  if_ind P (sets_usage loads event snap) (unshare "usage" shared) shared
                    (λ _. All-keep_of _ _ shared a) (λ _. a))
                λ _.
                  if_ind P (is_name name "message_delta" && is_obj snap) _ shared
                    (λ e. delta_shares (get_or (get "delta" event) (obj end)) (d ∙ and_left _ _ e))
                    (λ _. a)
    where
      delta_shares :
          (delta : Json)
          → delta_at i events ≡ true
          → AllDeltas events (elim delta [ obj fs ↦ share_items fs i shared | _ ↦ shared ])
      delta_shares (obj fs) h = share_items-AllDeltas events fs i shared h a
      delta_shares _ h = a
  shares-AllDeltas events name _ snap i shared d a = a

  -- The invariant, and that of one recorded event.
  pub add_event-AllDeltas :
      (name : Text) (payload : Json) (p : Parser)
      → AllDeltas p.events p.shared
      → AllDeltas (add_event loads name payload p).events (add_event loads name payload p).shared
  unfolding add_event
  add_event-AllDeltas name payload p a =
      let e : Event = record { name = name; payload = payload } in
      let all = p.events ++ e ∷ [] in
      let snap = accumulate loads name payload p.snapshot in
      let shared = shares loads name payload p.snapshot (length p.events) p.shared in
      All-mono _ _ (λ s h. delta_at-seen_through snap shared all s.1 ∙ h) shared
        (shares-AllDeltas all name payload p.snapshot (length p.events) p.shared
          (delta_at-last p.events e)
          (All-mono _ _ (λ s h. delta_at-append s.1 p.events e h) p.shared a))

  pub event_at-add_event :
      (name : Text) (payload : Json) (p : Parser) (j : ℕ) (x : Event)
      → AllDeltas p.events p.shared
      → event_at j p.events ≡ some x
      → is_name x.name "message_delta" ≡ false
      → event_at j (add_event loads name payload p).events ≡ some x
  unfolding add_event
  event_at-add_event name payload p j x a h n =
      let e : Event = record { name = name; payload = payload } in
      let all = p.events ++ e ∷ [] in
      event_at-seen_through (accumulate loads name payload p.snapshot)
        (shares loads name payload p.snapshot (length p.events) p.shared) all j x
        (shares-AllDeltas all name payload p.snapshot (length p.events) p.shared
          (delta_at-last p.events e)
          (All-mono _ _ (λ s g. delta_at-append s.1 p.events e g) p.shared a))
        (event_at-append j p.events e x h) n
