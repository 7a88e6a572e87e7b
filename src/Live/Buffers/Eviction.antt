-- ===== src/Live/Buffers/Eviction.antt =====
-- claude_tap/live.py, `_evict_lru`: how many sessions are buffered, and which are spared.
use claude_tap.Base.{
  ℕ, zero, suc, ◌≤◌, Text, Bool, true, false, Option, none, some, List, [], ◌∷◌, ◌++◌, ◌≡◌, ◌⊎◌,
  inl, inr, refl, ap, sym, ◌∙◌, subst, arith, length, length-append, ltb, text_eq, text_eq_refl,
  text_eq_sound, text_eq_iff, if◌then◌else◌, Bool-cases, Option-cases, All, Dict, lookup, erase,
  lookup-erase_ne, lookup-append_ne, some_inj, if_ind,
}
use claude_tap.Json.{Json}
use claude_tap.Live.Buffers.{
  Viewer, Live, is_active, victim, evict, evict_lru, opened, open_session_buffer, with_buffers,
}

if-none :
    (b : Bool) (x : Option Text) (a : Text)
    → (if b then x else some a) ≡ none
    → (b ≡ true) × (x ≡ none)
if-none true x a h = (refl, h)
if-none false x a h = cc

if-some :
    (b : Bool) (x : Option Text) (a c : Text)
    → (if b then x else some a) ≡ some c
    → ((b ≡ true) × (x ≡ some c)) ⊎ ((b ≡ false) × (a ≡ c))
if-some true x a c h = inl (refl, h)
if-some false x a c h = inr (refl, some_inj h)

module _ (clients : List Viewer) where
  abbrev AllActive : Dict (List Json) → Type 0
  AllActive buffers = All (λ b. is_active clients b.0 ≡ true) buffers

  victim-none : (buffers : Dict (List Json)) → victim clients buffers ≡ none → AllActive buffers
  unfolding victim
  victim-none [] h = tt
  victim-none ((k, r) ∷ buffers) h =
      let (e, more) = if-none (is_active clients k) (victim clients buffers) k h in
      (e, victim-none buffers more)

  -- The victim has no viewer.
  victim-inactive :
      (buffers : Dict (List Json)) (session : Text)
      → victim clients buffers ≡ some session
      → is_active clients session ≡ false
  unfolding victim
  victim-inactive [] session h = cc
  victim-inactive ((k, r) ∷ buffers) session h =
      elim (if-some (is_active clients k) (victim clients buffers) k session h) [
        | inl (e, more) ↦ victim-inactive buffers session more
        | inr (e, same) ↦ subst (λ x. is_active clients x ≡ false) same e
      ]

  -- It has a buffer, which is taken away.
  length-erase-victim :
      (buffers : Dict (List Json)) (session : Text)
      → victim clients buffers ≡ some session
      → suc (length (erase session buffers)) ≡ length buffers
  unfolding victim erase
  length-erase-victim [] session h = cc
  length-erase-victim ((k, r) ∷ buffers) session h =
      if_ind (λ (d : Dict (List Json)). suc (length d) ≡ suc (length buffers)) (text_eq k session) _
        _ (λ e. refl)
        λ e. elim (if-some (is_active clients k) (victim clients buffers) k session h) [
          | inl (a, more) ↦ ap suc (length-erase-victim buffers session more)
          | inr (a, same) ↦
              let f : text_eq k k ≡ false = subst (λ x. text_eq k x ≡ false) (sym same) e in
              absurd (cc (text_eq_refl k))
        ]

  active_ne :
      (session k : Text)
      → is_active clients session ≡ false
      → is_active clients k ≡ true
      → text_eq session k ≡ false
  active_ne session k hs hk = elim (Bool-cases (text_eq session k)) [
    | inl e ↦ absurd (cc (text_eq_sound session k e))
    | inr e ↦ e
  ]

  evict-bound :
      (rounds max_sessions : ℕ) (buffers : Dict (List Json))
      → length buffers ≤ rounds
      → (length (evict rounds max_sessions clients buffers) ≤ max_sessions)
        ⊎ AllActive (evict rounds max_sessions clients buffers)
  unfolding evict
  evict-bound zero max_sessions buffers h = inl (omega arith)
  evict-bound (suc rounds) max_sessions buffers h =
      elim (Bool-cases (ltb max_sessions (length buffers))) [
        | inr e ↦ rw e (inl (ground arith))
        | inl e ↦ elim (Option-cases (victim clients buffers)) [
          | inl n ↦ rw (e, n) (inr (victim-none buffers n))
          | inr (session, v) ↦
              rw (e, v)
                (evict-bound rounds max_sessions (erase session buffers)
                  (omega (arith, length-erase-victim buffers session v)))
        ]
      ]

  -- A session with a viewer keeps its buffer.
  lookup-evict :
      (k : Text) (rounds max_sessions : ℕ) (buffers : Dict (List Json))
      → is_active clients k ≡ true
      → lookup k (evict rounds max_sessions clients buffers) ≡ lookup k buffers
  unfolding evict
  lookup-evict k zero max_sessions buffers h = refl
  lookup-evict k (suc rounds) max_sessions buffers h =
      elim (Bool-cases (ltb max_sessions (length buffers))) [
        | inr e ↦ rw e refl
        | inl e ↦ elim (Option-cases (victim clients buffers)) [
          | inl n ↦ rw (e, n) refl
          | inr (session, v) ↦
              rw (e, v)
                (lookup-evict k rounds max_sessions (erase session buffers) h
                  ∙ lookup-erase_ne session k buffers
                      (active_ne session k (victim-inactive buffers session v) h))
        ]
      ]

opened_anew :
    (session : Text) (s : Live)
    → lookup session s.session_buffers ≡ none
    → open_session_buffer session s
      ≡ ([], evict_lru (with_buffers s (s.session_buffers ++ (session, []) ∷ [])))
unfolding open_session_buffer opened
opened_anew session s h = rw h refl

lookup-evict_opened :
    (session k : Text) (s : Live)
    → (is_active s.sse_clients k ≡ false)
      ⊎ (text_eq session k ≡ true)
      ⊎ (lookup k
            (evict_lru (with_buffers s (s.session_buffers ++ (session, []) ∷ []))).session_buffers
          ≡ lookup k s.session_buffers)
unfolding evict_lru
lookup-evict_opened session k s =
    let buffers = s.session_buffers ++ (session, []) ∷ [] in
    elim (Bool-cases (is_active s.sse_clients k)) [
      | inr e ↦ inl e
      | inl h ↦ elim (Bool-cases (text_eq session k)) [
        | inl same ↦ inr (inl same)
        | inr n ↦ inr (
            inr (
              lookup-evict s.sse_clients k (length buffers) s.max_sessions buffers h
              ∙ lookup-append_ne session k [] s.session_buffers n))
      ]
    ]

-- When a session is opened that has no buffer yet, the sessions that are buffered afterwards are at
-- most as many as the limit, or each of them has a viewer; and another session keeps its buffer, unless
-- it has no viewer.
pub open_session_buffer-bound :
    (session k : Text) (s : Live)
    → lookup session s.session_buffers ≡ none
    → ((length (open_session_buffer session s).1.session_buffers ≤ s.max_sessions)
        ⊎ All
            (λ b. is_active s.sse_clients b.0 ≡ true)
            (open_session_buffer session s).1.session_buffers)
      × ((is_active s.sse_clients k ≡ false)
          ⊎ (text_eq session k ≡ true)
          ⊎ (lookup k (open_session_buffer session s).1.session_buffers
              ≡ lookup k s.session_buffers))
unfolding evict_lru
open_session_buffer-bound session k s e =
    let buffers = s.session_buffers ++ (session, []) ∷ [] in
    rw (opened_anew session s e) (
      evict-bound s.sse_clients (length buffers) s.max_sessions buffers (omega arith),
      lookup-evict_opened session k s,
    )

victim_last :
    (clients : List Viewer) (session : Text) (buffers : Dict (List Json))
    → All (λ b. is_active clients b.0 ≡ true) buffers
    → is_active clients session ≡ false
    → victim clients (buffers ++ (session, []) ∷ []) ≡ some session
unfolding victim
victim_last clients session [] h n = rw n refl
victim_last clients session (b ∷ buffers) h n = rw h.0 (victim_last clients session buffers h.1 n)

victim-AllActive :
    (clients : List Viewer) (buffers : Dict (List Json))
    → All (λ b. is_active clients b.0 ≡ true) buffers
    → victim clients buffers ≡ none
unfolding victim
victim-AllActive clients [] h = refl
victim-AllActive clients (b ∷ buffers) h = rw h.0 (victim-AllActive clients buffers h.1)

erase_last :
    (clients : List Viewer) (session : Text) (buffers : Dict (List Json))
    → All (λ b. is_active clients b.0 ≡ true) buffers
    → is_active clients session ≡ false
    → erase session (buffers ++ (session, []) ∷ []) ≡ buffers
unfolding erase
erase_last clients session [] h n = rw (text_eq_refl session) refl
erase_last clients session ((k, r) ∷ buffers) h n =
    ground (arith, text_eq_iff k session, erase_last clients session buffers h.1 n, h.0)

evict-AllActive :
    (clients : List Viewer) (rounds max_sessions : ℕ) (buffers : Dict (List Json))
    → All (λ b. is_active clients b.0 ≡ true) buffers
    → evict rounds max_sessions clients buffers ≡ buffers
unfolding evict
evict-AllActive clients zero max_sessions buffers h = refl
evict-AllActive clients (suc rounds) max_sessions buffers h =
    rw (victim-AllActive clients buffers h) (
      if_ind (λ (d : Dict (List Json)). d ≡ buffers) (ltb max_sessions (length buffers)) _ _
        (λ e. refl) (λ e. refl))

length-snoc :
    (session : Text) (buffers : Dict (List Json))
    → length (buffers ++ (session, []) ∷ []) ≡ suc (length buffers)
length-snoc session buffers = omega (arith, length-append buffers ((session, []) ∷ []))

evict_last :
    (clients : List Viewer) (session : Text) (rounds max_sessions : ℕ) (buffers : Dict (List Json))
    → All (λ b. is_active clients b.0 ≡ true) buffers
    → is_active clients session ≡ false
    → max_sessions ≤ length buffers
    → evict (suc rounds) max_sessions clients (buffers ++ (session, []) ∷ []) ≡ buffers
unfolding evict
evict_last clients session rounds max_sessions buffers h n full =
    let over : ltb max_sessions (length (buffers ++ (session, []) ∷ [])) ≡ true =
      rw (length-snoc session buffers) (ground arith) in
    rw (over, victim_last clients session buffers h n, erase_last clients session buffers h n)
      (evict-AllActive clients rounds max_sessions buffers h)

-- With a viewer on every buffered session and as many of them as the limit, a further session is opened
-- in vain: nothing is replayed, and the state is as it was before.
pub open_session_buffer-full :
    (session : Text) (s : Live)
    → All (λ b. is_active s.sse_clients b.0 ≡ true) s.session_buffers
    → s.max_sessions ≤ length s.session_buffers
    → is_active s.sse_clients session ≡ false
    → lookup session s.session_buffers ≡ none
    → open_session_buffer session s ≡ ([], s)
unfolding evict_lru
open_session_buffer-full session s h full n e =
    opened_anew session s e
    ∙ ap (λ (d : Dict (List Json)). ([], with_buffers s d))
        (ap
            (λ rounds.
              evict rounds s.max_sessions s.sse_clients (s.session_buffers ++ (session, []) ∷ []))
            (length-snoc session s.session_buffers)
          ∙ evict_last s.sse_clients session (length s.session_buffers) s.max_sessions
              s.session_buffers h n full)
