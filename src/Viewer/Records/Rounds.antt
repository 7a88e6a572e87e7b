-- ===== src/Viewer/Records/Rounds.antt =====
-- claude_tap/viewer.py, `_decode_bedrock_eventstream_events`: the loop over the frames ends.
use claude_tap.Base.{
  ℕ, zero, suc, ◌-◌, ◌≤◌, ◌<◌, Text, Option, some, List, [], ◌∷◌, ◌++◌, ◌≡◌, refl, ap, arith,
  length, drop, codes, starts_with, if_ind, some_inj, subst, Option-cases, inl, inr,
}
use claude_tap.Json.{Json}
use claude_tap.Viewer.Records.{find_frame, frame_event, decode_frames}

-- What is found is a part of the text, and not empty.
record IsPart (s : Text) (o : Option Text) : Type 0 where
  at : (t : Text) → o ≡ some t → (length t ≤ length s) × (0 < length t)

find_frame-IsPart : (s : Text) → IsPart s (find_frame s)
unfolding find_frame
find_frame-IsPart [] = record { at = λ t e. cc }
find_frame-IsPart (c ∷ s) =
    if_ind (IsPart (c ∷ s)) (starts_with (c ∷ s) (codes "{\"")) _ _
      (λ h. record {
        at = λ t e.
            subst (λ x. (length x ≤ suc (length s)) × (0 < length x)) (some_inj e)
              (omega arith, omega arith);
      })
      λ h. record {
        at = λ t e. let (le, pos) = (find_frame-IsPart s).at t e in (omega (arith, le), pos);
      }

length-drop : (n : ℕ) (s : Text) → length (drop n s) ≤ length s - n
length-drop zero s = omega arith
length-drop (suc n) [] = omega arith
length-drop (suc n) (c ∷ s) = omega (arith, length-drop n s)

module _ (loads_bytes : List ℕ → Option Json) (raw_decode : Text → Option (Json × ℕ))
    (b64decode : Text → Option (List ℕ))
    (ends : (t : Text) (frame : Json) (n : ℕ) → raw_decode t ≡ some (frame, n) → 1 ≤ n) where
  -- More rounds than there are characters change nothing, since a value takes a character at least.
  pub decode_frames-rounds :
      (n m : ℕ) (s : Text)
      → length s < n
      → length s < m
      → decode_frames loads_bytes raw_decode b64decode n s
        ≡ decode_frames loads_bytes raw_decode b64decode m s
  unfolding decode_frames
  decode_frames-rounds zero m s hn hm = absurd (omega arith)
  decode_frames-rounds (suc n) zero s hn hm = absurd (omega arith)
  decode_frames-rounds (suc n) (suc m) s hn hm = elim (Option-cases (find_frame s)) [
    | inl e ↦ rw (e, decode_frames) refl
    | inr (t, e) ↦
        let (le, given) = (find_frame-IsPart s).at t e in
        elim (Option-cases (raw_decode t)) [
          | inl f ↦
              rw (e, f, decode_frames)
                (decode_frames-rounds n m (drop 1 t) (omega (arith, length-drop 1 t, le, given))
                  (omega (arith, length-drop 1 t, le, given)))
          | inr ((frame, k), f) ↦
              let some_read = ends t frame k f in
              rw (e, f, decode_frames)
                (ap (λ events. frame_event loads_bytes raw_decode b64decode frame ++ events)
                  (decode_frames-rounds n m (drop k t)
                    (omega (arith, length-drop k t, le, given, some_read))
                    (omega (arith, length-drop k t, le, given, some_read))))
        ]
  ]
