-- ===== src/Session/Claw/Headers.antt =====
-- claude_tap/claw_session.py: the session header is found in any casing, and taken out.
use claude_tap.Base.{
  Text, Bool, true, false, none, [], ◌∷◌, ◌≡◌, refl, arith, keep, Dict, Bool-cases, inl, inr,
}
use claude_tap.Session.Claw.{is_claw_header, extract_claw_session_id, strip_claw_session_header}

-- After the header is taken out, no session id is found.
pub extract-strip_header :
    (headers : Dict Text) → extract_claw_session_id (strip_claw_session_header headers) ≡ none
unfolding extract_claw_session_id strip_claw_session_header keep
extract-strip_header [] = refl
extract-strip_header ((k, v) ∷ headers) = elim (Bool-cases (is_claw_header k)) [
  | inl e ↦ rw e (extract-strip_header headers)
  | inr e ↦ rw (e, e) (extract-strip_header headers)
]

-- The headers of other names stay, in their order.
pub keep-strip_header :
    (p : Text → Bool) (headers : Dict Text)
    → ((k : Text) → is_claw_header k ≡ true → p k ≡ false)
    → keep (λ h. p h.0) (strip_claw_session_header headers) ≡ keep (λ h. p h.0) headers
unfolding strip_claw_session_header keep
keep-strip_header p [] h = refl
keep-strip_header p ((k, v) ∷ headers) h = elim (Bool-cases (is_claw_header k)) [
  | inl e ↦ rw (e, h k e) (keep-strip_header p headers h)
  | inr e ↦ ground (arith, keep-strip_header p headers h)
]
