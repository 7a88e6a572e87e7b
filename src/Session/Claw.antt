-- ===== src/Session/Claw.antt =====
-- claude_tap/claw_session.py. Header names are ASCII, for which `lower` is `str.lower`. `sha256`
-- is `hashlib.sha256(raw.encode()).hexdigest()`.
pub mod Headers
pub mod Slug
use claude_tap.Base.{
  ℕ, ◌-◌, Text, Bool, true, false, ◌||◌, ◌==◌, Option, none, some, List, [], ◌∷◌, ◌++◌,
  if◌then◌else◌, codes, text_eq, lower, strip, strip_by, is_alnum, is_nil, keep, not, take, length,
  ltb, Dict,
}

-- `CLAW_SESSION_HEADER`
abbrev pub claw_session_header : Text
claw_session_header = codes "claw-session-id"

abbrev pub is_claw_header : Text → Bool
is_claw_header k = text_eq (lower k) claw_session_header

abbrev pub non_empty : Text → Option Text
non_empty [] = none
non_empty (c ∷ s) = some (c ∷ s)

-- The first header of that name decides, also where it is blank.
unfoldable pub extract_claw_session_id : List (Text × Text) → Option Text
unfolding text_eq lower strip
extract_claw_session_id [] = none
extract_claw_session_id ((k, v) ∷ headers) =
    let rest = extract_claw_session_id headers in
    if is_claw_header k then non_empty (strip v) else rest

unfoldable pub strip_claw_session_header : Dict Text → Dict Text
unfolding keep text_eq lower
strip_claw_session_header headers = keep (λ h. not (is_claw_header h.0)) headers

-- A character that `[^a-zA-Z0-9._-]` does not match.
unfoldable pub is_slug_char : ℕ → Bool
unfolding is_alnum
is_slug_char c = is_alnum c || c == b'.' || c == b'_' || c == b'-'

-- `re.sub(r"[^a-zA-Z0-9._-]+", "_", s)`; the flag says that the character before was replaced.
unfoldable pub replace_runs : Bool → Text → Text
unfolding is_slug_char
replace_runs inside [] = []
replace_runs inside (c ∷ s) =
    let kept = c ∷ replace_runs false s in
    let first = b'_' ∷ replace_runs true s in
    let again = replace_runs true s in
    if is_slug_char c then kept else if inside then again else first

abbrev is_edge : ℕ → Bool
is_edge c = c == b'.' || c == b'_' || c == b'-'

abbrev pub or_session : Text → Text
or_session [] = codes "session"
or_session (c ∷ s) = c ∷ s

abbrev pub max_slug_len : ℕ
max_slug_len = 48

unfoldable pub sanitize_filename_suffix : (sha256 : Text → Text) → Text → Text
unfolding replace_runs strip strip_by
sanitize_filename_suffix sha256 raw =
    let compact = or_session (strip_by is_edge (replace_runs false (strip raw))) in
    if ltb max_slug_len (length compact)
    then take 35 compact ++ (b'_' ∷ take 12 (sha256 raw))
    else compact
