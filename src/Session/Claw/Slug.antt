-- ===== src/Session/Claw/Slug.antt =====
-- claude_tap/claw_session.py: a slug is a safe and short name of a directory.
use claude_tap.Base.{
  ℕ, ◌≤◌, ◌<◌, Text, Bool, true, false, [], ◌∷◌, ◌++◌, ◌≡◌, refl, arith, All, All-append, All-take,
  All-strip_by, length, length-append, length-take, take, ltb, if_ind, Starts, strip_by-Starts,
  strip, strip_by,
}
use claude_tap.Session.Claw.{
  sanitize_filename_suffix, replace_runs, is_slug_char, is_edge, or_session, max_slug_len,
}

-- A slug: characters that are letters, digits, `.`, `_` or `-`, at least one, at most 48;
-- it does not begin with `.`, so it is no hidden file and neither `.` nor `..`.
abbrev IsSlugChar : ℕ → Type 0
IsSlugChar c = is_slug_char c ≡ true

pub record IsSlug (s : Text) : Type 0 where
  pub chars : All IsSlugChar s
  pub not_empty : 0 < length s
  pub short : length s ≤ max_slug_len
  pub starts : Starts is_edge s

-- What the program relies on of a hex digest.
pub record IsDigest (sha256 : Text → Text) : Type 0 where
  pub hex : (raw : Text) → All IsSlugChar (sha256 raw)

replace_runs-All : (inside : Bool) (s : Text) → All IsSlugChar (replace_runs inside s)
unfolding replace_runs
replace_runs-All inside [] = tt
replace_runs-All inside (c ∷ s) =
    let safe = All IsSlugChar in
    if_ind safe (is_slug_char c) _ _ (λ e. (e, replace_runs-All false s))
      (λ _.
        if_ind safe inside _ _ (λ _. replace_runs-All true s)
          (λ _. (unfold is_slug_char in ground arith, replace_runs-All true s)))

or_session-All : (s : Text) → All IsSlugChar s → All IsSlugChar (or_session s)
or_session-All [] h = unfold is_slug_char in ground arith
or_session-All (c ∷ s) h = h

or_session_pos : (s : Text) → 0 < length (or_session s)
or_session_pos [] = omega arith
or_session_pos (c ∷ s) = omega arith

or_session-Starts : (s : Text) → Starts is_edge s → Starts is_edge (or_session s)
or_session-Starts [] h = refl
or_session-Starts (c ∷ s) h = h

abbrev compact_of : Text → Text
compact_of raw = or_session (strip_by is_edge (replace_runs false (strip raw)))

compact-All : (raw : Text) → All IsSlugChar (compact_of raw)
compact-All raw =
    or_session-All _ (All-strip_by IsSlugChar is_edge _ (replace_runs-All false (strip raw)))

compact-Starts : (raw : Text) → Starts is_edge (compact_of raw)
compact-Starts raw =
    or_session-Starts (strip_by is_edge (replace_runs false (strip raw)))
      (strip_by-Starts is_edge (replace_runs false (strip raw)))

length-take-le : (n : ℕ) (s : Text) → length (take n s) ≤ n
length-take-le n s = omega (arith, length-take n s)

underscore : IsSlugChar b'_'
unfolding is_slug_char
underscore = ground arith

-- The long form: 35 characters, `_` and 12 of the digest.
cut-IsSlug :
    (compact digest : Text)
    → All IsSlugChar compact
    → Starts is_edge compact
    → 0 < length compact
    → All IsSlugChar digest
    → IsSlug (take 35 compact ++ b'_' ∷ take 12 digest)
cut-IsSlug [] digest hc hs pos hd = absurd (omega arith)
cut-IsSlug (c ∷ s) digest hc hs pos hd = record {
  chars =
      All-append IsSlugChar (take 35 (c ∷ s)) (b'_' ∷ take 12 digest)
        (All-take IsSlugChar 35 (c ∷ s) hc) (underscore, All-take IsSlugChar 12 digest hd);
  not_empty = omega arith;
  short = omega (
    arith,
    length-append (take 35 (c ∷ s)) (b'_' ∷ take 12 digest),
    length-take-le 35 (c ∷ s),
    length-take-le 12 digest,
  );
  starts = hs;
}

-- Whatever the id, its slug has only safe characters, at least one and at most 48 of
-- them, and does not begin with `.`, `_` or `-`.
pub sanitize-IsSlug :
    (sha256 : Text → Text) (raw : Text)
    → IsDigest sha256
    → IsSlug (sanitize_filename_suffix sha256 raw)
unfolding sanitize_filename_suffix
sanitize-IsSlug sha256 raw d =
    let compact : Text = compact_of raw in
    if_ind IsSlug (ltb max_slug_len (length compact)) _ compact
      (λ _.
        cut-IsSlug compact (sha256 raw) (compact-All raw) (compact-Starts raw) (or_session_pos _)
          (d.hex raw))
      (λ h. record {
        chars = compact-All raw;
        not_empty = or_session_pos _;
        short = ground arith;
        starts = compact-Starts raw;
      })
