-- ===== src/Base/Chars.antt =====
-- Text as a list of code points (or of bytes), with the `str` methods that the program uses.
use Prim.Native.Char.{code}
use Prim.Native.Nat.{ℕ, ◌+◌, ◌-◌}
use Prim.Native.String.{String}
use mathlib.Core.Path.{◌≡◌, refl}
use mathlib.Core.Logic.{◌↔◌}
use mathlib.Core.Bool.{Bool, true, false, ◌&&◌, ◌||◌}
use mathlib.Core.List.{List, [], ◌∷◌, ◌++◌, map, reverse}
use mathlib.Core.Option.{Option, none, some}
use native.Mathlib.Omega.{arith}
use claude_tap.Base.Tests.{leb, ◌==◌, if◌then◌else◌}

abbrev pub Text : Type 0
Text = List ℕ

-- A literal.
abbrev pub codes : String → Text
codes String.[] = []
codes (String.◌∷◌ c s) = code c ∷ codes s

unfoldable pub text_eq : Text → Text → Bool
text_eq [] [] = true
text_eq (a ∷ s) (b ∷ t) = a == b && text_eq s t
text_eq _ _ = false

pub text_eq_refl : (s : Text) → text_eq s s ≡ true
unfolding text_eq
text_eq_refl [] = refl
text_eq_refl (a ∷ s) = ground (arith, text_eq_refl s)

pub text_eq_sound : (s t : Text) → text_eq s t ≡ true → s ≡ t
unfolding text_eq
text_eq_sound [] [] h = refl
text_eq_sound [] (b ∷ t) h = cc
text_eq_sound (a ∷ s) [] h = cc
text_eq_sound (a ∷ s) (b ∷ t) h = ground (arith, text_eq_sound s t)

pub text_eq_iff : (s t : Text) → (text_eq s t ≡ true) ↔ (s ≡ t)
text_eq_iff s t = (text_eq_sound s t, λ e. rw e (text_eq_refl t))

abbrev within : ℕ → ℕ → ℕ → Bool
within lo hi c = leb lo c && leb c hi

-- `str.isspace` of one character.
unfoldable pub is_space : ℕ → Bool
is_space c =
    within 9 13 c
    || within 28 32 c
    || c == 133
    || c == 160
    || c == 5760
    || within 8192 8202 c
    || within 8232 8233 c
    || c == 8239
    || c == 8287
    || c == 12288

unfoldable pub is_alnum : ℕ → Bool
is_alnum c = within b'a' b'z' c || within b'A' b'Z' c || within b'0' b'9' c

-- `str.lower` on the letters of ASCII.
unfoldable pub lower_char : ℕ → ℕ
lower_char c = if within b'A' b'Z' c then c + 32 else c

unfoldable pub lower : Text → Text
unfolding lower_char
lower = map lower_char

-- `str.upper` on the letters of ASCII.
unfoldable pub upper_char : ℕ → ℕ
upper_char c = if within b'a' b'z' c then c - 32 else c

unfoldable pub upper : Text → Text
unfolding upper_char
upper = map upper_char

-- `str.lstrip` and `str.rstrip` of the characters that a test accepts.
unfoldable pub lstrip_by : (ℕ → Bool) → Text → Text
lstrip_by p [] = []
lstrip_by p (c ∷ s) = if p c then lstrip_by p s else c ∷ s

unfoldable pub rstrip_by : (ℕ → Bool) → Text → Text
unfolding lstrip_by
rstrip_by p s = reverse (lstrip_by p (reverse s))

unfoldable pub strip_by : (ℕ → Bool) → Text → Text
unfolding rstrip_by
strip_by p s = rstrip_by p (lstrip_by p s)

unfoldable pub strip : Text → Text
unfolding strip_by is_space
strip = strip_by is_space

unfoldable pub rstrip_char : ℕ → Text → Text
unfolding rstrip_by
rstrip_char c = rstrip_by (λ a. a == c)

unfoldable pub lstrip_char : ℕ → Text → Text
unfolding lstrip_by
lstrip_char c = lstrip_by (λ a. a == c)

-- `s[len(prefix):]` if `s` starts with `prefix`.
unfoldable pub drop_prefix : Text → Text → Option Text
drop_prefix [] s = some s
drop_prefix (a ∷ p) [] = none
drop_prefix (a ∷ p) (b ∷ s) = if a == b then drop_prefix p s else none

unfoldable pub starts_with : Text → Text → Bool
unfolding drop_prefix
starts_with s prefix = elim (drop_prefix prefix s) [ none ↦ false | some rest ↦ true ]

-- `part in s`.
unfoldable pub has_part : Text → Text → Bool
unfolding starts_with
has_part part [] = starts_with [] part
has_part part (c ∷ s) = starts_with (c ∷ s) part || has_part part s

unfoldable pub has_char : ℕ → Text → Bool
has_char c [] = false
has_char c (a ∷ s) = a == c || has_char c s

-- `s.split(c, 1)`: the parts before and after the first `c`, if there is one.
unfoldable pub split_first : ℕ → Text → Option (Text × Text)
split_first c [] = none
split_first c (a ∷ s) =
    if a == c
    then some ([], s)
    else elim (split_first c s) [ none ↦ none | some (l, r) ↦ some (a ∷ l, r) ]

-- `s.rsplit(c, 1)`: the parts before and after the last `c`, if there is one.
unfoldable pub split_last : ℕ → Text → Option (Text × Text)
split_last c [] = none
split_last c (a ∷ s) = elim (split_last c s) [
  | none ↦ if a == c then some ([], s) else none
  | some (l, r) ↦ some (a ∷ l, r)
]

-- `s.split(c, 1)[0]`.
unfoldable pub before : ℕ → Text → Text
before c [] = []
before c (a ∷ s) = if a == c then [] else a ∷ before c s

-- `sep.join(parts)`.
unfoldable pub join : Text → List Text → Text
join sep [] = []
join sep (s ∷ []) = s
join sep (s ∷ t ∷ rest) = s ++ (sep ++ join sep (t ∷ rest))

pub drop_prefix-append : (p s : Text) → drop_prefix p (p ++ s) ≡ some s
unfolding drop_prefix
drop_prefix-append [] s = refl
drop_prefix-append (a ∷ p) s = ground (arith, drop_prefix-append p s)

pub drop_prefix_sound : (p s r : Text) → drop_prefix p s ≡ some r → s ≡ p ++ r
unfolding drop_prefix
drop_prefix_sound [] s r h = cc
drop_prefix_sound (a ∷ p) [] r h = cc
drop_prefix_sound (a ∷ p) (b ∷ s) r h = ground (arith, drop_prefix_sound p s r)
