-- ===== src/Base/Stripping.antt =====
-- Facts on stripping: what is left does not begin or end with a stripped character.
use Prim.Native.Nat.{ℕ}
use mathlib.Core.Path.{◌≡◌, refl}
use mathlib.Core.Logic.{inl, inr}
use mathlib.Core.Bool.{Bool, false}
use mathlib.Core.List.{[], ◌∷◌, ◌++◌, reverse, reverse-reverse, reverse-cons, reverse-append}
use claude_tap.Base.Tests.{Bool-cases}
use claude_tap.Base.Lists.{All, All-append}
use claude_tap.Base.Chars.{Text, lstrip_by, rstrip_by, strip_by, strip, is_space}

-- The first character fails the test, or there is none.
abbrev pub Starts : (ℕ → Bool) → Text → Type 0
Starts p [] = Unit
Starts p (c ∷ s) = p c ≡ false

abbrev pub Ends : (ℕ → Bool) → Text → Type 0
Ends p s = Starts p (reverse s)

pub lstrip_by-Starts : (p : ℕ → Bool) (s : Text) → Starts p (lstrip_by p s)
unfolding lstrip_by
lstrip_by-Starts p [] = tt
lstrip_by-Starts p (c ∷ s) = elim (Bool-cases (p c)) [
  | inl e ↦ rw e (lstrip_by-Starts p s)
  | inr e ↦ rw e e
]

pub rstrip_by-Ends : (p : ℕ → Bool) (s : Text) → Ends p (rstrip_by p s)
unfolding rstrip_by
rstrip_by-Ends p s = rw reverse-reverse (lstrip_by-Starts p (reverse s))

-- A predicate on characters survives stripping.
pub All-lstrip_by : (P : ℕ → Type 0) (p : ℕ → Bool) (s : Text) → All P s → All P (lstrip_by p s)
unfolding lstrip_by
All-lstrip_by P p [] h = tt
All-lstrip_by P p (c ∷ s) h = elim (Bool-cases (p c)) [
  | inl e ↦ rw e (All-lstrip_by P p s h.1)
  | inr e ↦ rw e h
]

pub All-reverse : (P : ℕ → Type 0) (s : Text) → All P s → All P (reverse s)
All-reverse P [] h = tt
All-reverse P (c ∷ s) h =
    rw reverse-cons (All-append P (reverse s) (c ∷ []) (All-reverse P s h.1) (h.0, tt))

pub All-rstrip_by : (P : ℕ → Type 0) (p : ℕ → Bool) (s : Text) → All P s → All P (rstrip_by p s)
unfolding rstrip_by
All-rstrip_by P p s h = All-reverse P _ (All-lstrip_by P p (reverse s) (All-reverse P s h))

pub All-strip_by : (P : ℕ → Type 0) (p : ℕ → Bool) (s : Text) → All P s → All P (strip_by p s)
unfolding strip_by
All-strip_by P p s h = All-rstrip_by P p _ (All-lstrip_by P p s h)

-- Stripping on the right keeps the first character, unless everything goes.
lstrip_by-append_nil :
    (p : ℕ → Bool) (s : Text) (c : ℕ)
    → p c ≡ false
    → (r : Text) × (lstrip_by p (s ++ c ∷ []) ≡ r ++ c ∷ [])
unfolding lstrip_by
lstrip_by-append_nil p [] c h = ([], rw h)
lstrip_by-append_nil p (a ∷ s) c h = elim (Bool-cases (p a)) [
  | inl e ↦ rw e (lstrip_by-append_nil p s c h)
  | inr e ↦ rw e (a ∷ s, refl)
]

rstrip_by-cons :
    (p : ℕ → Bool) (c : ℕ) (s : Text) → p c ≡ false → (r : Text) × (rstrip_by p (c ∷ s) ≡ c ∷ r)
unfolding rstrip_by
rstrip_by-cons p c s h =
    let (r, e) = lstrip_by-append_nil p (reverse s) c h in
    (reverse r, rw (reverse-cons, e, reverse-append) refl)

pub rstrip_by-Starts : (p : ℕ → Bool) (s : Text) → Starts p s → Starts p (rstrip_by p s)
rstrip_by-Starts p [] h = unfold rstrip_by lstrip_by in tt
rstrip_by-Starts p (c ∷ s) h = let (r, e) = rstrip_by-cons p c s h in rw e h

-- `strip` leaves a text that neither begins nor ends with a stripped character.
pub strip_by-Starts : (p : ℕ → Bool) (s : Text) → Starts p (strip_by p s)
unfolding strip_by
strip_by-Starts p s = rstrip_by-Starts p _ (lstrip_by-Starts p s)

pub strip_by-Ends : (p : ℕ → Bool) (s : Text) → Ends p (strip_by p s)
unfolding strip_by
strip_by-Ends p s = rstrip_by-Ends p (lstrip_by p s)

pub Starts-append : (p : ℕ → Bool) (s t : Text) → Starts p s → Starts p t → Starts p (s ++ t)
Starts-append p [] t hs ht = ht
Starts-append p (c ∷ s) t hs ht = hs

pub Ends-append : (p : ℕ → Bool) (s t : Text) → Ends p s → Ends p t → Ends p (s ++ t)
Ends-append p s t hs ht = rw reverse-append (Starts-append p (reverse t) (reverse s) ht hs)

pub Starts-mono :
    (p q : ℕ → Bool) (s : Text) → ((c : ℕ) → p c ≡ false → q c ≡ false) → Starts p s → Starts q s
Starts-mono p q [] f h = tt
Starts-mono p q (c ∷ s) f h = f c h

pub lstrip_by_of_Starts : (p : ℕ → Bool) (s : Text) → Starts p s → lstrip_by p s ≡ s
unfolding lstrip_by
lstrip_by_of_Starts p [] h = refl
lstrip_by_of_Starts p (c ∷ s) h = rw h

pub rstrip_by_of_Ends : (p : ℕ → Bool) (s : Text) → Ends p s → rstrip_by p s ≡ s
unfolding rstrip_by
rstrip_by_of_Ends p s h = rw (lstrip_by_of_Starts p (reverse s) h) (reverse-reverse s)

-- Nothing to strip on either side.
abbrev pub IsClean : Text → Type 0
IsClean s = Starts is_space s × Ends is_space s

pub strip_of_IsClean : (s : Text) → IsClean s → strip s ≡ s
unfolding strip strip_by
strip_of_IsClean s h = rw (lstrip_by_of_Starts is_space s h.0) (rstrip_by_of_Ends is_space s h.1)

pub strip-space : (s : Text) → strip (32 ∷ s) ≡ strip s
unfolding strip strip_by lstrip_by is_space
strip-space s = refl

pub strip-IsClean : (s : Text) → IsClean (strip s)
unfolding strip
strip-IsClean s = (strip_by-Starts is_space s, strip_by-Ends is_space s)
