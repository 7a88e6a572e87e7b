-- ===== src/Base/Splitting.antt =====
-- `str.split`, and where a text with a separator is split.
use mathlib.Core.Path.{◌≡◌, refl, ap, subst}
use mathlib.Core.Bool.{Bool, true, false}
use mathlib.Core.List.{List, [], ◌∷◌, ◌++◌}
use mathlib.Core.Option.{Option, none, some}
use Prim.Native.Nat.{ℕ}
use native.Mathlib.Omega.{arith}
use claude_tap.Base.Tests.{if◌then◌else◌, ◌==◌, some_inj}
use claude_tap.Base.Chars.{Text, split_first, split_last, before, has_char}

abbrev pub onto_first : ℕ → List Text → List Text
onto_first c [] = (c ∷ []) ∷ []
onto_first c (s ∷ parts) = (c ∷ s) ∷ parts

-- `s.split(c)`
unfoldable pub split_all : ℕ → Text → List Text
split_all c [] = [] ∷ []
split_all c (a ∷ s) = let rest = split_all c s in if a == c then [] ∷ rest else onto_first a rest

pub split_first-append :
    (c : ℕ) (s t : Text) → has_char c s ≡ false → split_first c (s ++ c ∷ t) ≡ some (s, t)
unfolding split_first has_char
split_first-append c [] t h = ground arith
split_first-append c (a ∷ s) t h = ground (arith, split_first-append c s t)

split_last-none : (c : ℕ) (s : Text) → has_char c s ≡ false → split_last c s ≡ none
unfolding split_last has_char
split_last-none c [] h = refl
split_last-none c (a ∷ s) h = ground (arith, split_last-none c s)

pub split_last-append :
    (c : ℕ) (s t : Text) → has_char c t ≡ false → split_last c (s ++ c ∷ t) ≡ some (s, t)
unfolding split_last
split_last-append c [] t h = rw (split_last-none c t h) (ground arith)
split_last-append c (a ∷ s) t h = rw (split_last-append c s t h) refl

pub before-append : (c : ℕ) (s t : Text) → has_char c s ≡ false → before c (s ++ c ∷ t) ≡ s
unfolding before has_char
before-append c [] t h = ground arith
before-append c (a ∷ s) t h = ground (arith, before-append c s t)

pub has_char-append :
    (c : ℕ) (s t : Text) → has_char c s ≡ false → has_char c t ≡ false → has_char c (s ++ t) ≡ false
unfolding has_char
has_char-append c [] t hs ht = ht
has_char-append c (a ∷ s) t hs ht = ground (arith, has_char-append c s t)

-- What is split is the two parts around the separator.
pub split_first_sound : (c : ℕ) (s l r : Text) → split_first c s ≡ some (l, r) → s ≡ l ++ c ∷ r
unfolding split_first
split_first_sound c [] l r h = cc
split_first_sound c (a ∷ s) l r h =
    go (a == c) (split_first c s) (λ e. ground arith) (split_first_sound c s) h
  where
    go :
        (b : Bool) (o : Option (Text × Text))
        → (b ≡ true → a ≡ c)
        → ((l r : Text) → o ≡ some (l, r) → s ≡ l ++ c ∷ r)
        → if◌then◌else◌ {A = Option (Text × Text)} b
            (some ([], s))
            (elim o [ none ↦ none | some (x, y) ↦ some (a ∷ x, y) ])
          ≡ some (l, r)
        → a ∷ s ≡ l ++ c ∷ r
    go true o hb ho e =
        subst (λ (p : Text × Text). a ∷ s ≡ p.0 ++ c ∷ p.1) (some_inj e) (ap (λ x. x ∷ s) (hb refl))
    go false none hb ho e = cc
    go false (some (x, y)) hb ho e =
        subst (λ (p : Text × Text). a ∷ s ≡ p.0 ++ c ∷ p.1) (some_inj e)
          (ap {B = Text} (λ t. a ∷ t) (ho x y refl))
