-- ===== src/Base/Digits.antt =====
-- `str(n)` and `f"{n:x}"`, and the number that digits stand for.
use Prim.Native.Nat.{ℕ, zero, suc, ◌+◌, ◌*◌, ◌/◌, ◌%◌, ◌-◌, ◌≤◌, ◌<◌}
use mathlib.Core.Path.{◌≡◌, refl, ap, ◌∙◌}
use mathlib.Core.Logic.{inl, inr}
use mathlib.Core.Bool.{false, ◌&&◌}
use mathlib.Core.List.{[], ◌∷◌, ◌++◌}
use mathlib.Core.Option.{Option, none, some}
use native.Mathlib.Omega.{arith}
use claude_tap.Base.Tests.{ltb, leb, if◌then◌else◌, bind, Bool-cases, if_ind}
use claude_tap.Base.Lists.{All, All-append}
use claude_tap.Base.Chars.{Text, has_char}

-- `0` to `9` and `a` to `f`.
unfoldable pub digit : ℕ → ℕ
digit d = if ltb d 10 then 48 + d else 87 + d

-- The digits of `n` to a base; `n` divisions are more than enough.
unfoldable pub digits_on : ℕ → (base n : ℕ) → Text
unfolding digit
digits_on zero base n = digit n ∷ []
digits_on (suc fuel) base n =
    let high = digits_on fuel base (n / base) in
    if ltb n base then digit n ∷ [] else high ++ digit (n % base) ∷ []

unfoldable pub decimal : ℕ → Text
unfolding digits_on
decimal n = digits_on n 10 n

unfoldable pub hexadecimal : ℕ → Text
unfolding digits_on
hexadecimal n = digits_on n 16 n

-- Reading digits.
unfoldable pub digit_value : ℕ → Option ℕ
digit_value c =
    if leb 48 c && leb c 57
    then some (c - 48)
    else if leb 97 c && leb c 102
    then some (c - 87)
    else none

unfoldable pub number_from : (base acc : ℕ) → Text → Option ℕ
unfolding digit_value
number_from base acc [] = some acc
number_from base acc (c ∷ s) = bind (digit_value c) λ d. number_from base (acc * base + d) s

digit_value-digit : (d : ℕ) → d < 16 → digit_value (digit d) ≡ some d
unfolding digit_value digit
digit_value-digit d h = ground arith

number_from-append :
    (base acc : ℕ) (s : Text) (d n : ℕ)
    → d < 16
    → number_from base acc s ≡ some n
    → number_from base acc (s ++ digit d ∷ []) ≡ some (n * base + d)
unfolding number_from
number_from-append base acc [] d n hd h = rw (digit_value-digit d hd) (cc)
number_from-append base acc (c ∷ s) d n hd h =
    go (digit_value c) h (λ a. number_from-append base a s d n hd)
  where
    go :
        (o : Option ℕ)
        → bind o (λ v. number_from base (acc * base + v) s) ≡ some n
        → ((a : ℕ)
            → number_from base a s ≡ some n
            → number_from base a (s ++ digit d ∷ []) ≡ some (n * base + d))
        → bind o (λ v. number_from base (acc * base + v) (s ++ digit d ∷ [])) ≡ some (n * base + d)
    go none e more = cc
    go (some v) e more = more (acc * base + v) e

-- The facts on division by a base.
record IsBase (base : ℕ) : Type 0 where
  small : base ≤ 16
  split : (n : ℕ) → (n / base) * base + n % base ≡ n
  rest : (n : ℕ) → n % base < base
  smaller : (fuel n : ℕ) → base ≤ n → n ≤ suc fuel → n / base ≤ fuel

ten-IsBase : IsBase 10
ten-IsBase = record {
  small = omega arith;
  split = λ n. omega arith;
  rest = λ n. omega arith;
  smaller = λ fuel n h k. omega arith;
}

sixteen-IsBase : IsBase 16
sixteen-IsBase = record {
  small = omega arith;
  split = λ n. omega arith;
  rest = λ n. omega arith;
  smaller = λ fuel n h k. omega arith;
}

module _ (base : ℕ) (b : IsBase base) where
  number_from-digits_on :
      (fuel n : ℕ) → n ≤ fuel → number_from base 0 (digits_on fuel base n) ≡ some n
  unfolding digits_on number_from
  number_from-digits_on zero n h =
      rw (digit_value-digit n (omega arith), number_from) (ap some (omega arith))
  number_from-digits_on (suc fuel) n h = elim (Bool-cases (ltb n base)) [
    | inl e ↦
        rw (e, digit_value-digit n (ground (arith, b.small)), number_from) (ap some (omega arith))
    | inr e ↦ rw e (
        number_from-append base 0 (digits_on fuel base (n / base)) (n % base) (n / base)
          (omega (arith, b.small, b.rest n))
          (number_from-digits_on fuel (n / base) (b.smaller fuel n (ground arith) h))
        ∙ ap some (b.split n))
  ]

  All-digits_on : (fuel n : ℕ) → n ≤ fuel → All (λ c. 48 ≤ c) (digits_on fuel base n)
  unfolding digits_on digit
  All-digits_on zero n h = (ground arith, tt)
  All-digits_on (suc fuel) n h =
      if_ind (All (λ (c : ℕ). 48 ≤ c)) (ltb n base) _ _ (λ e. (ground arith, tt))
        (λ e.
          All-append (λ c. 48 ≤ c) (digits_on fuel base (n / base)) (digit (n % base) ∷ [])
            (All-digits_on fuel (n / base) (b.smaller fuel n (ground arith) h)) (ground arith, tt))

has_char-All : (c : ℕ) (s : Text) → c < 48 → All (λ a. 48 ≤ a) s → has_char c s ≡ false
unfolding has_char
has_char-All c [] hc h = refl
has_char-All c (a ∷ s) hc h = ground (arith, h.0, has_char-All c s hc h.1)

unfoldable pub number_of : (base : ℕ) → Text → Option ℕ
unfolding number_from
number_of base [] = none
number_of base (c ∷ s) = number_from base 0 (c ∷ s)

digits_on-cons : (fuel base n : ℕ) → (c : ℕ) × (s : Text) × (digits_on fuel base n ≡ c ∷ s)
unfolding digits_on
digits_on-cons zero base n = (digit n, [], refl)
digits_on-cons (suc fuel) base n =
    if_ind (λ (t : Text). (c : ℕ) × (s : Text) × (t ≡ c ∷ s)) (ltb n base) _ _
      (λ e. (digit n, [], refl))
      (λ e.
        let (c, s, h) = digits_on-cons fuel base (n / base) in
        (c, s ++ digit (n % base) ∷ [], rw h refl))

number_of_from :
    (base n : ℕ) (t : Text)
    → ((c : ℕ) × (s : Text) × (t ≡ c ∷ s))
    → number_from base 0 t ≡ some n
    → number_of base t ≡ some n
unfolding number_of
number_of_from base n [] (c, s, e) h = cc
number_of_from base n (a ∷ t) e h = h

-- The digits of a number stand for it.
pub number_of-hexadecimal : (n : ℕ) → number_of 16 (hexadecimal n) ≡ some n
unfolding hexadecimal
number_of-hexadecimal n =
    number_of_from 16 n (digits_on n 16 n) (digits_on-cons n 16 n)
      (number_from-digits_on 16 sixteen-IsBase n n (omega arith))

pub number_of-decimal : (n : ℕ) → number_of 10 (decimal n) ≡ some n
unfolding decimal
number_of-decimal n =
    number_of_from 10 n (digits_on n 10 n) (digits_on-cons n 10 n)
      (number_from-digits_on 10 ten-IsBase n n (omega arith))

pub has_char-hexadecimal : (c n : ℕ) → c < 48 → has_char c (hexadecimal n) ≡ false
unfolding hexadecimal
has_char-hexadecimal c n h = has_char-All c _ h (All-digits_on 16 sixteen-IsBase n n (omega arith))

pub has_char-decimal : (c n : ℕ) → c < 48 → has_char c (decimal n) ≡ false
unfolding decimal
has_char-decimal c n h = has_char-All c _ h (All-digits_on 10 ten-IsBase n n (omega arith))
