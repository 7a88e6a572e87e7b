-- ===== src/Json/Arrays.antt =====
-- List operations on the items of an array.
use claude_tap.Base.{
  ℕ, ◌≢◌, zero, suc, ◌+◌, ◌-◌, ◌<◌, ◌≤◌, List, [], ◌∷◌, ◌≡◌, refl, ap, Option, none, some, arith,
}
use claude_tap.Json.Values.{Json, Items, nil, cons}

unfoldable pub count : Items → ℕ
count nil = 0
count (cons x xs) = suc (count xs)

-- `a[i]` inside the bounds.
unfoldable pub item? : Items → ℕ → Option Json
item? nil i = none
item? (cons x xs) zero = some x
item? (cons x xs) (suc i) = item? xs i

-- `a[i] = v` inside the bounds.
unfoldable pub put : Items → ℕ → Json → Items
put nil i v = nil
put (cons x xs) zero v = cons v xs
put (cons x xs) (suc i) v = cons x (put xs i v)

-- `a.append(v)`.
unfoldable pub snoc : Items → Json → Items
snoc nil v = cons v nil
snoc (cons x xs) v = cons x (snoc xs v)

-- `while len(a) < n: a.append(v)`: what is missing is appended.
unfoldable pub pad_by : ℕ → Json → Items → Items
unfolding snoc
pad_by zero v xs = xs
pad_by (suc n) v xs = pad_by n v (snoc xs v)

unfoldable pub pad : ℕ → Json → Items → Items
unfolding pad_by count
pad n v xs = pad_by (n - count xs) v xs

unfoldable pub to_list : Items → List Json
to_list nil = []
to_list (cons x xs) = x ∷ to_list xs

unfoldable pub of_list : List Json → Items
of_list [] = nil
of_list (x ∷ xs) = cons x (of_list xs)

pub count-snoc : (xs : Items) (v : Json) → count (snoc xs v) ≡ count xs + 1
unfolding count snoc
count-snoc nil v = omega arith
count-snoc (cons x xs) v = omega (arith, count-snoc xs v)

count-pad_by : (n : ℕ) (v : Json) (xs : Items) → count (pad_by n v xs) ≡ count xs + n
unfolding pad_by
count-pad_by zero v xs = omega arith
count-pad_by (suc n) v xs = omega (arith, count-pad_by n v (snoc xs v), count-snoc xs v)

pub le-count-pad : (n : ℕ) (v : Json) (xs : Items) → n ≤ count (pad n v xs)
unfolding pad
le-count-pad n v xs = omega (arith, count-pad_by (n - count xs) v xs)

pub count-put : (xs : Items) (i : ℕ) (v : Json) → count (put xs i v) ≡ count xs
unfolding count put
count-put nil i v = refl
count-put (cons x xs) zero v = refl
count-put (cons x xs) (suc i) v = ap suc (count-put xs i v)

pub item?-put_self : (xs : Items) (i : ℕ) (v : Json) → i < count xs → item? (put xs i v) i ≡ some v
unfolding item? put count
item?-put_self nil i v h = absurd (omega arith)
item?-put_self (cons x xs) zero v h = refl
item?-put_self (cons x xs) (suc i) v h = item?-put_self xs i v (omega arith)

item?-snoc_lt : (xs : Items) (v : Json) (i : ℕ) → i < count xs → item? (snoc xs v) i ≡ item? xs i
unfolding item? snoc count
item?-snoc_lt nil v i h = absurd (omega arith)
item?-snoc_lt (cons x xs) v zero h = refl
item?-snoc_lt (cons x xs) v (suc i) h = item?-snoc_lt xs v i (omega arith)

pub item?-put_ne : (xs : Items) (i j : ℕ) (v : Json) → i ≢ j → item? (put xs i v) j ≡ item? xs j
unfolding item? put
item?-put_ne nil i j v h = refl
item?-put_ne (cons x xs) zero zero v h = absurd (h refl)
item?-put_ne (cons x xs) zero (suc j) v h = refl
item?-put_ne (cons x xs) (suc i) zero v h = refl
item?-put_ne (cons x xs) (suc i) (suc j) v h = item?-put_ne xs i j v (λ e. h (ap suc e))

pub lt-count_of_item? : (xs : Items) (i : ℕ) (v : Json) → item? xs i ≡ some v → i < count xs
unfolding item? count
lt-count_of_item? nil i v h = cc
lt-count_of_item? (cons x xs) zero v h = omega arith
lt-count_of_item? (cons x xs) (suc i) v h = omega (arith, lt-count_of_item? xs i v h)
