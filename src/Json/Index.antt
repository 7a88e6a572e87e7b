-- ===== src/Json/Index.antt =====
-- Python's indexing of a list by a JSON value, and `+` on JSON values. `none` is the exception.
use Prim.Native.Nat.{ℕ, suc, ◌+◌, ◌-◌}
use Prim.Native.String.{String}
use claude_tap.Base.{true, false, Option, none, some, ltb, leb, if◌then◌else◌, ◌++◌}
use claude_tap.Json.Values.{Json, ℤ, pos, negsuc, num, bool, str, arr, obj, Items, nil, cons}
use claude_tap.Json.Objects.{set}
use claude_tap.Json.Arrays.{count, pad}

-- A value that is an `int`; `bool` is a subclass of `int`.
unfoldable pub as_int : Json → Option ℤ
as_int (num z) = some z
as_int (bool false) = some (pos 0)
as_int (bool true) = some (pos 1)
as_int _ = none

-- The position that `a[z]` reads, if it is in range.
unfoldable pub position : Items → ℤ → Option ℕ
unfolding count
position xs (pos n) = if ltb n (count xs) then some n else none
position xs (negsuc n) = if leb (suc n) (count xs) then some (count xs - suc n) else none

-- `while len(a) <= z: a.append(v)`.
unfoldable pub extend : ℤ → Json → Items → Items
unfolding pad
extend (pos n) v xs = pad (suc n) v xs
extend (negsuc n) v xs = xs

abbrev pub sub_ℕ : ℕ → ℕ → ℤ
sub_ℕ a b = if leb b a then pos (a - b) else negsuc (b - a - 1)

unfoldable pub ◌+ℤ◌ : ℤ → ℤ → ℤ
◌+ℤ◌ (pos a) (pos b) = pos (a + b)
◌+ℤ◌ (pos a) (negsuc b) = sub_ℕ a (suc b)
◌+ℤ◌ (negsuc a) (pos b) = sub_ℕ b (suc a)
◌+ℤ◌ (negsuc a) (negsuc b) = negsuc (suc (a + b))

unfoldable pub append_items : Items → Items → Items
append_items nil ys = ys
append_items (cons x xs) ys = cons x (append_items xs ys)

int_sum : Option ℤ → Option ℤ → Option Json
unfolding ◌+ℤ◌
int_sum (some a) (some b) = some (num (◌+ℤ◌ a b))
int_sum _ _ = none

-- `a + b`.
unfoldable pub plus : Json → Json → Option Json
unfolding as_int append_items int_sum
plus (str s) (str t) = some (str (s ++ t))
plus (arr xs) (arr ys) = some (arr (append_items xs ys))
plus a b = int_sum (as_int a) (as_int b)

-- `v[k] = w` on a value that may be no object.
unfoldable pub set_key : String → Json → Json → Option Json
unfolding set
set_key k w (obj fs) = some (obj (set k w fs))
set_key k w _ = none
