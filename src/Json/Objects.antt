-- ===== src/Json/Objects.antt =====
-- Dict operations on the fields of an object.
use text.Mathlib.Text.{◌==◌ as str_eq}
use text.Mathlib.TextEquality.{eq_iff}
use text.Mathlib.TextPositions.{eq_refl}
use claude_tap.Base.{
  String, Bool, false, ◌≡◌, refl, Option, none, some, if◌then◌else◌, is_some, arith,
}
use claude_tap.Json.Values.{Json, obj, Fields, end, field}

-- `d.get(k)`, with `none` for a missing key.
unfoldable pub get : String → Fields → Option Json
get k end = none
get k (field j v fs) = if str_eq j k then some v else get k fs

-- `d[k] = v`.
unfoldable pub set : String → Json → Fields → Fields
set k v end = field k v end
set k v (field j w fs) = if str_eq j k then field j v fs else field j w (set k v fs)

-- `del d[k]`.
unfoldable pub remove : String → Fields → Fields
remove k end = end
remove k (field j v fs) = if str_eq j k then fs else field j v (remove k fs)

-- `k in d`.
unfoldable pub has : String → Fields → Bool
unfolding get
has k fs = is_some (get k fs)

-- `d.setdefault(k, v)`, as the dict after it.
unfoldable pub set_default : String → Json → Fields → Fields
unfolding has set
set_default k v fs = if has k fs then fs else set k v fs

-- `d.update(e)`.
unfoldable pub update : Fields → Fields → Fields
unfolding set
update fs end = fs
update fs (field k v gs) = update (set k v fs) gs

-- `v.get(k)` on a value that may be no object: `none` stands for the AttributeError too.
unfoldable pub at : String → Json → Option Json
unfolding get
at k (obj fs) = get k fs
at k _ = none

pub get-set :
    (k j : String) (v : Json) (fs : Fields)
    → get j (set k v fs) ≡ (if str_eq k j then some v else get j fs)
unfolding get set
get-set k j v end = refl
get-set k j v (field i w fs) = ground (arith, eq_iff k j, eq_iff i k, eq_iff i j, get-set k j v fs)

pub get-set_self : (k : String) (v : Json) (fs : Fields) → get k (set k v fs) ≡ some v
get-set_self k v fs = simp (get-set, eq_refl)

pub get-set_ne :
    (k j : String) (v : Json) (fs : Fields) → str_eq k j ≡ false → get j (set k v fs) ≡ get j fs
get-set_ne k j v fs h = rw (get-set, h)
