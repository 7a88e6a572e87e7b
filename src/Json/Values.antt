-- ===== src/Json/Values.antt =====
-- The type of JSON values, and the tests of Python on them.
use claude_tap.Base.{ℕ, String, Text, [], ◌∷◌, Bool, true, false, not, ◌==◌, text_eq, codes}

-- `negsuc n` is -(n + 1).
pub data ℤ : Type 0 where
  pos : ℕ → ℤ
  negsuc : ℕ → ℤ

mutual
  pub data Json : Type 0 where
    null : Json
    bool : Bool → Json
    num : ℤ → Json
    str : Text → Json
    arr : Items → Json
    obj : Fields → Json

  pub data Items : Type 0 where
    nil : Items
    cons : Json → Items → Items

  pub data Fields : Type 0 where
    end : Fields
    field : String → Json → Fields → Fields

-- Python's truth of a value.
unfoldable pub truthy : Json → Bool
truthy null = false
truthy (bool b) = b
truthy (num (pos n)) = not (n == 0)
truthy (num (negsuc n)) = true
truthy (str []) = false
truthy (str (c ∷ s)) = true
truthy (arr nil) = false
truthy (arr (cons x xs)) = true
truthy (obj end) = false
truthy (obj (field k v fs)) = true

abbrev pub is_obj : Json → Bool
is_obj (obj fs) = true
is_obj _ = false

abbrev pub is_str : Json → Bool
is_str (str s) = true
is_str _ = false

abbrev pub is_arr : Json → Bool
is_arr (arr xs) = true
is_arr _ = false

-- `v == "literal"`.
abbrev pub equals_text : Json → String → Bool
equals_text (str s) t = text_eq s (codes t)
equals_text _ t = false
