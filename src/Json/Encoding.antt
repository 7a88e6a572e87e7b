-- ===== src/Json/Encoding.antt =====
-- Which values can be written to a file as UTF-8: a text of Python may hold a lone surrogate, which has no
-- encoding.
use claude_tap.Base.{ℕ, Text, Bool, true, ◌&&◌, not, leb, any, codes}
use claude_tap.Json.Values.{
  Json, null, bool, num, str, arr, obj, Items, nil, cons, Fields, end, field,
}

-- U+D800 to U+DFFF.
abbrev pub is_surrogate : ℕ → Bool
is_surrogate c = leb 55296 c && leb c 57343

unfoldable pub encodes : Text → Bool
unfolding any
encodes s = not (any is_surrogate s)

-- The text that `json.dumps` gives with `ensure_ascii=False` can be encoded.
unfoldable mutual
  unfolding encodes

  pub is_encodable : Json → Bool
  is_encodable null = true
  is_encodable (bool b) = true
  is_encodable (num n) = true
  is_encodable (str s) = encodes s
  is_encodable (arr xs) = encodable_items xs
  is_encodable (obj fs) = encodable_fields fs

  pub encodable_items : Items → Bool
  encodable_items nil = true
  encodable_items (cons x xs) = is_encodable x && encodable_items xs

  pub encodable_fields : Fields → Bool
  encodable_fields end = true
  encodable_fields (field k v fs) = encodes (codes k) && (is_encodable v && encodable_fields fs)
