-- ===== src/Session/Trace.antt =====
-- claude_tap/trace.py: `TraceWriter`. The file is the list of records appended to it. `write`
-- holds the lock throughout, so it is one step; it returns the writer, and whether the encoding of the
-- record or the statistics raised, after which what was written before stays. `now` is `time.monotonic()`.
pub mod Counts
use claude_tap.Base.{
  ℕ, suc, ◌+◌, ◌-◌, Text, String, Bool, true, false, Option, none, some, List, [], ◌∷◌, ◌++◌,
  if◌then◌else◌, codes, text_eq, get_or, bind, ◌==◌, ltb, leb, ◌&&◌,
}
use claude_tap.Json.{
  Json, ℤ, pos, negsuc, null, bool, num, str, arr, obj, Fields, end, truthy, get, as_int, ◌+ℤ◌,
  is_encodable,
}

pub record Writer : Type 0 where
  pub path : Text
  pub is_open : Bool
  pub lines : List Json
  pub count : ℕ
  pub total_input_tokens : ℤ
  pub total_output_tokens : ℤ
  pub total_cache_read_tokens : ℤ
  pub total_cache_create_tokens : ℤ
  pub models_used : List (Json × ℕ)
  pub last_used : ℕ

-- The constructor opens the file for appending; `lines` is what is in it.
abbrev pub new_writer : Text → List Json → ℕ → Writer
new_writer path lines now = record {
  path = path;
  is_open = true;
  lines = lines;
  count = 0;
  total_input_tokens = pos 0;
  total_output_tokens = pos 0;
  total_cache_read_tokens = pos 0;
  total_cache_create_tokens = pos 0;
  models_used = [];
  last_used = now;
}

-- The outcome of code that changes the writer and may raise.
pub data Outcome : Type 0 where
  done : Writer → Outcome
  raised : Writer → Outcome

infixl 5 ◌>>=◌
abbrev pub ◌>>=◌ : Outcome → (Writer → Outcome) → Outcome
done w >>= f = f w
raised w >>= f = raised w

abbrev pub writer_of : Outcome → Writer
writer_of (done w) = w
writer_of (raised w) = w

unfoldable pub int_eq : ℤ → ℤ → Bool
int_eq (pos a) (pos b) = a == b
int_eq (negsuc a) (negsuc b) = a == b
int_eq _ _ = false

unfoldable pub same_int : Option ℤ → Option ℤ → Bool
unfolding int_eq
same_int (some a) (some b) = int_eq a b
same_int _ _ = false

-- Equality of two hashable values, as keys of a dict; `True` and 1 are one key.
unfoldable pub key_eq : Json → Json → Bool
unfolding text_eq same_int as_int
key_eq null null = true
key_eq (str s) (str t) = text_eq s t
key_eq a b = same_int (as_int a) (as_int b)

abbrev pub is_hashable : Json → Bool
is_hashable (arr xs) = false
is_hashable (obj fs) = false
is_hashable _ = true

-- `self.models_used[model] = self.models_used.get(model, 0) + 1`.
unfoldable pub add_model : Json → ℕ → List (Json × ℕ) → List (Json × ℕ)
unfolding key_eq
add_model model n [] = (model, n) ∷ []
add_model model n ((k, c) ∷ used) =
    if key_eq k model then (k, c + n) ∷ used else (k, c) ∷ add_model model n used

unfoldable pub count_model : Json → Writer → Outcome
unfolding add_model
count_model model w =
    if is_hashable model
    then done (record w { models_used = add_model model 1 w.models_used })
    else raised w

-- `record.get(part, {}).get("body", {})`.
unfoldable pub body_of : String → Fields → Option Json
unfolding get
body_of part fs = elim (get_or (get part fs) (obj end)) [
  | obj p ↦ some (get_or (get "body" p) (obj end))
  | _ ↦ none
]

abbrev pub field_or : String → Json → Json → Json
field_or k default (obj fs) = get_or (get k fs) default
field_or k default _ = default

-- The dict whose token counts are read: `usage`, or the body itself where there is none.
unfoldable pub usage_of : Json → Json
unfolding truthy get
usage_of (obj body) =
    let usage = get_or (get "usage" body) (obj end) in if truthy usage then usage else obj body
usage_of _ = obj end

-- `self.total += usage.get(key, 0)`, `put` writing the total.
unfoldable pub add_tokens :
    String → (Writer → ℤ) → (Writer → ℤ → Writer) → Fields → Writer → Outcome
unfolding get as_int ◌+ℤ◌
add_tokens key total put usage w = elim (as_int (get_or (get key usage) (num (pos 0)))) [
  | none ↦ raised w
  | some z ↦ done (put w (◌+ℤ◌ (total w) z))
]

abbrev pub add_input : Fields → Writer → Outcome
add_input =
    add_tokens "input_tokens" (λ v. v.total_input_tokens)
      (λ v z. record v { total_input_tokens = z })

abbrev pub add_output : Fields → Writer → Outcome
add_output =
    add_tokens "output_tokens" (λ v. v.total_output_tokens)
      (λ v z. record v { total_output_tokens = z })

abbrev pub add_cache_read : Fields → Writer → Outcome
add_cache_read =
    add_tokens "cache_read_input_tokens" (λ v. v.total_cache_read_tokens)
      (λ v z. record v { total_cache_read_tokens = z })

abbrev pub add_cache_create : Fields → Writer → Outcome
add_cache_create =
    add_tokens "cache_creation_input_tokens" (λ v. v.total_cache_create_tokens)
      (λ v z. record v { total_cache_create_tokens = z })

unfoldable pub add_usage : Json → Writer → Outcome
unfolding add_tokens
add_usage (obj usage) w =
    add_input usage w >>= add_output usage >>= add_cache_read usage >>= add_cache_create usage
add_usage _ w = raised w

unfoldable pub response_stats : Fields → Writer → Outcome
unfolding body_of usage_of add_usage
response_stats rec w = elim (body_of "response" rec) [
  | none ↦ raised w
  | some body ↦ add_usage (usage_of body) w
]

unfoldable pub update_stats : Fields → Writer → Outcome
unfolding body_of count_model response_stats
update_stats rec w = elim (body_of "request" rec) [
  | none ↦ raised w
  | some body ↦ count_model (field_or "model" (str (codes "unknown")) body) w >>= response_stats rec
]

-- The handle is opened if it was released. A record that cannot be encoded raises before anything of it
-- is in the file; one whose statistics raise leaves `_last_used` as it was.
unfoldable pub write : ℕ → Fields → Writer → Outcome
unfolding update_stats is_encodable
write now rec w =
    if is_encodable (obj rec)
    then (update_stats rec
          (record w { is_open = true; lines = w.lines ++ obj rec ∷ []; count = w.count + 1 })
        >>= (λ v. done (record v { last_used = now })))
    else raised (record w { is_open = true })

-- `release_fd`, `release_fd_async` and `close`.
abbrev pub release_fd : Writer → Writer
release_fd w = record w { is_open = false }

-- `idle_seconds >= limit` of a writer with an open file.
abbrev pub is_idle : (now limit : ℕ) → Writer → Bool
is_idle now limit w = w.is_open && leb limit (now - w.last_used)
