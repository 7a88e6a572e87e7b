-- ===== src/Proxy/Paths.antt =====
-- claude_tap/proxy.py: the path allowlist and the upstream URL.
use mathlib.Core.List.{append-nil, append_assoc}
use claude_tap.Base.{
  Text, Bool, true, ◌||◌, none, some, List, [], ◌∷◌, ◌++◌, ◌≡◌, refl, sym, ◌∙◌, codes, text_eq,
  text_eq_iff, any, starts_with, rstrip_char, lstrip_char, drop_prefix, drop_prefix_sound, before,
  Bool-cases, inl, inr, ◌⊎◌, Option-cases,
}

-- `ALLOWED_PATH_PREFIXES`
abbrev pub allowed_path_prefixes : List Text
allowed_path_prefixes =
    codes "/v1/messages"
    ∷ codes "/v1/complete"
    ∷ codes "/v1/responses"
    ∷ codes "/v1/chat/completions"
    ∷ codes "/v1/completions"
    ∷ codes "/v1/models"
    ∷ codes "/v1/embeddings"
    ∷ codes "/responses"
    ∷ codes "/chat/completions"
    ∷ codes "/completions"
    ∷ codes "/models"
    ∷ codes "/embeddings"
    ∷ []

abbrev pub clean_path : Text → Text
clean_path path = rstrip_char b'/' (before b'?' path)

abbrev under : Text → Text → Bool
under clean prefix = text_eq clean prefix || starts_with clean (prefix ++ codes "/")

unfoldable pub is_allowed_path : Text → Bool
unfolding any text_eq starts_with rstrip_char before
is_allowed_path path = any (under (clean_path path)) allowed_path_prefixes

-- A prefix of the list, and what may follow it: nothing, or a slash and more.
pub record IsUnder (clean prefix : Text) : Type 0 where
  pub rest : Text
  pub split : clean ≡ prefix ++ rest
  pub boundary : (rest ≡ []) ⊎ ((more : Text) × (rest ≡ b'/' ∷ more))

-- Some element satisfies a predicate.
abbrev pub Some : (Text → Type 0) → List Text → Type 0
Some P [] = ⊥
Some P (x ∷ xs) = P x ⊎ Some P xs

any-Some :
    (P : Text → Type 0) (p : Text → Bool) (xs : List Text)
    → ((x : Text) → p x ≡ true → P x)
    → any p xs ≡ true
    → Some P xs
unfolding any
any-Some P p [] f h = cc
any-Some P p (x ∷ xs) f h = elim (Bool-cases (p x)) [
  | inl e ↦ inl (f x e)
  | inr e ↦ inr (any-Some P p xs f (rw e at h))
]

under-IsUnder : (clean prefix : Text) → under clean prefix ≡ true → IsUnder clean prefix
unfolding starts_with
under-IsUnder clean prefix h = elim (Bool-cases (text_eq clean prefix)) [
  | inl e ↦ record {
    rest = [];
    split = (text_eq_iff clean prefix).0 e ∙ sym (append-nil prefix);
    boundary = inl refl;
  }
  | inr e ↦ elim (Option-cases (drop_prefix (prefix ++ codes "/") clean)) [
    | inl n ↦ absurd (cc (rw (e, starts_with, n) at h))
    | inr (more, m) ↦ record {
      rest = b'/' ∷ more;
      split = drop_prefix_sound (prefix ++ codes "/") clean more m ∙ append_assoc prefix _ more;
      boundary = inr (more, refl);
    }
  ]
]

-- A path that is let through, without its query and trailing slashes, is one of the listed
-- prefixes, or such a prefix followed by a slash and more.
pub is_allowed_path-IsUnder :
    (path : Text)
    → is_allowed_path path ≡ true
    → Some (IsUnder (clean_path path)) allowed_path_prefixes
unfolding is_allowed_path
is_allowed_path-IsUnder path h =
    any-Some (IsUnder (clean_path path)) (under (clean_path path)) allowed_path_prefixes
      (under-IsUnder (clean_path path)) h

-- The path that is forwarded: without the prefix to strip, `/` where nothing is left.
unfoldable pub forward_path : (strip_prefix path_qs : Text) → Text
unfolding drop_prefix
forward_path [] path_qs = path_qs
forward_path (c ∷ prefix) path_qs = elim (drop_prefix (c ∷ prefix) path_qs) [
  | none ↦ path_qs
  | some [] ↦ codes "/"
  | some (d ∷ rest) ↦ d ∷ rest
]

unfoldable pub upstream_url : (target strip_prefix path_qs : Text) → Text
unfolding forward_path rstrip_char lstrip_char
upstream_url target strip_prefix path_qs =
    rstrip_char b'/' target ++ (codes "/" ++ lstrip_char b'/' (forward_path strip_prefix path_qs))

-- `https://` and `http://` become `wss://` and `ws://`.
unfoldable pub websocket_url : Text → Text
unfolding drop_prefix
websocket_url url = elim (drop_prefix (codes "https://") url) [
  | some rest ↦ codes "wss://" ++ rest
  | none ↦ elim (drop_prefix (codes "http://") url) [
    | some rest ↦ codes "ws://" ++ rest
    | none ↦ url
  ]
]
