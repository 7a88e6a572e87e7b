-- ===== src/Proxy/Headers/Filtering.antt =====
-- claude_tap/proxy.py, `filter_headers`: what the filtered dict holds under each name.
use claude_tap.Base.{
  lower, any, ltb, ◌||◌, ◌&&◌, ◌++◌, Text, Bool, true, false, Option, none, some, List, [], ◌∷◌,
  ◌≡◌, refl, sym, codes, text_eq, text_eq_sound, if◌then◌else◌, Dict, lookup, insert, lookup-insert,
  Bool-cases, inl, inr, length, take,
}
use claude_tap.Proxy.Headers.{
  named_in, is_hop, is_auth, redact, filtered_value, filter_into, filter_headers,
}

-- The last value that a header list gives a name, `none` for a name it does not have.
unfoldable pub last_from : Text → Option Text → List (Text × Text) → Option Text
last_from k acc [] = acc
last_from k acc ((j, v) ∷ headers) = last_from k (if text_eq j k then some v else acc) headers

abbrev pub last_value : Text → List (Text × Text) → Option Text
last_value k headers = last_from k none headers

-- The names that concern one connection, and those of secrets, in any casing.
abbrev pub is_connection_name : Text → Bool
unfolding text_eq lower
is_connection_name k =
    let name = lower k in
    text_eq name (codes "connection")
    || (text_eq name (codes "keep-alive")
        || (text_eq name (codes "proxy-authenticate")
            || (text_eq name (codes "proxy-authorization")
                || (text_eq name (codes "te")
                    || (text_eq name (codes "trailers")
                        || (text_eq name (codes "transfer-encoding")
                            || (text_eq name (codes "upgrade") || false)))))))

abbrev pub is_secret_name : Text → Bool
unfolding text_eq lower
is_secret_name k =
    text_eq (lower k) (codes "x-api-key") || (text_eq (lower k) (codes "authorization") || false)

-- Twelve characters and dots of a longer secret, and nothing of another.
abbrev pub masked : Text → Text
masked v = if ltb 12 (length v) then take 12 v ++ codes "..." else codes "***"

-- A value as the filtered dict shows it.
abbrev pub shown : Bool → Text → Option Text → Option Text
shown redact_keys k none = none
shown redact_keys k (some v) = some (if redact_keys && is_secret_name k then masked v else v)

is_secret_name-is_auth : (k : Text) → is_secret_name k ≡ is_auth k
unfolding named_in any
is_secret_name-is_auth k = refl

filtered_value-masked :
    (r : Bool) (k v : Text) → filtered_value r k v ≡ (if r && is_secret_name k then masked v else v)
unfolding filtered_value redact named_in any
filtered_value-masked r k v = refl

is_hop-is_connection_name : (k : Text) → is_hop k ≡ is_connection_name k
unfolding named_in any
is_hop-is_connection_name k = refl

hop_ne : (j k : Text) → is_hop j ≡ true → is_hop k ≡ false → text_eq j k ≡ false
hop_ne j k hj hk = elim (Bool-cases (text_eq j k)) [
  | inl e ↦ absurd (cc (text_eq_sound j k e))
  | inr e ↦ e
]

shown-if :
    (r : Bool) (j k v : Text) (acc : Option Text)
    → (if text_eq j k then some (filtered_value r j v) else shown r k acc)
      ≡ shown r k (if text_eq j k then some v else acc)
shown-if r j k v acc = elim (Bool-cases (text_eq j k)) [
  | inl e ↦ rw (e, text_eq_sound j k e, filtered_value-masked r k v) refl
  | inr e ↦ rw e refl
]

lookup-filter_into :
    (r : Bool) (k : Text) (out : Dict Text) (acc : Option Text) (headers : List (Text × Text))
    → is_hop k ≡ false
    → lookup k out ≡ shown r k acc
    → lookup k (filter_into r out headers) ≡ shown r k (last_from k acc headers)
unfolding filter_into last_from
lookup-filter_into r k out acc [] hop h = h
lookup-filter_into r k out acc ((j, v) ∷ headers) hop h = elim (Bool-cases (is_hop j)) [
  | inl e ↦ rw (e, hop_ne j k e hop) (lookup-filter_into r k out acc headers hop h)
  | inr e ↦ rw e (
      lookup-filter_into r k (insert j (filtered_value r j v) out)
        (if text_eq j k then some v else acc) headers hop
        (rw (lookup-insert, h) (shown-if r j k v acc)))
]

lookup-filter_into_hop :
    (r : Bool) (k : Text) (out : Dict Text) (headers : List (Text × Text))
    → is_hop k ≡ true
    → lookup k out ≡ none
    → lookup k (filter_into r out headers) ≡ none
unfolding filter_into
lookup-filter_into_hop r k out [] hop h = h
lookup-filter_into_hop r k out ((j, v) ∷ headers) hop h = elim (Bool-cases (is_hop j)) [
  | inl e ↦ rw e (lookup-filter_into_hop r k out headers hop h)
  | inr e ↦
      let apart : text_eq j k ≡ false = elim (Bool-cases (text_eq j k)) [
        | inl same ↦ absurd (cc (text_eq_sound j k same))
        | inr other ↦ other
      ] in
      rw e (
        lookup-filter_into_hop r k (insert j (filtered_value r j v) out) headers hop
          (rw (lookup-insert, apart) h))
]

-- Under each name the filtered dict holds the last value that the request gave this name, redacted
-- where this is asked for and the name is that of a secret: to its first 12 characters and dots where it
-- is longer than that, and to asterisks otherwise. Under the name of a hop-by-hop header it holds
-- nothing.
pub lookup-filter_headers :
    (r : Bool) (k : Text) (headers : List (Text × Text))
    → lookup k (filter_headers r headers)
      ≡ (if is_connection_name k then none else shown r k (last_value k headers))
unfolding filter_headers lookup
lookup-filter_headers r k headers = elim (Bool-cases (is_hop k)) [
  | inl e ↦ rw (sym (is_hop-is_connection_name k), e) (lookup-filter_into_hop r k [] headers e refl)
  | inr e ↦
      rw (sym (is_hop-is_connection_name k), e) (lookup-filter_into r k [] none headers e refl)
]
