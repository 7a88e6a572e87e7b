-- ===== src/Proxy/Websocket/Filled.antt =====
-- claude_tap/proxy.py: a later WebSocket message does not blank a field that an earlier one filled.
use text.Mathlib.Text.{◌==◌ as str_eq}
use text.Mathlib.TextEquality.{eq_iff}
use claude_tap.Base.{
  Text, String, Bool, true, false, not, ◌||◌, Option, none, some, List, [], ◌∷◌, ◌++◌, ◌≡◌, refl,
  sym, arith, Bool-cases, Option-cases, inl, inr, if_ind,
}
use claude_tap.Json.{
  Json, null, bool, num, str, arr, obj, Items, nil, cons, Fields, end, field, truthy, get, set,
  set_default, has, get-set, to_list, of_list,
}
use claude_tap.Proxy.Websocket.{
  is_blank, set_if, merge_json_lists, merge_list_field, merge_request_field, merge_request,
  merge_message, request_body_from, reconstruct_ws_request_body,
}
use claude_tap.Proxy.Websocket.Merging.{merge_json_lists-IsMerge}

abbrev is_filled : Option Json → Bool
is_filled none = false
is_filled (some v) = not (is_blank v)

-- The object has a value under the key that is not blank.
unfoldable pub filled : String → Fields → Bool
unfolding get is_blank
filled k fs = is_filled (get k fs)

set-filled :
    (k j : String) (v : Json) (fs : Fields)
    → is_blank v ≡ false
    → filled k fs ≡ true
    → filled k (set j v fs) ≡ true
unfolding filled
set-filled k j v fs hv h = elim (Bool-cases (str_eq j k)) [
  | inl e ↦ rw (get-set j k v fs, e, is_filled, hv) refl
  | inr e ↦ rw (get-set j k v fs, e) h
]

set_default-filled :
    (k j : String) (v : Json) (fs : Fields)
    → filled k fs ≡ true
    → filled k (set_default j v fs) ≡ true
unfolding filled set_default has
set_default-filled k j v fs h = elim (Option-cases (get j fs)) [
  | inl e ↦ elim (Bool-cases (str_eq j k)) [
    | inl same ↦ absurd (cc (rw ((eq_iff j k).0 same) at e))
    | inr other ↦ rw (e, get-set j k v fs, other) h
  ]
  | inr (w, e) ↦ rw e h
]

set_if-filled :
    (b : Bool) (k j : String) (v : Json) (fs : Fields)
    → (b ≡ true → is_blank v ≡ false)
    → filled k fs ≡ true
    → filled k (set_if b j v fs) ≡ true
set_if-filled true k j v fs hv h = set-filled k j v fs (hv refl) h
set_if-filled false k j v fs hv h = set_default-filled k j v fs h

truthy-blank : (v : Json) → truthy v ≡ true → is_blank v ≡ false
unfolding truthy is_blank
truthy-blank null h = cc
truthy-blank (bool b) h = refl
truthy-blank (num z) h = refl
truthy-blank (str []) h = cc
truthy-blank (str (c ∷ s)) h = refl
truthy-blank (arr nil) h = cc
truthy-blank (arr (cons x xs)) h = refl
truthy-blank (obj end) h = cc
truthy-blank (obj (field k v fs)) h = refl

not-blank : (v : Json) → not (is_blank v) ≡ true → is_blank v ≡ false
not-blank v h = ground arith

-- The body that is there has a value under the key that is not blank.
abbrev pub body_filled : String → Option Fields → Bool
body_filled k none = false
body_filled k (some fs) = filled k fs

module _ (item_key : Json → Text) where
  merged-blank :
      (xs : Items) (ys : List Json)
      → is_blank (arr xs) ≡ false
      → is_blank (arr (of_list (merge_json_lists item_key (to_list xs) ys))) ≡ false
  unfolding is_blank to_list of_list
  merged-blank nil ys h = cc
  merged-blank (cons x xs) ys h =
      rw (merge_json_lists-IsMerge item_key (to_list (cons x xs)) ys).split refl

  old_list-blank :
      (k j : String) (xs : Items) (fs : Fields)
      → get j fs ≡ some (arr xs)
      → filled k fs ≡ true
      → str_eq j k ≡ true
      → is_blank (arr xs) ≡ false
  unfolding filled
  old_list-blank k j xs fs e h same = not-blank (arr xs) (rw (sym ((eq_iff j k).0 same), e) at h)

  set_apart-filled :
      (k j : String) (v : Json) (fs : Fields)
      → str_eq j k ≡ false
      → filled k fs ≡ true
      → filled k (set j v fs) ≡ true
  unfolding filled
  set_apart-filled k j v fs other h = rw (get-set j k v fs, other) h

  merge_list_field-filled :
      (k j : String) (old : Option Json) (new : Json) (fs : Fields)
      → get j fs ≡ old
      → filled k fs ≡ true
      → filled k (merge_list_field item_key j old new fs) ≡ true
  merge_list_field-filled k j (some (arr xs)) (arr ys) fs e h = elim (Bool-cases (str_eq j k)) [
    | inl same ↦
        set-filled k j _ fs (merged-blank xs (to_list ys) (old_list-blank k j xs fs e h same)) h
    | inr other ↦ set_apart-filled k j _ fs other h
  ]
  merge_list_field-filled k j old v fs e h = set_if-filled (truthy v) k j v fs (truthy-blank v) h

  merge_request_field-filled :
      (k j : String) (v : Json) (fs : Fields)
      → filled k fs ≡ true
      → filled k (merge_request_field item_key j v fs) ≡ true
  unfolding merge_request_field
  merge_request_field-filled k j v fs h =
      if_ind (λ x. filled k x ≡ true) (str_eq j "input" || str_eq j "tools") _ _
        (λ e. merge_list_field-filled k j (get j fs) v fs refl h)
        (λ e. set_if-filled (not (is_blank v)) k j v fs (not-blank v) h)

  merge_request-filled :
      (k : String) (merged fs : Fields)
      → filled k merged ≡ true
      → filled k (merge_request item_key merged fs) ≡ true
  unfolding merge_request
  merge_request-filled k merged end h = h
  merge_request-filled k merged (field j v fs) h =
      merge_request-filled k (merge_request_field item_key j v merged) fs
        (merge_request_field-filled k j v merged h)

  merge_message-filled :
      (k : String) (body : Option Fields) (msg : Option Json)
      → body_filled k body ≡ true
      → body_filled k (merge_message item_key body msg) ≡ true
  merge_message-filled k none msg h = cc
  merge_message-filled k (some fs) none h = h
  merge_message-filled k (some fs) (some (obj gs)) h = merge_request-filled k fs gs h
  merge_message-filled k (some fs) (some null) h = h
  merge_message-filled k (some fs) (some (bool b)) h = h
  merge_message-filled k (some fs) (some (num z)) h = h
  merge_message-filled k (some fs) (some (str t)) h = h
  merge_message-filled k (some fs) (some (arr xs)) h = h

  module _ (loads : Text → Option Json) where
    from-filled :
        (k : String) (body : Option Fields) (more : List Text)
        → body_filled k body ≡ true
        → body_filled k (request_body_from item_key loads body more) ≡ true
    unfolding request_body_from
    from-filled k body [] h = h
    from-filled k body (msg ∷ more) h =
        from-filled k (merge_message item_key body (loads msg)) more
          (merge_message-filled k body (loads msg) h)

    from-append :
        (body : Option Fields) (msgs more : List Text)
        → request_body_from item_key loads body (msgs ++ more)
          ≡ request_body_from item_key loads (request_body_from item_key loads body msgs) more
    unfolding request_body_from
    from-append body [] more = refl
    from-append body (msg ∷ msgs) more =
        from-append (merge_message item_key body (loads msg)) msgs more

    -- A field that the first messages fill is filled whatever messages follow, be they no JSON,
    -- no objects, or objects in which the field is blank.
    pub request_body-append-filled :
        (k : String) (msgs more : List Text)
        → body_filled k (reconstruct_ws_request_body item_key loads msgs) ≡ true
        → body_filled k (reconstruct_ws_request_body item_key loads (msgs ++ more)) ≡ true
    unfolding reconstruct_ws_request_body
    request_body-append-filled k msgs more h =
        rw (from-append none msgs more)
          (from-filled k (request_body_from item_key loads none msgs) more h)
