-- ===== src/Proxy/Headers/Auth.antt =====
-- claude_tap/gateway_upstream.py, `apply_gateway_auth_headers`: the client's keys do not go on.
use claude_tap.Base.{
  Text, true, false, not, [], ◌∷◌, ◌++◌, ◌≡◌, refl, ap, codes, text_eq, text_eq_sound,
  if◌then◌else◌, Dict, insert, keep, is_nil, strip, Bool-cases, inl, inr,
}
use claude_tap.Proxy.Headers.{is_auth, apply_gateway_auth_headers}

-- The one authentication header that the gateway sends.
abbrev pub gateway_header : (client api_key : Text) → Text × Text
gateway_header client api_key =
    if text_eq client (codes "claude")
    then (codes "x-api-key", strip api_key)
    else (codes "Authorization", codes "Bearer " ++ strip api_key)

abbrev pub auth_only : Dict Text → Dict Text
auth_only headers = keep (λ h. is_auth h.0) headers

abbrev pub others : Dict Text → Dict Text
others headers = keep (λ h. not (is_auth h.0)) headers

auth_only-insert :
    (k v : Text) (headers : Dict Text)
    → is_auth k ≡ true
    → auth_only (insert k v (others headers)) ≡ (k, v) ∷ []
unfolding keep insert
auth_only-insert k v [] h = rw h refl
auth_only-insert k v ((j, w) ∷ headers) h = elim (Bool-cases (is_auth j)) [
  | inl e ↦ rw e (auth_only-insert k v headers h)
  | inr e ↦ elim (Bool-cases (text_eq j k)) [
    | inl same ↦ absurd (cc (text_eq_sound j k same))
    | inr other ↦ rw (e, other, e) (auth_only-insert k v headers h)
  ]
]

others-insert :
    (k v : Text) (headers : Dict Text)
    → is_auth k ≡ true
    → others (insert k v (others headers)) ≡ others headers
unfolding keep insert
others-insert k v [] h = rw h refl
others-insert k v ((j, w) ∷ headers) h = elim (Bool-cases (is_auth j)) [
  | inl e ↦ rw e (others-insert k v headers h)
  | inr e ↦ elim (Bool-cases (text_eq j k)) [
    | inl same ↦ absurd (cc (text_eq_sound j k same))
    | inr other ↦ rw (e, other, e) (ap (λ x. (j, w) ∷ x) (others-insert k v headers h))
  ]
]

-- With a key that is not blank, the only authentication header left is the gateway's, and the other
-- headers stay as they are, in their order.
pub apply_gateway_auth_headers-Sole :
    (client api_key : Text) (headers : Dict Text)
    → is_nil (strip api_key) ≡ false
    → (auth_only (apply_gateway_auth_headers client api_key headers)
        ≡ gateway_header client api_key ∷ [])
      × (others (apply_gateway_auth_headers client api_key headers) ≡ others headers)
unfolding apply_gateway_auth_headers
apply_gateway_auth_headers-Sole client api_key headers h =
    elim (Bool-cases (text_eq client (codes "claude"))) [
      | inl e ↦
          rw (h, e)
            (
              auth_only-insert (codes "x-api-key") (strip api_key) headers refl,
              others-insert (codes "x-api-key") (strip api_key) headers refl,
            )
      | inr e ↦
          rw (h, e)
            (
              auth_only-insert (codes "Authorization") (codes "Bearer " ++ strip api_key) headers
                  refl,
              others-insert (codes "Authorization") (codes "Bearer " ++ strip api_key) headers refl,
            )
    ]
