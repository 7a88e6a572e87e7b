-- ===== src/Proxy/Headers.antt =====
-- claude_tap/proxy.py, `filter_headers`, and claude_tap/gateway_upstream.py,
-- `apply_gateway_auth_headers`. Header names are ASCII. The items of the request's headers may
-- name one header twice; the result is a dict.
pub mod Filtering
pub mod Auth
use claude_tap.Base.{
  ℕ, Text, Bool, true, false, not, ◌||◌, ◌&&◌, List, [], ◌∷◌, ◌++◌, if◌then◌else◌, codes, text_eq,
  lower, strip, any, keep, take, length, ltb, Dict, insert, is_nil, String,
}

-- `HOP_BY_HOP`
abbrev pub hop_by_hop : List Text
hop_by_hop =
    codes "connection"
    ∷ codes "keep-alive"
    ∷ codes "proxy-authenticate"
    ∷ codes "proxy-authorization"
    ∷ codes "te"
    ∷ codes "trailers"
    ∷ codes "transfer-encoding"
    ∷ codes "upgrade"
    ∷ []

-- `k.lower() in names`.
unfoldable pub named_in : List Text → Text → Bool
unfolding any text_eq lower
named_in names k = any (text_eq (lower k)) names

abbrev pub is_hop : Text → Bool
is_hop = named_in hop_by_hop

-- `_AUTH_HEADER_NAMES`, and the names that `filter_headers` redacts.
abbrev pub auth_header_names : List Text
auth_header_names = codes "x-api-key" ∷ codes "authorization" ∷ []

abbrev pub is_auth : Text → Bool
is_auth = named_in auth_header_names

unfoldable pub redact : Text → Text
redact v = if ltb 12 (length v) then take 12 v ++ codes "..." else codes "***"

unfoldable pub filtered_value : Bool → Text → Text → Text
unfolding redact named_in
filtered_value redact_keys k v = if redact_keys && is_auth k then redact v else v

unfoldable pub filter_into : Bool → Dict Text → List (Text × Text) → Dict Text
unfolding filtered_value insert named_in
filter_into redact_keys out [] = out
filter_into redact_keys out ((k, v) ∷ headers) =
    filter_into redact_keys
      (if is_hop k then out else insert k (filtered_value redact_keys k v) out) headers

unfoldable pub filter_headers : Bool → List (Text × Text) → Dict Text
unfolding filter_into
filter_headers redact_keys headers = filter_into redact_keys [] headers

-- `apply_gateway_auth_headers`
unfoldable pub apply_gateway_auth_headers : (client api_key : Text) → Dict Text → Dict Text
unfolding keep strip insert named_in
apply_gateway_auth_headers client api_key headers =
    let key = strip api_key in
    let kept = keep (λ h. not (is_auth h.0)) headers in
    if is_nil key
    then headers
    else if text_eq client (codes "claude")
    then insert (codes "x-api-key") key kept
    else insert (codes "Authorization") (codes "Bearer " ++ key) kept
