-- ===== src/Proxy/Handler/Forwarding.antt =====
-- claude_tap/proxy.py: what the proxy sends upstream.
use claude_tap.Base.{
  ℕ, ◌&&◌, ◌==◌, Text, Bool, true, false, not, Option, none, some, List, [], ◌∷◌, ◌≡◌, refl, sym,
  arith, codes, text_eq, if◌then◌else◌, keep, All, All-keep, All-keep_of, All-mono, All-insert,
  All-erase, Dict, insert, if_ind, subst, inl, inr, Option-cases, strip, is_nil, lower,
}
use claude_tap.Session.Claw.{is_claw_header, strip_claw_session_header}
use claude_tap.Session.Dispatcher.{Dispatcher}
use claude_tap.Upstream.Config.{Snapshot}
use claude_tap.Proxy.Headers.{
  is_hop, is_auth, filtered_value, filter_into, filter_headers, apply_gateway_auth_headers,
  named_in,
}
use claude_tap.Proxy.Messages.{
  World, Moment, Upstream, fixed, config, gateway, Request, Sent, Result, Answer, Fetched,
  unanswered, whole, broken,
}
use claude_tap.Proxy.Handler.{
  resolve_upstream, not_ready, apply_gateway_upstream_auth, without_encoding, forwarded_headers,
  exchange, answered, handled, broken_off, is_streaming, parse_body, after_turn, forward, sent_for,
  body_encodings, body_headers, handle_http, header_of,
}

-- Neither a hop-by-hop header nor the header of the session.
abbrev pub IsForwardable : Text → Type 0
IsForwardable k = (is_hop k ≡ false) × (is_claw_header k ≡ false)

abbrev AllForwardable : Dict Text → Type 0
AllForwardable headers = All (λ h. IsForwardable h.0) headers

filter_into-hop :
    (r : Bool) (out : Dict Text) (headers : List (Text × Text))
    → All (λ h. is_hop h.0 ≡ false) out
    → All (λ h. is_hop h.0 ≡ false) (filter_into r out headers)
unfolding filter_into
filter_into-hop r out [] h = h
filter_into-hop r out ((k, v) ∷ headers) h =
    filter_into-hop r (if is_hop k then out else insert k (filtered_value r k v) out) headers (
      if_ind (All (λ (e : Text × Text). is_hop e.0 ≡ false)) (is_hop k) _ _ (λ e. h)
        (λ e. All-insert (λ j. is_hop j ≡ false) k _ out e h))

All-both :
    (P Q : Text → Type 0) (d : Dict Text)
    → All (λ h. P h.0) d
    → All (λ h. Q h.0) d
    → All (λ h. P h.0 × Q h.0) d
All-both P Q [] hp hq = tt
All-both P Q (x ∷ d) hp hq = ((hp.0, hq.0), All-both P Q d hp.1 hq.1)

pub filtered-Forwardable :
    (headers : List (Text × Text))
    → AllForwardable (strip_claw_session_header (filter_headers false headers))
unfolding strip_claw_session_header filter_headers
filtered-Forwardable headers =
    let filtered = filter_into false [] headers in
    All-both (λ k. is_hop k ≡ false) (λ k. is_claw_header k ≡ false) _
      (All-keep_of (λ h. is_hop h.0 ≡ false) (λ h. not (is_claw_header h.0)) filtered
        (filter_into-hop false [] headers tt))
      (All-mono (λ h. not (is_claw_header h.0) ≡ true) (λ h. is_claw_header h.0 ≡ false)
        (λ h e. ground arith) _ (All-keep (λ h. not (is_claw_header h.0)) filtered))

gateway_auth-Forwardable :
    (client key : Text) (headers : Dict Text)
    → AllForwardable headers
    → AllForwardable (apply_gateway_auth_headers client key headers)
unfolding apply_gateway_auth_headers named_in text_eq lower
gateway_auth-Forwardable client key headers h =
    let kept = All-keep_of (λ h. IsForwardable h.0) (λ h. not (is_auth h.0)) headers h in
    if_ind AllForwardable (is_nil (strip key)) _ _ (λ e. h)
      λ e.
        if_ind AllForwardable (text_eq client (codes "claude")) _ _
          (λ t. All-insert IsForwardable (codes "x-api-key") _ _ (refl, refl) kept)
          (λ t. All-insert IsForwardable (codes "Authorization") _ _ (refl, refl) kept)

pub auth-Forwardable :
    (upstream : Upstream) (headers : Dict Text)
    → AllForwardable headers
    → AllForwardable (apply_gateway_upstream_auth upstream headers)
unfolding apply_gateway_upstream_auth
auth-Forwardable (fixed t p) headers h = h
auth-Forwardable (config s) headers h = h
auth-Forwardable (gateway s) headers h = elim (Option-cases s.runtime) [
  | inl e ↦ rw e h
  | inr (r, e) ↦ rw e (gateway_auth-Forwardable s.client r.api_key headers h)
]

encoding-Forwardable :
    (request : List (Text × Text)) (headers : Dict Text)
    → AllForwardable headers
    → AllForwardable (without_encoding request headers)
unfolding without_encoding
encoding-Forwardable request headers h =
    if_ind AllForwardable (named_in body_encodings (header_of (codes "content-encoding") request))
      (keep (λ h. not (named_in body_headers h.0)) headers) headers
      (λ e. All-keep_of (λ h. IsForwardable h.0) (λ h. not (named_in body_headers h.0)) headers h)
      (λ e. h)

forwarded_headers-Forwardable :
    (upstream : Upstream) (headers : List (Text × Text))
    → AllForwardable (forwarded_headers upstream headers)
unfolding forwarded_headers named_in text_eq lower
forwarded_headers-Forwardable upstream headers =
    All-insert IsForwardable (codes "Accept-Encoding") _ _ (refl, refl)
      (encoding-Forwardable headers _ (
        All-erase IsForwardable (codes "Host") _
          (auth-Forwardable upstream _ (filtered-Forwardable headers))))

-- What may be sent for a request, if anything is.
abbrev pub IsRightful : Request → Option Sent → Type 0
IsRightful q none = Unit
IsRightful q (some s) =
    (s.method ≡ q.method) × (s.body ≡ q.body) × All (λ h. IsForwardable h.0) s.headers

sent_for-Rightful :
    (upstream : Upstream) (q : Request) (up : Snapshot)
    → IsRightful q (some (sent_for upstream q up))
unfolding sent_for
sent_for-Rightful upstream q up = (refl, refl, forwarded_headers-Forwardable upstream q.headers)

broken_off-sent :
    (streamed lost : Bool) (a : Answer) (s : Sent) (d : Dispatcher) (r : Result)
    → r.sent ≡ some s
    → (broken_off streamed lost a s d r).sent ≡ some s
unfolding broken_off
broken_off-sent true true a s d r h = h
broken_off-sent true false a s d r h = refl
broken_off-sent false lost a s d r h = refl

answered-sent :
    (w : World) (m : Moment) (q : Request) (raw : Option Text) (up : Snapshot) (turn : ℕ) (s : Sent)
    (d : Dispatcher) (o : Fetched)
    → (answered w m q raw up turn s d o).sent ≡ some s
unfolding answered handled
answered-sent w m q raw up turn s d unanswered = refl
answered-sent w m q raw up turn s d (whole a) = refl
answered-sent w m q raw up turn s d (broken lost a) =
    broken_off-sent (is_streaming (parse_body w q.body) && a.status == 200) lost a s d
      (handled w m q raw up turn s d a) refl

module _ (w : World) (m : Moment) (upstream : Upstream) (q : Request) where
  after_turn-Rightful :
      (raw : Option Text) (up : Snapshot) (t : Option ℕ × Dispatcher)
      → IsRightful q (after_turn w m upstream q raw up t).sent
  unfolding after_turn exchange
  after_turn-Rightful raw up (none, d) = tt
  after_turn-Rightful raw up (some turn, d) =
      let s = sent_for upstream q up in
      subst (IsRightful q) (sym (answered-sent w m q raw up turn s d (w.answer s)))
        (sent_for-Rightful upstream q up)

  forward-Rightful :
      (up : Option Snapshot) (d : Dispatcher) → IsRightful q (forward w m upstream q up d).sent
  unfolding forward
  forward-Rightful none d = tt
  forward-Rightful (some up) d = after_turn-Rightful _ up _

  pub handle_http-Rightful : (d : Dispatcher) → IsRightful q (handle_http w m upstream q d).sent
  unfolding handle_http
  handle_http-Rightful d =
      if_ind (λ (r : Result). IsRightful q r.sent) (not_ready upstream) _ _ (λ n. tt)
        (λ n. forward-Rightful (resolve_upstream upstream) d)
