-- ===== src/Proxy/Handler/Tracing.antt =====
-- claude_tap/proxy.py: what calls without a session leave in the dispatcher.
use claude_tap.Base.{Bool, true, false, ◌&&◌, ◌==◌, not, Option, none, some, ◌≡◌, refl, if_ind}
use claude_tap.Sse.{fresh, feed_all}
use claude_tap.Session.Claw.{extract_claw_session_id}
use claude_tap.Session.Dispatcher.{Dispatcher}
use claude_tap.Upstream.Config.{Snapshot}
use claude_tap.Proxy.Messages.{
  World, Moment, Upstream, Request, Sent, Answer, Result, Fetched, unanswered, whole, broken,
}
use claude_tap.Proxy.Handler.{
  resolve_upstream, not_ready, answered, handled, broken_off, is_streaming, parse_body, after_turn,
  exchange, forward, request_turn, trace, handle_http, sent_for, logged, usage_reads,
}

pub logged-same :
    (w : World) (streamed : Bool) (a : Answer) (d : Dispatcher)
    → (logged w streamed a (true, d) d).1 ≡ d
unfolding logged
logged-same w streamed a d =
    if_ind (λ (r : Bool × Dispatcher). r.1 ≡ d)
      (streamed && not (usage_reads (feed_all w.loads w.decode a.chunks fresh).snapshot)) _ _
      (λ e. refl) (λ e. refl)

broken_off-same :
    (streamed lost : Bool) (a : Answer) (s : Sent) (d : Dispatcher) (r : Result)
    → r.dispatcher ≡ d
    → (broken_off streamed lost a s d r).dispatcher ≡ d
unfolding broken_off
broken_off-same true true a s d r h = h
broken_off-same true false a s d r h = refl
broken_off-same false lost a s d r h = refl

module _ (w : World) (m : Moment) (upstream : Upstream) (q : Request) where
  handled-none :
      (up : Snapshot) (s : Sent) (d : Dispatcher) (a : Answer)
      → (handled w m q none up 0 s d a).dispatcher ≡ d
  unfolding handled trace
  handled-none up s d a = logged-same w _ a d

  answered-none :
      (up : Snapshot) (s : Sent) (d : Dispatcher) (o : Fetched)
      → (answered w m q none up 0 s d o).dispatcher ≡ d
  unfolding answered
  answered-none up s d unanswered = refl
  answered-none up s d (whole a) = handled-none up s d a
  answered-none up s d (broken lost a) =
      broken_off-same (is_streaming (parse_body w q.body) && a.status == 200) lost a s d
        (handled w m q none up 0 s d a) (handled-none up s d a)

  forward-untraced :
      (up : Option Snapshot) (d : Dispatcher)
      → extract_claw_session_id q.headers ≡ none
      → (forward w m upstream q up d).dispatcher ≡ d
  unfolding forward after_turn exchange request_turn
  forward-untraced none d h = refl
  forward-untraced (some up) d h =
      rw h (answered-none up (sent_for upstream q up) d (w.answer (sent_for upstream q up)))

  pub handle_http-untraced :
      (d : Dispatcher)
      → extract_claw_session_id q.headers ≡ none
      → (handle_http w m upstream q d).dispatcher ≡ d
  unfolding handle_http
  handle_http-untraced d h =
      if_ind (λ (r : Result). r.dispatcher ≡ d) (not_ready upstream) _ _ (λ n. refl)
        (λ n. forward-untraced (resolve_upstream upstream) d h)
