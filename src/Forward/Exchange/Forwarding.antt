-- ===== src/Forward/Exchange/Forwarding.antt =====
-- claude_tap/forward_proxy.py: what a tunnelled request sends upstream.
use claude_tap.Base.{Text, refl, codes, All, All-insert, All-erase, Dict, text_eq, lower}
use claude_tap.Proxy.Headers.{named_in}
use claude_tap.Proxy.Handler.Forwarding.{IsForwardable, filtered-Forwardable}
use claude_tap.Forward.Exchange.{tunnel_headers}

pub tunnel_headers-Forwardable :
    (headers : Dict Text) → All (λ h. IsForwardable h.0) (tunnel_headers headers)
unfolding tunnel_headers named_in text_eq lower
tunnel_headers-Forwardable headers =
    All-insert IsForwardable (codes "Accept-Encoding") _ _ (refl, refl)
      (All-erase IsForwardable (codes "host") _
        (All-erase IsForwardable (codes "Host") _ (filtered-Forwardable headers)))
