-- ===== src/Forward/Tunnel/Upstream.antt =====
-- claude_tap/forward_proxy.py, `_handle_tunneled_requests`: what a connection sends upstream.
use claude_tap.Base.{
  ℕ, Text, Bool, true, false, ◌||◌, ◌==◌, if◌then◌else◌, [], ◌∷◌, drop, ◌⊎◌, Option, some, List,
  ◌++◌, ◌≡◌, codes, All,
}
use claude_tap.Session.Dispatcher.{Dispatcher}
use claude_tap.Proxy.Messages.{Sent}
use claude_tap.Proxy.Handler.Forwarding.{IsForwardable}
use claude_tap.Forward.Tunnel.{Net, Served}

-- The characters that end the authority of a URL.
abbrev pub ends_authority : ℕ → Bool
ends_authority c = c == b'/' || (c == b'?' || c == b'#')

unfoldable pub until_end : Text → Text
until_end [] = []
until_end (c ∷ s) = let more = until_end s in if ends_authority c then [] else c ∷ more

-- The authority of a URL that begins with https://.
abbrev pub authority : Text → Text
unfolding until_end
authority url = until_end (drop 8 url)

-- A target that does not go on with the authority.
abbrev pub is_target : Text → Bool
is_target [] = true
is_target (c ∷ s) = ends_authority c

-- Under the tunnel's address, with neither a hop-by-hop header nor the header of the session.
pub record IsTunnelSent (address : Text) (s : Sent) : Type 0 where
  pub path : Text
  pub url : s.url ≡ codes "https://" ++ address ++ path
  pub host : (is_target path ≡ false) ⊎ (authority s.url ≡ address)
  pub headers : All (λ h. IsForwardable h.0) s.headers

module _ (net : Net) (address : Text) (plain : All (λ c. ends_authority c ≡ false) address) where
  abbrev AllSent : List Sent → Type 0
  AllSent sent = All (IsTunnelSent address) sent

  -- All that is sent, if the loop comes to an end.
  record Sends (o : Option Served) : Type 0 where
    at : (s : Served) → o ≡ some s → AllSent s.sent
