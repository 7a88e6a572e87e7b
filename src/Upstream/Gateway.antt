-- ===== src/Upstream/Gateway.antt =====
-- claude_tap/gateway_upstream.py: `GatewayLlmUpstreamStore`. What `_fetch` returns is an argument;
-- the database may change between two fetches.
pub mod Reloading
use claude_tap.Base.{
  ℕ, Text, Bool, true, false, not, ◌||◌, ◌&&◌, Option, none, some, List, [], ◌∷◌, text_eq, is_some,
  if◌then◌else◌,
}
use claude_tap.Upstream.Config.{Snapshot, strip_path_prefix_for}
use claude_tap.Upstream.Llm.{Runtime}

pub record GatewayStore : Type 0 where
  pub client : Text
  pub runtime : Option Runtime
  pub snapshot : Option Snapshot

abbrev pub new_gateway_store : (client : Text) → GatewayStore
new_gateway_store client = record { client = client; runtime = none; snapshot = none }

unfoldable pub is_ready : GatewayStore → Bool
is_ready s = is_some s.runtime && is_some s.snapshot

abbrev pub snapshot_of : (client : Text) → Runtime → Snapshot
unfolding strip_path_prefix_for
snapshot_of client r = record {
  target = r.base_model_url;
  strip_path_prefix = strip_path_prefix_for client r.base_model_url;
}

-- `_apply_runtime`
unfoldable pub apply_runtime : Runtime → GatewayStore → GatewayStore
apply_runtime r s = record s { runtime = some r; snapshot = some (snapshot_of s.client r) }

-- `load_initial`, `none` where it raises.
unfoldable pub load_initial : Option Runtime → GatewayStore → Option (Runtime × GatewayStore)
unfolding apply_runtime
load_initial none s = none
load_initial (some r) s = some (r, apply_runtime r s)

-- `previous`, `prev_key` and `prev_model`
abbrev previous_of : (Runtime → Text) → Option Runtime → Text
previous_of f none = []
previous_of f (some r) = f r

abbrev changed : (Runtime → Text) → Runtime → Option Runtime → Bool
unfolding text_eq
changed f r previous = not (text_eq (f r) (previous_of f previous))

unfoldable pub reload_from_db : Option Runtime → GatewayStore → Bool × GatewayStore
unfolding apply_runtime changed
reload_from_db none s = (false, s)
reload_from_db (some r) s = (
  changed (λ q. q.base_model_url) r s.runtime
      || changed (λ q. q.api_key) r s.runtime
      || changed (λ q. q.model_name) r s.runtime,
  apply_runtime r s,
)

-- The rounds of `poll_gateway_llm_upstream`.
unfoldable pub reload_all : List (Option Runtime) → GatewayStore → GatewayStore
unfolding reload_from_db
reload_all [] s = s
reload_all (fetched ∷ rest) s = reload_all rest (reload_from_db fetched s).1
