-- ===== src/Upstream/Gateway/Reloading.antt =====
-- claude_tap/gateway_upstream.py: reloading keeps the last model that was loaded.
use claude_tap.Base.{Text, Option, none, some, List, [], ◌∷◌, ◌≡◌, refl, is_some, ap, ◌∙◌}
use claude_tap.Upstream.Llm.{Runtime}
use claude_tap.Upstream.Gateway.{
  GatewayStore, new_gateway_store, snapshot_of, apply_runtime, reload_from_db, reload_all, is_ready,
}

-- A store of which runtime and snapshot belong together.
abbrev pub store_with : (client : Text) → Option Runtime → GatewayStore
store_with client none = new_gateway_store client
store_with client (some r) = record {
  client = client;
  runtime = some r;
  snapshot = some (snapshot_of client r);
}

-- The last fetch that gave a model.
unfoldable pub last_runtime : Option Runtime → List (Option Runtime) → Option Runtime
last_runtime r [] = r
last_runtime r (none ∷ rest) = last_runtime r rest
last_runtime r (some q ∷ rest) = last_runtime (some q) rest

apply-store_with :
    (client : Text) (q : Runtime) (r : Option Runtime)
    → apply_runtime q (store_with client r) ≡ store_with client (some q)
unfolding apply_runtime
apply-store_with client q none = refl
apply-store_with client q (some r) = refl

reload_all-store_with :
    (client : Text) (r : Option Runtime) (rest : List (Option Runtime))
    → reload_all rest (store_with client r) ≡ store_with client (last_runtime r rest)
unfolding reload_all reload_from_db last_runtime
reload_all-store_with client r [] = refl
reload_all-store_with client r (none ∷ rest) = reload_all-store_with client r rest
reload_all-store_with client r (some q ∷ rest) =
    rw (apply-store_with client q r) (reload_all-store_with client (some q) rest)

is_ready-store_with :
    (client : Text) (r : Option Runtime) → is_ready (store_with client r) ≡ is_some r
unfolding is_ready
is_ready-store_with client none = refl
is_ready-store_with client (some r) = refl

-- Whatever the database answers, the store holds the last model that was loaded, with the snapshot
-- of that model, and it is ready exactly if one was loaded: a fetch that fails loses nothing.
pub reload_all-last_runtime :
    (client : Text) (fetches : List (Option Runtime))
    → let s = reload_all fetches (new_gateway_store client) in
      (s ≡ store_with client (last_runtime none fetches))
      × (is_ready s ≡ is_some (last_runtime none fetches))
reload_all-last_runtime client fetches =
    let e = reload_all-store_with client none fetches in
    (e, ap is_ready e ∙ is_ready-store_with client (last_runtime none fetches))
