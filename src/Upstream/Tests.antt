-- ===== src/Upstream/Tests.antt =====
-- claude_tap/upstream_config.py, gateway_upstream.py and gateway_llm.py: runs of the theorems.
use claude_tap.Base.{
  ℕ, Text, true, Option, none, some, List, [], ◌∷◌, ◌≡◌, refl, codes, text_eq, if◌then◌else◌,
  is_some,
}
use claude_tap.Json.{Json, str, obj, end, field}
use claude_tap.Upstream.Config.{File, missing, file, new_store, reload, poll, snapshot_for}
use claude_tap.Upstream.Config.Polling.{last_target, poll-last_target}
use claude_tap.Upstream.Gateway.{new_gateway_store, reload_all, is_ready}
use claude_tap.Upstream.Gateway.Reloading.{store_with, last_runtime, reload_all-last_runtime}
use claude_tap.Upstream.Llm.{Runtime, Tables, Database, load_active_llm_runtime}
use claude_tap.Upstream.Llm.Validity.{IsUsable, load_active_llm_runtime-IsUsable}

-- One text is a configuration, and the others are no JSON.
abbrev config_loads : Text → Option Json
config_loads s =
    if text_eq s (codes "B")
    then some (obj (field "target" (str (codes " http://b/ ")) end))
    else none

abbrev text_stamped : ℕ → Option Text
text_stamped m = if text_eq (m ∷ []) (codes "1") then some (codes "B") else some (codes "broken")

-- A valid file, no file, and a broken one.
abbrev polls : List File
polls = file 49 (some (codes "B")) ∷ missing ∷ file 50 (some (codes "broken")) ∷ []

poll-last_target_example :
    (poll config_loads polls
      (reload config_loads true missing (new_store (codes "codex") (codes "http://a"))).1).snapshot
    ≡ snapshot_for
        (codes "codex")
        (last_target config_loads text_stamped (codes "http://a") (missing ∷ polls))
unfolding text_eq
poll-last_target_example =
    poll-last_target config_loads text_stamped (codes "codex") (codes "http://a") missing polls
      (tt, (refl, (tt, (refl, tt))))

abbrev small_model : Runtime
small_model = record {
  model_id = codes "m";
  model_rev = codes "1";
  base_model_url = codes "https://llm";
  model_name = codes "gpt";
  api_key = codes "k";
}

-- The database answers, fails, and fails again.
abbrev fetches : List (Option Runtime)
fetches = none ∷ some small_model ∷ none ∷ []

reload_all-last_runtime_example :
    (reload_all fetches (new_gateway_store (codes "claude"))
      ≡ store_with (codes "claude") (last_runtime none fetches))
    × (is_ready (reload_all fetches (new_gateway_store (codes "claude")))
        ≡ is_some (last_runtime none fetches))
reload_all-last_runtime_example = reload_all-last_runtime (codes "claude") fetches

abbrev no_hex : Text → Option (List ℕ)
no_hex s = none

abbrev no_aes : Text → (nonce body : List ℕ) → Option Text
no_aes c nonce body = none

abbrev one_model : Tables
one_model = record {
  state = some (some (codes "m"), some (codes "1"));
  revision = λ i r. some (some (codes "https://llm/"), some (codes " gpt "));
  model = λ i. none;
}

abbrev one_database : Database
one_database = record {
  project = λ c p. one_model;
  cluster = λ c. one_model;
  legacy = record { settings = none; revision = λ i r. none };
}

abbrev keyless_model : Runtime
keyless_model = record small_model { api_key = [] }

load_active_llm_runtime-IsUsable_example : IsUsable keyless_model
unfolding load_active_llm_runtime
load_active_llm_runtime-IsUsable_example =
    load_active_llm_runtime-IsUsable no_hex no_aes one_database (codes "c") (some 3) keyless_model
      refl
