-- ===== src/Command/Launch.antt =====
-- claude_tap/cli.py: the environment and the arguments of the client, in `run_client`, and the target
-- of Codex. An environment is a dict. `dumps` gives the text of `{"env": ...}` for a dict of
-- variables, by `json.dumps` without blanks.
use claude_tap.Base.{
  ℕ, Text, Bool, false, not, ◌&&◌, ◌||◌, Option, none, some, List, [], ◌∷◌, ◌++◌, codes, map,
  text_eq, if◌then◌else◌, is_nil, get_or, any, keep, strip, lower, join, split_all, starts_with,
  decimal, Dict, lookup, insert, erase,
}
use claude_tap.Json.{Json, obj, get, equals_text, null}

-- `ClientConfig`, without the label and the URL for its installation.
pub record ClientConfig : Type 0 where
  pub cmd : Text
  pub base_url_env : Text
  pub base_url_suffix : Text
  pub default_target : Text
  pub nesting_env_keys : List Text
  pub default_proxy_mode : Text

unfoldable pub reverse_base_url : ClientConfig → (port : ℕ) → Text
unfolding decimal
reverse_base_url cfg port = codes "http://127.0.0.1:" ++ decimal port ++ cfg.base_url_suffix

-- `CLIENT_CONFIGS`
abbrev pub client_configs : Dict ClientConfig
client_configs =
    (
      codes "claude",
      record {
        cmd = codes "claude";
        base_url_env = codes "ANTHROPIC_BASE_URL";
        base_url_suffix = [];
        default_target = codes "https://api.anthropic.com";
        nesting_env_keys = codes "CLAUDECODE" ∷ codes "CLAUDE_CODE_SSE_PORT" ∷ [];
        default_proxy_mode = codes "reverse";
      },
    )
    ∷ (
      codes "codex",
      record {
        cmd = codes "codex";
        base_url_env = codes "OPENAI_BASE_URL";
        base_url_suffix = codes "/v1";
        default_target = codes "https://api.openai.com";
        nesting_env_keys = [];
        default_proxy_mode = codes "reverse";
      },
    )
    ∷ (
      codes "opencode",
      record {
        cmd = codes "opencode";
        base_url_env = codes "ANTHROPIC_BASE_URL";
        base_url_suffix = [];
        default_target = codes "https://api.anthropic.com";
        nesting_env_keys = [];
        default_proxy_mode = codes "forward";
      },
    )
    ∷ (
      codes "cursor",
      record {
        cmd = codes "cursor-agent";
        base_url_env = codes "CURSOR_BASE_URL";
        base_url_suffix = [];
        default_target = codes "https://api2.cursor.sh";
        nesting_env_keys = [];
        default_proxy_mode = codes "forward";
      },
    )
    ∷ []

-- The entries of a list with commas.
unfoldable pub proxy_entries : Text → List Text
unfolding keep split_all strip
proxy_entries raw = keep (λ p. not (is_nil p)) (map strip (split_all b',' raw))

-- The values whose lower case has not been seen.
unfoldable pub merge_values : (seen : List Text) → List Text → List Text
unfolding any text_eq lower
merge_values seen [] = []
merge_values seen (v ∷ values) =
    let kept = merge_values (lower v ∷ seen) values in
    let passed = merge_values seen values in
    if any (text_eq (lower v)) seen then passed else v ∷ kept

unfoldable pub merged_no_proxy : Dict Text → List Text → List Text
unfolding proxy_entries merge_values lookup
merged_no_proxy env values = merge_values [] (
    proxy_entries (get_or (lookup (codes "NO_PROXY") env) [])
    ++ proxy_entries (get_or (lookup (codes "no_proxy") env) [])
    ++ values)

-- `_extend_no_proxy`
unfoldable pub extend_no_proxy : List Text → Dict Text → Dict Text
unfolding merged_no_proxy join insert
extend_no_proxy values env =
    let no_proxy = join (codes ",") (merged_no_proxy env values) in
    insert (codes "no_proxy") no_proxy (insert (codes "NO_PROXY") no_proxy env)

-- `_has_config_override`
unfoldable pub has_config_override : (key : Text) → List Text → Bool
unfolding text_eq starts_with
has_config_override key [] = false
has_config_override key (arg ∷ []) = starts_with arg (codes "--config=" ++ (key ++ codes "="))
has_config_override key (arg ∷ next ∷ args) =
    let later = has_config_override key args in
    let from_next = has_config_override key (next ∷ args) in
    if text_eq arg (codes "-c") || text_eq arg (codes "--config")
    then starts_with next (key ++ codes "=") || later
    else starts_with arg (codes "--config=" ++ (key ++ codes "=")) || from_next

abbrev pub proxy_names : List Text
proxy_names =
    codes "HTTP_PROXY"
    ∷ codes "HTTPS_PROXY"
    ∷ codes "ALL_PROXY"
    ∷ codes "http_proxy"
    ∷ codes "https_proxy"
    ∷ codes "all_proxy"
    ∷ []

unfoldable pub set_all : List Text → Text → Dict Text → Dict Text
unfolding insert
set_all [] value env = env
set_all (k ∷ names) value env = set_all names value (insert k value env)

abbrev pub cert_names : List Text
cert_names = codes "NODE_EXTRA_CA_CERTS" ∷ codes "SSL_CERT_FILE" ∷ codes "CODEX_CA_CERTIFICATE" ∷ []

abbrev set_all_if : List Text → Option Text → Dict Text → Dict Text
unfolding set_all
set_all_if names none env = env
set_all_if names (some value) env = set_all names value env

abbrev pub local_hosts : List Text
local_hosts = codes "localhost" ∷ codes "127.0.0.1" ∷ codes "::1" ∷ []

abbrev pub proxy_url : (port : ℕ) → Text
unfolding decimal
proxy_url port = codes "http://127.0.0.1:" ++ decimal port

unfoldable pub forward_env : (port : ℕ) → (ca_cert_path : Option Text) → Dict Text → Dict Text
unfolding set_all extend_no_proxy set_all_if proxy_url
forward_env port ca_cert_path env =
    set_all_if cert_names ca_cert_path
      (extend_no_proxy local_hosts (set_all proxy_names (proxy_url port) env))

unfoldable pub reverse_env : ClientConfig → (port : ℕ) → Dict Text → Dict Text
unfolding reverse_base_url insert
reverse_env cfg port env =
    insert (codes "NO_PROXY") (codes "127.0.0.1")
      (insert cfg.base_url_env (reverse_base_url cfg port) env)

unfoldable pub erase_all : List Text → Dict Text → Dict Text
unfolding erase
erase_all [] env = env
erase_all (k ∷ names) env = erase_all names (erase k env)

-- The environment of the client, in the mode `forward` or another.
unfoldable pub client_env :
    ClientConfig
    → (forward : Bool) → (port : ℕ) → (ca_cert_path : Option Text) → Dict Text
    → Dict Text
unfolding erase_all forward_env reverse_env
client_env cfg forward port ca_cert_path env =
    erase_all cfg.nesting_env_keys
      (if forward then forward_env port ca_cert_path env else reverse_env cfg port env)

unfoldable pub has_settings_arg : List Text → Bool
unfolding any text_eq starts_with
has_settings_arg args =
    any (λ a. text_eq a (codes "--settings") || starts_with a (codes "--settings=")) args

module _ (dumps : Dict Text → Text) where
  -- `["--settings", ...]` before the arguments, unless they have settings.
  unfoldable pub with_settings : Dict Text → List Text → List Text
  unfolding has_settings_arg
  with_settings settings args =
      if has_settings_arg args then args else codes "--settings" ∷ dumps settings ∷ args

  unfoldable pub forward_settings : (port : ℕ) → (ca_cert_path : Option Text) → Dict Text
  unfolding set_all set_all_if proxy_url
  forward_settings port ca_cert_path =
      set_all_if (codes "NODE_EXTRA_CA_CERTS" ∷ []) ca_cert_path
        (set_all proxy_names (proxy_url port) [])

  -- The arguments of the client.
  unfoldable pub client_args :
      (client : Text)
      → ClientConfig
      → (forward : Bool) → (port : ℕ) → (ca_cert_path : Option Text) → List Text
      → List Text
  unfolding text_eq with_settings forward_settings has_config_override reverse_base_url
  client_args client cfg forward port ca_cert_path args =
      let base_url = reverse_base_url cfg port in
      if text_eq client (codes "claude")
      then with_settings
          (if forward
            then forward_settings port ca_cert_path
            else (cfg.base_url_env, base_url) ∷ [])
          args
      else if text_eq client (codes "codex")
          && not forward
          && not (has_config_override (codes "openai_base_url") args)
      then codes "-c" ∷ (codes "openai_base_url=\"" ++ base_url ++ codes "\"") ∷ args
      else args

abbrev pub codex_chatgpt_target : Text
codex_chatgpt_target = codes "https://chatgpt.com/backend-api/codex"

-- `_detect_codex_target`, given the JSON of the file, `none` where it cannot be read or parsed.
unfoldable pub detect_codex_target : Option Json → Text
unfolding get
detect_codex_target (some (obj auth)) =
    if equals_text (get_or (get "auth_mode" auth) null) "chatgpt"
    then codex_chatgpt_target
    else codes "https://api.openai.com"
detect_codex_target _ = codes "https://api.openai.com"
