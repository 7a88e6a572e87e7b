-- ===== src/Upstream/Llm.antt =====
-- claude_tap/gateway_llm.py. A connection is the answers of its queries, `none` for no row; a
-- column may be null. `from_hex` is `bytes.fromhex`; `aes_open` is the decryption of AESGCM under
-- the digest of the cluster's id, as text. Model names and URLs are ASCII, for which `lower` is
-- `str.lower`.
pub mod Validity
use claude_tap.Base.{
  ℕ, Text, Bool, true, false, not, ◌||◌, ◌&&◌, Option, none, some, List, [], ◌∷◌, ◌++◌,
  if◌then◌else◌, codes, text_eq, strip, rstrip_char, starts_with, drop_prefix, has_part, is_nil,
  length, ltb, leb, lower, map, ◌==◌, bind, get_or, take, drop, Dict, lookup,
}
use claude_tap.Upstream.Config.{normalized}

-- `ActiveLlmRuntime`
pub record Runtime : Type 0 where
  pub model_id : Text
  pub model_rev : Text
  pub base_model_url : Text
  pub model_name : Text
  pub api_key : Text

unfoldable pub normalize_upstream_base_url : Text → Option Text
unfolding normalized starts_with
normalize_upstream_base_url raw =
    let s = normalized raw in
    if is_nil s || not (starts_with s (codes "http://") || starts_with s (codes "https://"))
    then none
    else some s

unfoldable pub normalize_model_name : Text → Option Text
unfolding strip
normalize_model_name raw =
    let s = strip raw in if is_nil s || ltb 256 (length s) then none else some s

-- `s.replace("_", "-")`
abbrev pub dashed : Text → Text
dashed s = map (λ c. if c == b'_' then b'-' else c) s

-- `mapped`, by the bare name in lower case with dashes.
abbrev pub mimo_name : (bare key : Text) → Text
mimo_name bare key =
    if text_eq key (codes "mimo-v2.5-pro")
    then codes "mimo-v2.5-pro"
    else if text_eq key (codes "mimo-v2.5")
    then codes "mimo-v2.5-pro"
    else if text_eq key (codes "mimo-v2.5-flash")
    then codes "mimo-v2.5-flash"
    else if text_eq key (codes "mimo-v2-pro")
    then codes "mimo-v2-pro"
    else bare

abbrev pub bare_name : Text → Text
unfolding drop_prefix
bare_name model = get_or (drop_prefix (codes "openai/") model) model

unfoldable pub for_upstream : (upstream model : Text) → Text
unfolding has_part lower text_eq drop_prefix
for_upstream upstream model =
    if has_part (codes "xiaomimimo") (lower upstream)
    then mimo_name (bare_name model) (dashed (lower (bare_name model)))
    else model

unfoldable pub normalize_model_name_for_upstream : (raw upstream : Text) → Option Text
unfolding normalize_model_name for_upstream
normalize_model_name_for_upstream raw upstream =
    bind (normalize_model_name raw) λ model. some (for_upstream upstream model)

abbrev pub runtime_with :
    (model_id model_rev api_key : Text) → (upstream model : Option Text) → Option Runtime
runtime_with model_id model_rev api_key (some (u ∷ us)) (some (m ∷ ms)) = some (record {
  model_id = model_id;
  model_rev = model_rev;
  base_model_url = u ∷ us;
  model_name = m ∷ ms;
  api_key = api_key;
})
runtime_with model_id model_rev api_key _ _ = none

-- `_runtime_from_revision`
unfoldable pub runtime_from_revision :
    (model_id model_rev base_model_url model_name api_key : Text) → Option Runtime
unfolding normalize_upstream_base_url normalize_model_name_for_upstream
runtime_from_revision model_id model_rev base_model_url model_name api_key =
    let upstream = normalize_upstream_base_url base_model_url in
    let model = normalize_model_name_for_upstream model_name (get_or upstream []) in
    runtime_with model_id model_rev api_key upstream model

-- A column that may be null, and a row of two or three of them.
abbrev pub Column : Type 0
Column = Option Text

-- `a or b or ""`
abbrev pub first_of : Column → Column → Text
first_of (some (c ∷ s)) other = c ∷ s
first_of _ other = get_or other []

-- The rows of the project's tables or of the cluster's tables, for one cluster and project.
pub record Tables : Type 0 where
  pub state : Option (Column × Column)
  pub revision : (model_id model_rev : Text) → Option (Column × Column)
  pub model : (model_id : Text) → Option (Column × Column × Column)

-- `gateway_global_settings`, with `llm_model_api_keys_json` read as a dict of texts.
pub record Legacy : Type 0 where
  pub settings : Option (Dict Text × Column × Column)
  pub revision : (model_id model_rev : Text) → Option (Column × Column)

pub record Database : Type 0 where
  pub project : (cluster_id : Text) → ℕ → Tables
  pub cluster : (cluster_id : Text) → Tables
  pub legacy : Legacy

abbrev pub stripped_column : Column → Text
unfolding strip
stripped_column c = strip (get_or c [])

-- `_llm_api_key_for`
abbrev key_at : Text → Dict Text → Text
unfolding lookup strip
key_at k keys = strip (get_or (lookup k keys) [])

unfoldable pub llm_api_key_for : Dict Text → (model_id model_rev : Text) → Text
unfolding key_at
llm_api_key_for keys model_id model_rev =
    let slot = key_at (model_id ++ (b'@' ∷ model_rev)) keys in
    if is_nil slot then key_at model_id keys else slot

unfoldable pub legacy_runtime : Legacy → Option Runtime
unfolding strip llm_api_key_for runtime_from_revision
legacy_runtime db = bind db.settings λ (keys, id_column, rev_column).
    let active_id = stripped_column id_column in
    let active_rev = stripped_column rev_column in
    if is_nil active_id || is_nil active_rev
    then none
    else bind (db.revision active_id active_rev) λ (url, name).
      runtime_from_revision active_id active_rev (get_or url []) (get_or name [])
        (llm_api_key_for keys active_id active_rev)

module _ (from_hex : Text → Option (List ℕ))
    (aes_open : Text → (nonce body : List ℕ) → Option Text) where
  -- The key as text, empty where the source has None.
  unfoldable pub decrypt_llm_api_key : (cluster_id stored : Text) → Text
  unfolding strip
  decrypt_llm_api_key cluster_id stored =
      if is_nil (strip stored) then [] else elim (from_hex (strip stored)) [
        | none ↦ []
        | some raw ↦
            if leb (length raw) 12
            then []
            else strip (get_or (aes_open (strip cluster_id) (take 12 raw) (drop 12 raw)) [])
      ]

  -- From the revision's row, and the model's row where there is one.
  unfoldable pub runtime_of_rows :
      (cluster_id active_id active_rev : Text)
      → Column × Column
      → Option (Column × Column × Column)
      → Option Runtime
  unfolding decrypt_llm_api_key runtime_from_revision
  runtime_of_rows cluster_id active_id active_rev (url, name) none =
      runtime_from_revision active_id active_rev (get_or url []) (get_or name []) []
  runtime_of_rows cluster_id active_id active_rev (url, name) (some (key, url', name')) =
      runtime_from_revision active_id active_rev (first_of url url') (first_of name name')
        (decrypt_llm_api_key cluster_id (get_or key []))

  -- The model that the state names, if it names one; `otherwise` if not.
  unfoldable pub runtime_of_state :
      (cluster_id : Text) → Tables → Option Runtime → Option (Column × Column) → Option Runtime
  unfolding strip runtime_of_rows
  runtime_of_state cluster_id db otherwise none = otherwise
  runtime_of_state cluster_id db otherwise (some (id_column, rev_column)) =
      let active_id = stripped_column id_column in
      let active_rev = stripped_column rev_column in
      if is_nil active_id || is_nil active_rev
      then otherwise
      else bind (db.revision active_id active_rev)
          λ row. runtime_of_rows cluster_id active_id active_rev row (db.model active_id)

  abbrev pub active_runtime : (cluster_id : Text) → Tables → Option Runtime → Option Runtime
  active_runtime cluster_id db otherwise = runtime_of_state cluster_id db otherwise db.state

  -- `load_active_project_llm_runtime_sync`
  unfoldable pub load_active_project_llm_runtime : Database → Text → ℕ → Option Runtime
  unfolding runtime_of_state strip
  load_active_project_llm_runtime db cluster proj_id =
      let cluster_id = strip cluster in
      if is_nil cluster_id || ltb proj_id 1
      then none
      else active_runtime cluster_id (db.project cluster_id proj_id) none

  -- `load_active_llm_runtime_sync`
  unfoldable pub load_active_llm_runtime : Database → Text → Option ℕ → Option Runtime
  unfolding load_active_project_llm_runtime runtime_of_state legacy_runtime strip
  load_active_llm_runtime db cluster proj_id =
      let cluster_id = strip cluster in
      let of_cluster =
        active_runtime cluster_id (db.cluster cluster_id) (legacy_runtime db.legacy) in
      if is_nil cluster_id then none else elim proj_id [
        | none ↦ of_cluster
        | some p ↦ if leb 1 p then load_active_project_llm_runtime db cluster_id p else of_cluster
      ]
