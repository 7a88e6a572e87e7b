-- ===== src/Upstream/Llm/Validity.antt =====
-- claude_tap/gateway_llm.py: every model that is loaded has a usable URL and name.
use claude_tap.Base.{
  ℕ, ◌≤◌, Text, Bool, true, false, not, ◌||◌, Option, none, some, List, [], ◌∷◌, ◌≡◌, arith, codes,
  text_eq, starts_with, drop_prefix, drop_prefix_sound, length, length-append, ltb, is_nil, get_or,
  bind, some_inj, subst, if◌then◌else◌, if_ind, Option-cases, inl, inr, has_part, lower, strip, leb,
}
use claude_tap.Upstream.Config.{normalized}
use claude_tap.Upstream.Llm.{
  Runtime, normalize_upstream_base_url, normalize_model_name, mimo_name, bare_name, for_upstream,
  normalize_model_name_for_upstream, runtime_with, runtime_from_revision, Column, Tables, Database,
  Legacy, runtime_of_rows, runtime_of_state, dashed, stripped_column, first_of, decrypt_llm_api_key,
  llm_api_key_for, active_runtime, legacy_runtime, load_active_project_llm_runtime,
  load_active_llm_runtime,
}

-- A URL with a scheme of the web, and a model name of 1 to 256 characters.
pub record IsUsable (r : Runtime) : Type 0 where
  pub scheme :
      (starts_with r.base_model_url (codes "http://")
        || starts_with r.base_model_url (codes "https://"))
      ≡ true
  pub named : 1 ≤ length r.model_name
  pub bounded : length r.model_name ≤ 256

-- A result that is usable, if there is one.
record Usable (o : Option Runtime) : Type 0 where
  at : (r : Runtime) → o ≡ some r → IsUsable r

none-Usable : Usable none
none-Usable = record { at = λ r e. cc }

abbrev HasScheme : Option Text → Type 0
HasScheme none = Unit
HasScheme (some s) = (starts_with s (codes "http://") || starts_with s (codes "https://")) ≡ true

abbrev Short : Option Text → Type 0
Short none = Unit
Short (some s) = length s ≤ 256

url-HasScheme : (raw : Text) → HasScheme (normalize_upstream_base_url raw)
unfolding normalize_upstream_base_url
url-HasScheme raw =
    let s = normalized raw in
    let web = starts_with s (codes "http://") || starts_with s (codes "https://") in
    if_ind HasScheme (is_nil s || not web) _ _ (λ e. tt) (λ e. ground arith)

name-Short : (raw : Text) → Short (normalize_model_name raw)
unfolding normalize_model_name
name-Short raw =
    let s = strip raw in
    if_ind Short (is_nil s || ltb 256 (length s)) _ _ (λ e. tt) (λ e. ground arith)

bare_name-Short : (model : Text) → length (bare_name model) ≤ length model
unfolding drop_prefix
bare_name-Short model = elim (Option-cases (drop_prefix (codes "openai/") model)) [
  | inl e ↦ rw e (omega arith)
  | inr (rest, e) ↦ rw e (
      rw (drop_prefix_sound (codes "openai/") model rest e)
        (omega (arith, length-append (codes "openai/") rest)))
]

mimo_name-Short : (bare key : Text) → length bare ≤ 256 → length (mimo_name bare key) ≤ 256
mimo_name-Short bare key h =
    let P = λ (s : Text). length s ≤ 256 in
    if_ind P (text_eq key (codes "mimo-v2.5-pro")) _ _ (λ e. omega arith)
      λ e.
        if_ind P (text_eq key (codes "mimo-v2.5")) _ _ (λ e. omega arith)
          λ e.
            if_ind P (text_eq key (codes "mimo-v2.5-flash")) _ _ (λ e. omega arith)
              λ e. if_ind P (text_eq key (codes "mimo-v2-pro")) _ _ (λ e. omega arith) λ e. h

for_upstream-Short :
    (upstream model : Text) → length model ≤ 256 → length (for_upstream upstream model) ≤ 256
unfolding for_upstream
for_upstream-Short upstream model h =
    if_ind (λ (s : Text). length s ≤ 256) (has_part (codes "xiaomimimo") (lower upstream)) _ _
      (λ e.
        mimo_name-Short (bare_name model) (dashed (lower (bare_name model)))
          (omega (arith, bare_name-Short model)))
      (λ e. h)

model-Short : (raw upstream : Text) → Short (normalize_model_name_for_upstream raw upstream)
unfolding normalize_model_name_for_upstream
model-Short raw upstream = go (normalize_model_name raw) (name-Short raw)
  where
    go : (o : Option Text) → Short o → Short (bind o λ model. some (for_upstream upstream model))
    go none h = tt
    go (some model) h = for_upstream-Short upstream model h

runtime_with-Usable :
    (model_id model_rev api_key : Text) (upstream model : Option Text)
    → HasScheme upstream
    → Short model
    → Usable (runtime_with model_id model_rev api_key upstream model)
runtime_with-Usable i r k none model hu hm = none-Usable
runtime_with-Usable i r k (some []) model hu hm = none-Usable
runtime_with-Usable i r k (some (u ∷ us)) none hu hm = none-Usable
runtime_with-Usable i r k (some (u ∷ us)) (some []) hu hm = none-Usable
runtime_with-Usable i r k (some (u ∷ us)) (some (m ∷ ms)) hu hm = record {
  at = λ q e.
      subst IsUsable (some_inj e) (record { scheme = hu; named = omega arith; bounded = hm });
}

revision-Usable :
    (model_id model_rev url name api_key : Text)
    → Usable (runtime_from_revision model_id model_rev url name api_key)
unfolding runtime_from_revision
revision-Usable i r url name k =
    runtime_with-Usable i r k (normalize_upstream_base_url url)
      (normalize_model_name_for_upstream name (get_or (normalize_upstream_base_url url) []))
      (url-HasScheme url) (model-Short name (get_or (normalize_upstream_base_url url) []))

bind-Usable {ℓ} :
    {A : Type ℓ} (o : Option A) (f : A → Option Runtime)
    → ((a : A) → Usable (f a))
    → Usable (bind o f)
bind-Usable none f h = none-Usable
bind-Usable (some a) f h = h a

guard-Usable : (b : Bool) (x y : Option Runtime) → Usable x → Usable y → Usable (if b then x else y)
guard-Usable true x y hx hy = hx
guard-Usable false x y hx hy = hy

legacy-Usable : (db : Legacy) → Usable (legacy_runtime db)
unfolding legacy_runtime
legacy-Usable db = bind-Usable db.settings _ λ (keys, id_column, rev_column).
    let active_id = stripped_column id_column in
    let active_rev = stripped_column rev_column in
    guard-Usable (is_nil active_id || is_nil active_rev) none _ none-Usable (
      bind-Usable (db.revision active_id active_rev) _ λ (url, name).
        revision-Usable active_id active_rev (get_or url []) (get_or name [])
          (llm_api_key_for keys active_id active_rev))

module _ (from_hex : Text → Option (List ℕ))
    (aes_open : Text → (nonce body : List ℕ) → Option Text) where
  rows-Usable :
      (cluster_id active_id active_rev : Text) (row : Column × Column)
      (model : Option (Column × Column × Column))
      → Usable (runtime_of_rows from_hex aes_open cluster_id active_id active_rev row model)
  unfolding runtime_of_rows
  rows-Usable c i r (url, name) none = revision-Usable i r (get_or url []) (get_or name []) []
  rows-Usable c i r (url, name) (some (key, url', name')) =
      revision-Usable i r (first_of url url') (first_of name name')
        (decrypt_llm_api_key from_hex aes_open c (get_or key []))

  state-Usable :
      (cluster_id : Text) (db : Tables) (otherwise : Option Runtime)
      (state : Option (Column × Column))
      → Usable otherwise
      → Usable (runtime_of_state from_hex aes_open cluster_id db otherwise state)
  unfolding runtime_of_state
  state-Usable c db otherwise none h = h
  state-Usable c db otherwise (some (id_column, rev_column)) h =
      let active_id = stripped_column id_column in
      let active_rev = stripped_column rev_column in
      guard-Usable (is_nil active_id || is_nil active_rev) otherwise _ h (
        bind-Usable (db.revision active_id active_rev) _
          λ row. rows-Usable c active_id active_rev row (db.model active_id))

  project-Usable :
      (db : Database) (cluster : Text) (proj_id : ℕ)
      → Usable (load_active_project_llm_runtime from_hex aes_open db cluster proj_id)
  unfolding load_active_project_llm_runtime
  project-Usable db cluster proj_id =
      let tables = db.project (strip cluster) proj_id in
      guard-Usable (is_nil (strip cluster) || ltb proj_id 1) none _ none-Usable
        (state-Usable (strip cluster) tables none tables.state none-Usable)

  cluster-Usable :
      (db : Database) (cluster_id : Text)
      → Usable (
          active_runtime from_hex aes_open cluster_id
            (db.cluster cluster_id)
            (legacy_runtime db.legacy))
  cluster-Usable db c =
      state-Usable c (db.cluster c) (legacy_runtime db.legacy) (db.cluster c).state
        (legacy-Usable db.legacy)

  load-Usable :
      (db : Database) (cluster : Text) (proj_id : Option ℕ)
      → Usable (load_active_llm_runtime from_hex aes_open db cluster proj_id)
  unfolding load_active_llm_runtime
  load-Usable db cluster none =
      guard-Usable (is_nil (strip cluster)) none _ none-Usable (cluster-Usable db (strip cluster))
  load-Usable db cluster (some p) = guard-Usable (is_nil (strip cluster)) none _ none-Usable (
      guard-Usable (leb 1 p) _ _ (project-Usable db (strip cluster) p)
        (cluster-Usable db (strip cluster)))

  -- Whichever tables it is read from, project, cluster or legacy, a loaded model has an http or
  -- https URL and a name of 1 to 256 characters.
  pub load_active_llm_runtime-IsUsable :
      (db : Database) (cluster : Text) (proj_id : Option ℕ) (r : Runtime)
      → load_active_llm_runtime from_hex aes_open db cluster proj_id ≡ some r
      → IsUsable r
  load_active_llm_runtime-IsUsable db cluster proj_id r e = (load-Usable db cluster proj_id).at r e
