-- ===== src/Upstream/Config.antt =====
-- claude_tap/upstream_config.py. What a poll finds on disk is a `File`; `loads` is `json.loads`.
pub mod Polling
use claude_tap.Base.{
  ℕ, Text, Bool, true, false, not, ◌&&◌, Option, none, some, List, [], ◌∷◌, if◌then◌else◌, codes,
  text_eq, strip, rstrip_char, has_part, is_nil, ◌==◌, bind,
}
use claude_tap.Json.{Json, null, str, obj, Fields, get}

-- `strip_path_prefix_for`
unfoldable pub strip_path_prefix_for : (client target : Text) → Text
unfolding text_eq has_part
strip_path_prefix_for client target =
    if text_eq client (codes "codex") && not (has_part (codes "api.openai.com") target)
    then codes "/v1"
    else []

-- `UpstreamSnapshot`
pub record Snapshot : Type 0 where
  pub target : Text
  pub strip_path_prefix : Text

-- `s.strip().rstrip("/")`
unfoldable pub normalized : Text → Text
unfolding strip rstrip_char
normalized s = rstrip_char b'/' (strip s)

-- `data.get("target")`, or `target_url` where it is missing or null.
abbrev pub raw_target : Option Json → Option Json → Option Json
raw_target none other = other
raw_target (some null) other = other
raw_target (some v) other = some v

abbrev pub target_text : Option Json → Option Text
unfolding normalized
target_text (some (str s)) = if is_nil (strip s) then none else some (normalized s)
target_text _ = none

abbrev pub target_of : Json → Option Text
unfolding get target_text
target_of (obj fs) = target_text (raw_target (get "target" fs) (get "target_url" fs))
target_of _ = none

-- `parse_upstream_config_text`, `none` where it raises.
unfoldable pub parse_upstream_config_text : (loads : Text → Option Json) → Text → Option Text
unfolding target_of
parse_upstream_config_text loads text = bind (loads text) target_of

-- The path at the time of a poll: no file, a file whose `stat` fails, or a file with its time of
-- modification and its text, `none` where it cannot be read.
pub data File : Type 0 where
  missing : File
  no_stat : File
  file : ℕ → Option Text → File

-- `UpstreamConfigStore`
pub record ConfigStore : Type 0 where
  pub client : Text
  pub snapshot : Snapshot
  pub mtime : Option ℕ

abbrev pub snapshot_for : (client target : Text) → Snapshot
unfolding normalized strip_path_prefix_for
snapshot_for client target = record {
  target = normalized target;
  strip_path_prefix = strip_path_prefix_for client (normalized target);
}

-- `_apply_target`
abbrev pub apply_target : Text → ConfigStore → ConfigStore
apply_target target s = record s { snapshot = snapshot_for s.client target }

-- `__post_init__`
abbrev pub new_store : (client fallback_target : Text) → ConfigStore
new_store client fallback_target = record {
  client = client;
  snapshot = snapshot_for client fallback_target;
  mtime = none;
}

abbrev pub same_mtime : ℕ → Option ℕ → Bool
same_mtime m none = false
same_mtime m (some n) = m == n

-- After the text is parsed: an invalid one only notes the time.
abbrev pub take_target : ℕ → Option Text → ConfigStore → Bool × ConfigStore
take_target m none s = (false, record s { mtime = some m })
take_target m (some target) s =
    (not (text_eq target s.snapshot.target), apply_target target (record s { mtime = some m }))

module _ (loads : Text → Option Json) where
  -- `_reload_if_changed`
  unfoldable pub reload : (force : Bool) → File → ConfigStore → Bool × ConfigStore
  unfolding parse_upstream_config_text text_eq
  reload force missing s = (false, s)
  reload force no_stat s = (false, s)
  reload force (file m text) s =
      if not force && same_mtime m s.mtime
      then (false, s)
      else take_target m (bind text (parse_upstream_config_text loads)) s

  -- The later polls of `poll_upstream_config`.
  unfoldable pub poll : List File → ConfigStore → ConfigStore
  unfolding reload
  poll [] s = s
  poll (f ∷ files) s = poll files (reload false f s).1

-- `resolve_upstream` without a store: the static values.
abbrev pub static_upstream : (target_url strip_path_prefix : Text) → Snapshot
static_upstream target_url strip_path_prefix = record {
  target = target_url;
  strip_path_prefix = strip_path_prefix;
}
