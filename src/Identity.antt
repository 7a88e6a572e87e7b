-- ===== src/Identity.antt =====
-- claude_tap/cluster_identity.py: the identity of a cluster that `/healthz` reports. `none` is a
-- ValueError. `to_int` is `int` on a text, `none` where it raises; `sha256` is the hex digest. What
-- is read from the environment is an argument.
pub mod Hash
mod Tests
use claude_tap.Base.{
  ℕ, Text, Bool, true, false, not, ◌||◌, ◌&&◌, Option, none, some, List, [], ◌∷◌, ◌++◌,
  if◌then◌else◌, codes, text_eq, strip, before, any, drop_prefix, split_first, split_last, is_nil,
  is_alnum, length, ltb, leb, bind, ◌==◌,
}
use claude_tap.Json.{ℤ, pos, negsuc}

pub record PgUrlParts : Type 0 where
  pub scheme : Text
  pub user : Text
  pub host : Text
  pub port : ℤ
  pub dbname : Text

pub record ClusterIdentity : Type 0 where
  pub cluster_id : Text
  pub db_host : Text
  pub cluster_hash : Text

-- A character that `^[A-Za-z0-9_-]+$` does not match.
abbrev is_unsafe : ℕ → Bool
unfolding is_alnum
is_unsafe c = not (is_alnum c || c == b'_' || c == b'-')

-- False where it raises.
unfoldable pub validate_cluster_id : Text → Bool
unfolding strip any is_unsafe
validate_cluster_id cluster_id =
    let id = strip cluster_id in not (is_nil id || ltb 64 (length id)) && not (any is_unsafe id)

abbrev positive : ℤ → Option ℤ
positive (pos n) = if leb 1 n then some (pos n) else none
positive (negsuc n) = none

-- `parse_gateway_proj_id`: the outer `none` is the ValueError, the inner one no project.
unfoldable pub parse_gateway_proj_id : (to_int : Text → Option ℤ) → Text → Option (Option ℤ)
unfolding strip
parse_gateway_proj_id to_int raw =
    if is_nil (strip raw)
    then some none
    else bind (to_int (strip raw)) λ n. bind (positive n) λ p. some (some p)

-- `s.split("://", 1)`, if it is there.
unfoldable pub split_scheme : Text → Option (Text × Text)
unfolding drop_prefix
split_scheme [] = none
split_scheme (c ∷ s) = elim (drop_prefix (codes "://") (c ∷ s)) [
  | some rest ↦ some ([], rest)
  | none ↦ elim (split_scheme s) [ none ↦ none | some (l, r) ↦ some (c ∷ l, r) ]
]

abbrev pub non_blank : Text → Option Text
unfolding strip
non_blank s = if is_nil (strip s) then none else some (strip s)

-- The host and the port behind its last colon, 5432 where there is none.
abbrev pub host_port_of : (Text → Option ℤ) → Text → Option (Text × Text) → Option (Text × ℤ)
host_port_of to_int host_port none = some (host_port, pos 5432)
host_port_of to_int host_port (some (host, port)) = bind (to_int port) λ n. some (host, n)

abbrev is_postgres : Text → Bool
unfolding text_eq
is_postgres scheme = text_eq scheme (codes "postgres") || text_eq scheme (codes "postgresql")

-- What follows the scheme.
unfoldable pub parse_after : (to_int : Text → Option ℤ) → (scheme rest : Text) → Option PgUrlParts
unfolding strip is_postgres split_first split_last before non_blank
parse_after to_int scheme rest = bind (split_first b'/' rest) λ (auth_host, path_part).
    bind (non_blank (before b'?' path_part)) λ dbname.
      bind (split_last b'@' auth_host) λ (user_part, host_port).
        bind (non_blank (before b':' user_part)) λ user.
          bind (host_port_of to_int host_port (split_last b':' host_port)) λ (host, port).
            if not (is_postgres scheme) || is_nil (strip host)
            then none
            else some
                (record { scheme = scheme; user = user; host = host; port = port; dbname = dbname })

unfoldable pub parse_pg_url : (to_int : Text → Option ℤ) → Text → Option PgUrlParts
unfolding strip split_scheme parse_after
parse_pg_url to_int url =
    bind (split_scheme (strip url)) λ (scheme, rest). parse_after to_int scheme rest

unfoldable pub compute_cluster_hash : (sha256 : Text → Text) → Text → PgUrlParts → Text
unfolding strip
compute_cluster_hash sha256 cluster_id parts =
    codes "sha256:"
    ++ sha256
        (strip cluster_id ++ (b'|' ∷ parts.scheme ++ (b'|' ∷ parts.user ++ (b'|' ∷ parts.dbname))))

unfoldable pub local_cluster_identity :
    (sha256 : Text → Text)
    → (to_int : Text → Option ℤ) → (cluster_id url : Text) → Option ClusterIdentity
unfolding strip parse_pg_url compute_cluster_hash
local_cluster_identity sha256 to_int cluster_id url =
    let id = strip cluster_id in
    if is_nil id
    then none
    else bind (parse_pg_url to_int url) λ parts. some (record {
      cluster_id = id;
      db_host = parts.host;
      cluster_hash = compute_cluster_hash sha256 id parts;
    })
