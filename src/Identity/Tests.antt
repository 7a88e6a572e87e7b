-- ===== src/Identity/Tests.antt =====
-- claude_tap/cluster_identity.py: the identity of a cluster, for one URL.
use claude_tap.Base.{
  Text, Option, none, some, ◌∷◌, ◌++◌, ◌≡◌, refl, codes, strip, text_eq, if◌then◌else◌, has_char,
  before,
}
use claude_tap.Json.{ℤ, pos}
use claude_tap.Identity.{local_cluster_identity}
use claude_tap.Identity.Hash.{IsAuth, auth_of, url_of, local_cluster_identity-url_of}

abbrev digest_of : Text → Text
digest_of s = s

abbrev int_of : Text → Option ℤ
int_of s = if text_eq s (codes "6432") then some (pos 6432) else none

small-IsAuth : IsAuth (codes "gw") (codes "p@:w") (codes "db") (codes "6432")
unfolding has_char strip
small-IsAuth = record {
  no_slash = refl;
  no_at = refl;
  user_colon = refl;
  port_colon = refl;
  user_given = refl;
  host_given = refl;
}

local_cluster_identity-url_of_example :
    local_cluster_identity digest_of int_of (codes " c1 ") (
      url_of (auth_of (codes "gw") (codes "p@:w") (codes "db") (codes "6432")) (codes "claw?ssl=1"))
    ≡ some (record {
      cluster_id = strip (codes " c1 ");
      db_host = codes "db";
      cluster_hash =
          codes "sha256:"
          ++ digest_of (
              strip (strip (codes " c1 "))
              ++ (codes "|postgresql|" ++ (codes "gw" ++ (b'|' ∷ codes "claw"))));
    })
unfolding strip before text_eq
local_cluster_identity-url_of_example =
    local_cluster_identity-url_of int_of digest_of (codes " c1 ") (codes "gw") (codes "p@:w")
      (codes "db") (codes "6432") (codes "claw?ssl=1") (codes "claw") (pos 6432) refl small-IsAuth
      refl refl refl
