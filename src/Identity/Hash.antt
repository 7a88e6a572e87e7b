-- ===== src/Identity/Hash.antt =====
-- claude_tap/cluster_identity.py: the parts of a database URL, and what the hash depends on.
use claude_tap.Base.{
  Text, false, Option, some, ◌∷◌, ◌++◌, ◌≡◌, refl, ap, ◌∙◌, codes, text_eq, strip, before,
  drop_prefix, has_char, split_first-append, split_last-append, before-append, is_nil, bind,
}
use claude_tap.Json.{ℤ}
use claude_tap.Identity.{
  PgUrlParts, split_scheme, non_blank, host_port_of, parse_after, parse_pg_url,
  compute_cluster_hash, local_cluster_identity,
}

-- `user:password` and `host:port`
abbrev pub login : (user password : Text) → Text
login user password = user ++ b':' ∷ password

abbrev pub address : (host port : Text) → Text
address host port = host ++ b':' ∷ port

abbrev pub auth_of : (user password host port : Text) → Text
auth_of user password host port = login user password ++ b'@' ∷ address host port

abbrev pub url_of : (auth path : Text) → Text
url_of auth path = codes "postgresql://" ++ (auth ++ b'/' ∷ path)

-- The parts of a URL that can be told apart again; the password may have `@` and `:` in it.
pub record IsAuth (user password host port : Text) : Type 0 where
  pub no_slash : has_char b'/' (auth_of user password host port) ≡ false
  pub no_at : has_char b'@' (address host port) ≡ false
  pub user_colon : has_char b':' user ≡ false
  pub port_colon : has_char b':' port ≡ false
  pub user_given : non_blank user ≡ some user
  pub host_given : is_nil (strip host) ≡ false

split_scheme-url_of :
    (auth path : Text)
    → split_scheme (url_of auth path) ≡ some (codes "postgresql", auth ++ b'/' ∷ path)
unfolding split_scheme drop_prefix
split_scheme-url_of auth path = refl

module _ (to_int : Text → Option ℤ) where
  parse_after-auth :
      (user password host port path db : Text) (n : ℤ)
      → IsAuth user password host port
      → non_blank (before b'?' path) ≡ some db
      → to_int port ≡ some n
      → parse_after to_int (codes "postgresql") (auth_of user password host port ++ b'/' ∷ path)
        ≡ some (record {
          scheme = codes "postgresql";
          user = user;
          host = host;
          port = n;
          dbname = db;
        })
  unfolding parse_after text_eq
  parse_after-auth user password host port path db n h hdb hn =
      rw
        (
          split_first-append b'/' (auth_of user password host port) path h.no_slash,
          hdb,
          split_last-append b'@' (login user password) (address host port) h.no_at,
          before-append b':' user password h.user_colon,
          h.user_given,
          split_last-append b':' host port h.port_colon,
          host_port_of,
          hn,
          h.host_given,
        )
        refl

  -- The parts of a URL are found again.
  parse_pg_url-url_of :
      (user password host port path db : Text) (n : ℤ)
      → IsAuth user password host port
      → strip (url_of (auth_of user password host port) path)
        ≡ url_of (auth_of user password host port) path
      → non_blank (before b'?' path) ≡ some db
      → to_int port ≡ some n
      → parse_pg_url to_int (url_of (auth_of user password host port) path)
        ≡ some (record {
          scheme = codes "postgresql";
          user = user;
          host = host;
          port = n;
          dbname = db;
        })
  unfolding parse_pg_url
  parse_pg_url-url_of user password host port path db n h clean hdb hn =
      let after : Option (Text × Text) → Option PgUrlParts =
        λ o. bind o λ (scheme, rest). parse_after to_int scheme rest in
      ap (λ s. after (split_scheme s)) clean
      ∙ (ap after (split_scheme-url_of (auth_of user password host port) path)
          ∙ parse_after-auth user password host port path db n h hdb hn)

  -- The identity of a cluster whose URL has these parts: the host is reported, and the hash is that
  -- of the cluster's id, the scheme, the user and the database. It is the same whatever the password,
  -- the host, the port and the query are.
  pub local_cluster_identity-url_of :
      (sha256 : Text → Text) (id user password host port path db : Text) (n : ℤ)
      → is_nil (strip id) ≡ false
      → IsAuth user password host port
      → strip (url_of (auth_of user password host port) path)
        ≡ url_of (auth_of user password host port) path
      → non_blank (before b'?' path) ≡ some db
      → to_int port ≡ some n
      → local_cluster_identity sha256 to_int id (url_of (auth_of user password host port) path)
        ≡ some (record {
          cluster_id = strip id;
          db_host = host;
          cluster_hash =
              codes "sha256:"
              ++ sha256 (strip (strip id) ++ (codes "|postgresql|" ++ (user ++ (b'|' ∷ db))));
        })
  unfolding local_cluster_identity compute_cluster_hash
  local_cluster_identity-url_of sha256 id user password host port path db n hid h clean hdb hn =
      rw (hid, parse_pg_url-url_of user password host port path db n h clean hdb hn) refl
