-- ===== src/Command/Tests.antt =====
-- claude_tap/cli.py: runs of the theorems on a table of two sessions and on an environment.
use claude_tap.Base.{[], ◌∷◌, ◌≡◌, refl, codes, arith, text_eq, Text, Dict, All, is_space}
use claude_tap.Command.Launch.{local_hosts, merged_no_proxy, extend_no_proxy}
use claude_tap.Command.Entries.{IsEntry}
use claude_tap.Command.Bypass.{IsExtended, extend_no_proxy-IsExtended}
use claude_tap.Session.Index.{Row, Table, new_row}
use claude_tap.Session.Index.Rows.{IsTable}
use claude_tap.Command.Cleanup.{cleanup_traces, IsTrimmed, cleanup_traces-IsTrimmed}

abbrev newer_row : Row
newer_row =
    new_row (record { now = 9; cal = 1 }) (codes "b") (codes "b") (codes "sessions/b/trace.jsonl")

abbrev older_row : Row
older_row =
    new_row (record { now = 4; cal = 1 }) (codes "a") (codes "a") (codes "sessions/a/trace.jsonl")

abbrev two_rows : Table
two_rows = newer_row ∷ older_row ∷ []

two_rows-IsTable : IsTable two_rows
unfolding text_eq
two_rows-IsTable = record { ids = ((refl, tt), (tt, tt)); slugs = ((refl, tt), (tt, tt)) }

newer_is_left : (cleanup_traces 1 two_rows).0 ≡ newer_row ∷ []
unfolding cleanup_traces text_eq
newer_is_left = refl

cleanup_traces-IsTrimmed_example : IsTrimmed 1 two_rows (cleanup_traces 1 two_rows)
cleanup_traces-IsTrimmed_example =
    cleanup_traces-IsTrimmed 1 two_rows (omega arith) two_rows-IsTable

abbrev user_env : Dict Text
user_env = (codes "NO_PROXY", codes "LOCALHOST, example.com,") ∷ (codes "HOME", codes "/root") ∷ []

local_hosts-IsEntry : All IsEntry local_hosts
unfolding is_space
local_hosts-IsEntry = (
  record { filled = refl; comma_free = ground arith; clean = (refl, refl) },
  (
    record { filled = refl; comma_free = ground arith; clean = (refl, refl) },
    (record { filled = refl; comma_free = ground arith; clean = (refl, refl) }, tt),
  ),
)

hosts_after :
    merged_no_proxy user_env local_hosts
    ≡ codes "LOCALHOST" ∷ codes "example.com" ∷ codes "127.0.0.1" ∷ codes "::1" ∷ []
unfolding merged_no_proxy
hosts_after = refl

extend_no_proxy-IsExtended_example :
    IsExtended local_hosts user_env (extend_no_proxy local_hosts user_env)
extend_no_proxy-IsExtended_example =
    extend_no_proxy-IsExtended local_hosts user_env local_hosts-IsEntry
