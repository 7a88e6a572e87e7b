-- ===== src/Command/Cleanup.antt =====
-- claude_tap/cli.py, `_cleanup_traces_session_index`: the oldest sessions are removed.
use Prim.Native.Nat.{min}
use claude_tap.Base.{
  ℕ, ◌-◌, ◌≤◌, ◌<◌, ◌≡◌, arith, if◌then◌else◌, leb, ◌==◌, ◌||◌, length, [], ◌∷◌, All, take, if_ind,
  subst,
}
use claude_tap.Session.Index.{Row, Table, session_count, delete_oldest_sessions, oldest_first}
use claude_tap.Session.Index.Rows.{IsTable}
use claude_tap.Session.Index.Sorting.{NoneOf, All-true, delete_oldest-spares}
use claude_tap.Session.Index.Trimming.{length-delete_oldest, delete_oldest-IsTable}

-- The table afterwards, and how many were removed.
unfoldable pub cleanup_traces : (max_traces : ℕ) → Table → Table × ℕ
unfolding delete_oldest_sessions
cleanup_traces max_traces index =
    if max_traces == 0 || leb (session_count index) max_traces
    then (index, 0)
    else delete_oldest_sessions (session_count index - max_traces) index

-- A table `r.0` after the removal of `r.1` of the sessions of `t`.
abbrev pub IsTrimmed : (max_traces : ℕ) → Table → Table × ℕ → Type 0
IsTrimmed max_traces t r =
    (length r.0 ≡ min max_traces (length t))
    × (r.1 ≡ length t - max_traces)
    × IsTable r.0
    × All (NoneOf (take (length t - max_traces) (oldest_first t))) r.0
    × All
        (λ s.
          All (λ v. v.updated_at ≤ s.updated_at) (take (length t - max_traces) (oldest_first t)))
        r.0

none_before :
    (t : Table) → All {A = Row} (λ s. All {A = Row} (λ v. v.updated_at ≤ s.updated_at) []) t
none_before [] = tt
none_before (r ∷ t) = (tt, none_before t)

-- When more sessions than the limit, which is not 0, are there, the oldest go until the limit is
-- met, and otherwise none: the smaller of the limit and their number is left, the difference is
-- reported, ids and slugs stay unique, and what is left has no id of what went and is at least as
-- new.
pub cleanup_traces-IsTrimmed :
    (max_traces : ℕ) (t : Table)
    → 0 < max_traces
    → IsTable t
    → IsTrimmed max_traces t (cleanup_traces max_traces t)
unfolding cleanup_traces
cleanup_traces-IsTrimmed max_traces t some_left ok =
    let n = length t - max_traces in
    let spares = delete_oldest-spares n t in
    if_ind (IsTrimmed max_traces t) (max_traces == 0 || leb (length t) max_traces) (t, 0) _
      (λ e.
        let few : 0 ≡ n = ground arith in
        (
          ground arith,
          ground arith,
          ok,
          subst (λ k. All (NoneOf (take k (oldest_first t))) t) few (All-true t),
          subst (λ k. All (λ s. All (λ v. v.updated_at ≤ s.updated_at) (take k (oldest_first t))) t)
              few (none_before t),
        ))
      (λ e. (
        omega (arith, length-delete_oldest n t ok),
        omega (arith, spares.0),
        delete_oldest-IsTable n t ok,
        spares.1,
        spares.2,
      ))
