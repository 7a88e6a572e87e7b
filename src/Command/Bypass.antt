-- ===== src/Command/Bypass.antt =====
-- claude_tap/cli.py: what `_extend_no_proxy` makes of the hosts that bypass the proxy.
use claude_tap.Base.{
  Text, Bool, true, false, some, List, [], ◌∷◌, ◌++◌, ◌≡◌, refl, sym, ◌∙◌, arith, codes, any,
  text_eq, text_eq_iff, text_eq_refl, lower, join, Bool-cases, inl, inr, ◌||◌, All, All-mono,
  if_ind, subst, Dict, lookup, insert, lookup-insert_ne, All-append, lookup-insert_self, get_or,
}
use claude_tap.Command.Entries.{IsEntry, proxy_entries-IsEntry, proxy_entries-join}
use claude_tap.Command.Launch.{proxy_entries, merge_values, merged_no_proxy, extend_no_proxy}

-- Some entry of the list is the value, up to case.
abbrev pub covers : List Text → Text → Bool
covers kept v = any (λ k. text_eq (lower v) (lower k)) kept

-- No two entries are the same up to case.
abbrev pub IsOnce : List Text → Type 0
IsOnce [] = Unit
IsOnce (v ∷ kept) = All (λ k. text_eq (lower k) (lower v) ≡ false) kept × IsOnce kept

other :
    (s t : Text) (seen : List Text)
    → any (text_eq s) seen ≡ true
    → any (text_eq t) seen ≡ false
    → text_eq t s ≡ false
other s t seen h e = elim (Bool-cases (text_eq t s)) [
  | inl q ↦
      let f : any (text_eq s) seen ≡ false =
        subst (λ k. any (text_eq k) seen ≡ false) ((text_eq_iff t s).0 q) e in
      cc
  | inr q ↦ q
]

-- What has been seen is not kept.
merge-unseen :
    (s : Text) (seen values : List Text)
    → any (text_eq s) seen ≡ true
    → All (λ k. text_eq (lower k) s ≡ false) (merge_values seen values)
unfolding merge_values any
merge-unseen s seen [] h = tt
merge-unseen s seen (v ∷ values) h =
    if_ind (All (λ k. text_eq (lower k) s ≡ false)) (any (text_eq (lower v)) seen)
      (merge_values seen values) _ (λ _. merge-unseen s seen values h)
      (λ e.
        (other s (lower v) seen h e, merge-unseen s (lower v ∷ seen) values (ground (arith, h))))

merge-IsOnce : (seen values : List Text) → IsOnce (merge_values seen values)
unfolding merge_values any
merge-IsOnce seen [] = tt
merge-IsOnce seen (v ∷ values) =
    if_ind IsOnce (any (text_eq (lower v)) seen) (merge_values seen values) _
      (λ _. merge-IsOnce seen values)
      (λ e. (
        merge-unseen (lower v) (lower v ∷ seen) values (ground (arith, text_eq_refl (lower v))),
        merge-IsOnce (lower v ∷ seen) values,
      ))

-- Up to case, a value has been seen before or is kept.
merge-covers :
    (seen values : List Text)
    → All (λ x. (any (text_eq (lower x)) seen || covers (merge_values seen values) x) ≡ true) values
unfolding merge_values any
merge-covers seen [] = tt
merge-covers seen (v ∷ values) =
    if_ind (λ kept. All (λ x. (any (text_eq (lower x)) seen || covers kept x) ≡ true) (v ∷ values))
      (any (text_eq (lower v)) seen) (merge_values seen values) _
      (λ e. (ground (arith, e), merge-covers seen values))
      (λ e. (
        ground (arith, text_eq_refl (lower v)),
        All-mono _ _ (λ x h. ground (arith, h)) values (merge-covers (lower v ∷ seen) values),
      ))

-- The entries of a variable of the environment.
abbrev pub entries_of : Text → Dict Text → List Text
entries_of name env = proxy_entries (get_or (lookup name env) [])

merge-All :
    (P : Text → Type 0) (seen values : List Text) → All P values → All P (merge_values seen values)
unfolding merge_values
merge-All P seen [] h = tt
merge-All P seen (v ∷ values) h =
    if_ind (All P) (any (text_eq (lower v)) seen) (merge_values seen values) _
      (λ _. merge-All P seen values h.1) (λ _. (h.0, merge-All P (lower v ∷ seen) values h.1))

-- What a client reads in the new environment, under either name.
pub record IsExtended (values : List Text) (env new : Dict Text) : Type 0 where
  pub same : entries_of (codes "no_proxy") new ≡ entries_of (codes "NO_PROXY") new
  pub covered :
      All
        (λ x. covers (entries_of (codes "NO_PROXY") new) x ≡ true)
        (entries_of (codes "NO_PROXY") env ++ entries_of (codes "no_proxy") env ++ values)
  pub once : IsOnce (entries_of (codes "NO_PROXY") new)
  pub others :
      (k : Text)
      → text_eq (codes "NO_PROXY") k ≡ false
      → text_eq (codes "no_proxy") k ≡ false
      → lookup k new ≡ lookup k env

merged-IsEntry :
    (values : List Text) (env : Dict Text)
    → All IsEntry values
    → All IsEntry (merged_no_proxy env values)
unfolding merged_no_proxy
merged-IsEntry values env h =
    let upper_text = get_or (lookup (codes "NO_PROXY") env) [] in
    let lower_text = get_or (lookup (codes "no_proxy") env) [] in
    let upper_part = proxy_entries upper_text in
    let lower_part = proxy_entries lower_text in
    merge-All IsEntry [] (upper_part ++ lower_part ++ values) (
      All-append IsEntry (upper_part ++ lower_part) values
        (All-append IsEntry upper_part lower_part (proxy_entries-IsEntry upper_text)
          (proxy_entries-IsEntry lower_text))
        h)

entries_of-inserted :
    (name : Text) (entries : List Text) (env : Dict Text)
    → lookup name env ≡ some (join (codes ",") entries)
    → All IsEntry entries
    → entries_of name env ≡ entries
entries_of-inserted name entries env e h = rw e (proxy_entries-join entries h)

-- The hosts that are added being entries (not empty, without commas and without white space at
-- the ends), a client reads the same list under NO_PROXY and under no_proxy: it has every entry
-- that either name had before and every added host, up to case, no two of its entries are the same
-- up to case, and the other variables are as they were.
pub extend_no_proxy-IsExtended :
    (values : List Text) (env : Dict Text)
    → All IsEntry values
    → IsExtended values env (extend_no_proxy values env)
unfolding extend_no_proxy merged_no_proxy any text_eq
extend_no_proxy-IsExtended values env h =
    let all = entries_of (codes "NO_PROXY") env ++ entries_of (codes "no_proxy") env ++ values in
    let merged = merged_no_proxy env values in
    let text = join (codes ",") merged in
    let first = insert (codes "NO_PROXY") text env in
    let new = extend_no_proxy values env in
    let entries = merged-IsEntry values env h in
    let read_lower =
      entries_of-inserted (codes "no_proxy") merged new
        (lookup-insert_self (codes "no_proxy") text first) entries in
    let read_upper =
      entries_of-inserted (codes "NO_PROXY") merged new
        (lookup-insert_ne (codes "no_proxy") (codes "NO_PROXY") text first refl
          ∙ lookup-insert_self (codes "NO_PROXY") text env)
        entries in
    record {
      same = read_lower ∙ sym read_upper;
      covered = rw read_upper (All-mono _ _ (λ x g. ground (arith, g)) all (merge-covers [] all));
      once = rw read_upper (merge-IsOnce [] all);
      others = λ k nu nl.
          lookup-insert_ne (codes "no_proxy") k text first nl
          ∙ lookup-insert_ne (codes "NO_PROXY") k text env nu;
    }
