-- ===== src/Command/Entries.antt =====
-- claude_tap/cli.py, `_extend_no_proxy`: the entries of a list with commas, written and read again.
use claude_tap.Base.{
  ℕ, Text, false, not, List, [], ◌∷◌, ◌++◌, ◌≡◌, refl, ◌∙◌, ap, arith, codes, ◌==◌, map, is_nil,
  keep, split_all, strip, strip_by, lstrip_by, rstrip_by, is_space, onto_first, join, All,
  All-strip_by, if_ind, IsClean, strip_of_IsClean, strip-IsClean,
}
use claude_tap.Command.Launch.{proxy_entries}

abbrev IsCommaFree : Text → Type 0
IsCommaFree = All (λ a. (a == b',') ≡ false)

-- An entry that can stand in a list with commas.
pub record IsEntry (v : Text) : Type 0 where
  pub filled : is_nil v ≡ false
  pub comma_free : IsCommaFree v
  pub clean : IsClean v

split_all-append :
    (v t : Text) → IsCommaFree v → split_all b',' (v ++ b',' ∷ t) ≡ v ∷ split_all b',' t
unfolding split_all
split_all-append [] t h = ground arith
split_all-append (a ∷ v) t h = rw (h.0, split_all-append v t h.1) refl

split_all-one : (v : Text) → IsCommaFree v → split_all b',' v ≡ v ∷ []
unfolding split_all
split_all-one [] h = refl
split_all-one (a ∷ v) h = rw (h.0, split_all-one v h.1) refl

All-onto_first :
    (a : ℕ) (parts : List Text)
    → (a == b',') ≡ false
    → All IsCommaFree parts
    → All IsCommaFree (onto_first a parts)
All-onto_first a [] h g = ((h, tt), tt)
All-onto_first a (v ∷ parts) h g = ((h, g.0), g.1)

split_all-IsCommaFree : (s : Text) → All IsCommaFree (split_all b',' s)
unfolding split_all
split_all-IsCommaFree [] = (tt, tt)
split_all-IsCommaFree (a ∷ s) =
    let rest = split_all b',' s in
    if_ind (All IsCommaFree) (a == b',') ([] ∷ rest) _ (λ _. (tt, split_all-IsCommaFree s))
      (λ e. All-onto_first a rest e (split_all-IsCommaFree s))

entries-IsEntry :
    (parts : List Text)
    → All IsCommaFree parts
    → All IsEntry (keep (λ p. not (is_nil p)) (map strip parts))
unfolding keep
entries-IsEntry [] h = tt
entries-IsEntry (v ∷ parts) h =
    let rest = keep (λ p. not (is_nil p)) (map strip parts) in
    if_ind (All IsEntry) (not (is_nil (strip v))) (strip v ∷ rest) rest
      (λ e. (
        record {
          filled = ground (arith, e);
          comma_free = unfold strip in All-strip_by _ is_space v h.0;
          clean = strip-IsClean v;
        },
        entries-IsEntry parts h.1,
      ))
      (λ _. entries-IsEntry parts h.1)

pub proxy_entries-IsEntry : (raw : Text) → All IsEntry (proxy_entries raw)
unfolding proxy_entries
proxy_entries-IsEntry raw = entries-IsEntry (split_all b',' raw) (split_all-IsCommaFree raw)

keep_entry :
    (v : Text) (rest : List Text)
    → IsEntry v
    → keep (λ p. not (is_nil p)) (strip v ∷ rest) ≡ v ∷ keep (λ p. not (is_nil p)) rest
unfolding keep
keep_entry v rest h = rw (strip_of_IsClean v h.clean, h.filled) refl

-- Entries, joined with commas, are read as they were.
pub proxy_entries-join :
    (entries : List Text) → All IsEntry entries → proxy_entries (join (codes ",") entries) ≡ entries
unfolding proxy_entries join
proxy_entries-join [] h = unfold keep split_all strip strip_by lstrip_by rstrip_by in refl
proxy_entries-join (v ∷ []) h = rw (split_all-one v h.0.comma_free) (keep_entry v [] h.0)
proxy_entries-join (v ∷ w ∷ entries) h =
    rw (split_all-append v (join (codes ",") (w ∷ entries)) h.0.comma_free) (
      keep_entry v (map strip (split_all b',' (join (codes ",") (w ∷ entries)))) h.0
      ∙ ap (λ r. v ∷ r) (proxy_entries-join (w ∷ entries) h.1))
