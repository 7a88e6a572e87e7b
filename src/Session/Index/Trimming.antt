-- ===== src/Session/Index/Trimming.antt =====
-- claude_tap/session_index.py: how many sessions `delete_oldest_sessions` leaves.
use Prim.Native.Nat.{min}
use claude_tap.Base.{
  ℕ, zero, suc, ◌+◌, Text, Bool, true, false, [], ◌∷◌, ◌≡◌, refl, arith, text_eq, text_eq_iff,
  text_eq_refl, any, Bool-cases, inl, inr, All, All-keep_of, All-take, length, take, keep, if_ind,
  ltb, length-take, subst,
}
use claude_tap.Session.Index.{
  Row, Table, has_id, insert_by_time, oldest_first, delete_where, delete_all,
  delete_oldest_sessions,
}
use claude_tap.Session.Index.Rows.{DistinctBy, IsTable}
use claude_tap.Session.Index.Sorting.{All-insert, length-oldest_first}

text_eq_swap : (a b : Text) → text_eq a b ≡ false → text_eq b a ≡ false
text_eq_swap a b h = ground (arith, text_eq_iff a b, text_eq_iff b a)

module _ (f : Row → Text) where
  insert-DistinctBy :
      (r : Row) (t : Table)
      → All (λ s. text_eq (f s) (f r) ≡ false) t
      → DistinctBy f t
      → DistinctBy f (insert_by_time r t)
  unfolding insert_by_time
  insert-DistinctBy r [] h d = (tt, tt)
  insert-DistinctBy r (s ∷ t) h d =
      if_ind (DistinctBy f) (ltb r.updated_at s.updated_at) (r ∷ s ∷ t) _ (λ _. (h, d))
        (λ _. (All-insert _ r t (text_eq_swap _ _ h.0) d.0, insert-DistinctBy r t h.1 d.1))

  keep-DistinctBy : (p : Row → Bool) (t : Table) → DistinctBy f t → DistinctBy f (keep p t)
  unfolding keep
  keep-DistinctBy p [] d = tt
  keep-DistinctBy p (r ∷ t) d =
      if_ind (DistinctBy f) (p r) (r ∷ keep p t) (keep p t)
        (λ _. (All-keep_of _ p t d.0, keep-DistinctBy p t d.1)) (λ _. keep-DistinctBy p t d.1)

All-oldest_first : (P : Row → Type 0) (t : Table) → All P t → All P (oldest_first t)
unfolding oldest_first
All-oldest_first P [] h = tt
All-oldest_first P (r ∷ t) h = All-insert P r (oldest_first t) h.0 (All-oldest_first P t h.1)

oldest_first-DistinctBy :
    (f : Row → Text) (t : Table) → DistinctBy f t → DistinctBy f (oldest_first t)
unfolding oldest_first
oldest_first-DistinctBy f [] d = tt
oldest_first-DistinctBy f (r ∷ t) d =
    insert-DistinctBy f r (oldest_first t) (All-oldest_first _ t d.0)
      (oldest_first-DistinctBy f t d.1)

take-DistinctBy : (f : Row → Text) (n : ℕ) (t : Table) → DistinctBy f t → DistinctBy f (take n t)
take-DistinctBy f zero t d = tt
take-DistinctBy f (suc n) [] d = tt
take-DistinctBy f (suc n) (r ∷ t) d = (All-take _ n t d.0, take-DistinctBy f n t d.1)

-- A table without the id is not changed by a deletion.
length-delete_where_absent :
    (id : Text) (t : Table)
    → All (λ s. has_id id s ≡ false) t
    → length (delete_where id t) ≡ length t
unfolding delete_where keep
length-delete_where_absent id [] h = refl
length-delete_where_absent id (r ∷ t) h = ground (arith, h.0, length-delete_where_absent id t h.1)

-- A deletion takes away the one row of its id.
length-delete_where :
    (id : Text) (t : Table)
    → DistinctBy (λ r. r.claw_session_id) t
    → any (has_id id) t ≡ true
    → suc (length (delete_where id t)) ≡ length t
unfolding delete_where keep any
length-delete_where id [] d h = ground arith
length-delete_where id (r ∷ t) d h = elim (Bool-cases (has_id id r)) [
  | inl e ↦
      let same = (text_eq_iff r.claw_session_id id).0 e in
      let absent = subst (λ k. All (λ s. has_id k s ≡ false) t) same d.0 in
      ground (arith, e, length-delete_where_absent id t absent)
  | inr e ↦ ground (arith, e, length-delete_where id t d.1 (rw e at h))
]

any-delete_where :
    (k id : Text) (t : Table)
    → text_eq k id ≡ false
    → any (has_id k) t ≡ true
    → any (has_id k) (delete_where id t) ≡ true
unfolding delete_where keep any
any-delete_where k id [] n h = h
any-delete_where k id (r ∷ t) n h = elim (Bool-cases (has_id k r)) [
  | inl e ↦ ground (arith, e, n, h, text_eq_iff r.claw_session_id k)
  | inr e ↦ ground (arith, e, any-delete_where k id t n (rw e at h))
]

still_there :
    (v : Row) (t victims : Table)
    → All (λ s. text_eq s.claw_session_id v.claw_session_id ≡ false) victims
    → All (λ s. any (has_id s.claw_session_id) t ≡ true) victims
    → All (λ s. any (has_id s.claw_session_id) (delete_where v.claw_session_id t) ≡ true) victims
still_there v t [] n h = tt
still_there v t (s ∷ victims) n h = (
  any-delete_where s.claw_session_id v.claw_session_id t n.0 h.0,
  still_there v t victims n.1 h.1,
)

delete_where-DistinctBy :
    (f : Row → Text) (id : Text) (t : Table) → DistinctBy f t → DistinctBy f (delete_where id t)
unfolding delete_where
delete_where-DistinctBy f id t d = keep-DistinctBy f _ t d

delete_all-DistinctBy :
    (f : Row → Text) (victims t : Table) → DistinctBy f t → DistinctBy f (delete_all victims t)
unfolding delete_all
delete_all-DistinctBy f [] t d = d
delete_all-DistinctBy f (v ∷ victims) t d =
    delete_all-DistinctBy f victims _ (delete_where-DistinctBy f v.claw_session_id t d)

-- The victims are rows of the table, each with an id of its own: as many rows go as there are victims.
length-delete_all :
    (victims t : Table)
    → DistinctBy (λ r. r.claw_session_id) victims
    → DistinctBy (λ r. r.claw_session_id) t
    → All (λ v. any (has_id v.claw_session_id) t ≡ true) victims
    → length (delete_all victims t) + length victims ≡ length t
unfolding delete_all
length-delete_all [] t dv d h = omega arith
length-delete_all (v ∷ victims) t dv d h =
    let id = v.claw_session_id in
    let still = still_there v t victims dv.0 h.1 in
    omega (
      arith,
      length-delete_where id t d h.0,
      length-delete_all victims (delete_where id t) dv.1 (delete_where-DistinctBy _ id t d) still,
    )

-- Every row of a table is found there by its id.
rows-found :
    (t u : Table)
    → ((k : Text) → any (has_id k) t ≡ true → any (has_id k) u ≡ true)
    → All (λ v. any (has_id v.claw_session_id) u ≡ true) t
unfolding any
rows-found [] u h = tt
rows-found (r ∷ t) u h = (
  h r.claw_session_id (ground (arith, text_eq_refl r.claw_session_id)),
  rows-found t u (λ k e. h k (ground arith)),
)

pub length-delete_oldest :
    (n : ℕ) (t : Table)
    → IsTable t
    → length (delete_oldest_sessions n t).0 + min n (length t) ≡ length t
unfolding delete_oldest_sessions
length-delete_oldest n t ok =
    let sorted = oldest_first t in
    let deleted =
      length-delete_all (take n sorted) t
        (take-DistinctBy _ n sorted (oldest_first-DistinctBy _ t ok.ids)) ok.ids
        (All-take _ n sorted (All-oldest_first _ t (rows-found t t (λ k e. e)))) in
    omega (arith, deleted, length-take n sorted, length-oldest_first t)

pub delete_oldest-IsTable : (n : ℕ) (t : Table) → IsTable t → IsTable (delete_oldest_sessions n t).0
unfolding delete_oldest_sessions
delete_oldest-IsTable n t ok = record {
  ids = delete_all-DistinctBy _ (take n (oldest_first t)) t ok.ids;
  slugs = delete_all-DistinctBy _ (take n (oldest_first t)) t ok.slugs;
}
