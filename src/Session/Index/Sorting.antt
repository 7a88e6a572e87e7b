-- ===== src/Session/Index/Sorting.antt =====
-- claude_tap/session_index.py: `delete_oldest_sessions` takes the oldest rows, and as many as asked.
use Prim.Native.Nat.{min}
use claude_tap.Base.{
  ℕ, zero, suc, ◌≤◌, Text, true, false, not, [], ◌∷◌, ◌≡◌, refl, ap, ◌∙◌, arith, text_eq_refl,
  Bool-cases, inl, inr, All, All-append, All-mono, All-keep, All-keep_of, length, take, drop, keep,
  ltb, length-take, take-append-drop, subst, if_ind, All-drop,
}
use claude_tap.Session.Index.{
  Row, Table, has_id, insert_by_time, oldest_first, delete_where, delete_all,
  delete_oldest_sessions,
}

-- In the order of their times.
abbrev pub IsOrdered : Table → Type 0
IsOrdered [] = Unit
IsOrdered (r ∷ t) = All (λ s. r.updated_at ≤ s.updated_at) t × IsOrdered t

pub All-insert :
    (P : Row → Type 0) (r : Row) (t : Table) → P r → All P t → All P (insert_by_time r t)
unfolding insert_by_time
All-insert P r [] hr h = (hr, tt)
All-insert P r (s ∷ t) hr h =
    if_ind (All P) (ltb r.updated_at s.updated_at) (r ∷ s ∷ t) _ (λ _. (hr, h))
      (λ _. (h.0, All-insert P r t hr h.1))

insert-IsOrdered : (r : Row) (t : Table) → IsOrdered t → IsOrdered (insert_by_time r t)
unfolding insert_by_time
insert-IsOrdered r [] h = (tt, tt)
insert-IsOrdered r (s ∷ t) h =
    if_ind IsOrdered (ltb r.updated_at s.updated_at) (r ∷ s ∷ t) _
      (λ e. ((ground arith, All-mono _ _ (λ x le. ground arith) t h.0), h))
      (λ e. (All-insert _ r t (ground arith) h.0, insert-IsOrdered r t h.1))

oldest_first-IsOrdered : (t : Table) → IsOrdered (oldest_first t)
unfolding oldest_first
oldest_first-IsOrdered [] = tt
oldest_first-IsOrdered (r ∷ t) = insert-IsOrdered r (oldest_first t) (oldest_first-IsOrdered t)

-- A sorted list, cut after `n`: nothing behind the cut is older than what stands before it.
split-IsOrdered :
    (n : ℕ) (t : Table)
    → IsOrdered t
    → All (λ v. All (λ s. v.updated_at ≤ s.updated_at) (drop n t)) (take n t)
split-IsOrdered zero t h = tt
split-IsOrdered (suc n) [] h = tt
split-IsOrdered (suc n) (r ∷ t) h = (All-drop _ n t h.0, split-IsOrdered n t h.1)

All-insert_inv :
    (P : Row → Type 0) (r : Row) (t : Table) → All P (insert_by_time r t) → P r × All P t
unfolding insert_by_time
All-insert_inv P r [] h = h
All-insert_inv P r (s ∷ t) h = elim (Bool-cases (ltb r.updated_at s.updated_at)) [
  | inl e ↦ rw (e, insert_by_time) at h
  | inr e ↦
      let g : All P (s ∷ insert_by_time r t) = rw (e, insert_by_time) at h in
      let (hr, ht) = All-insert_inv P r t g.1 in (hr, (g.0, ht))
]

-- The sorted list has the rows of the table.
oldest_first-All : (P : Row → Type 0) (t : Table) → All P (oldest_first t) → All P t
unfolding oldest_first
oldest_first-All P [] h = tt
oldest_first-All P (r ∷ t) h =
    let (hr, ht) = All-insert_inv P r (oldest_first t) h in (hr, oldest_first-All P t ht)

length-insert : (r : Row) (t : Table) → length (insert_by_time r t) ≡ suc (length t)
unfolding insert_by_time
length-insert r [] = refl
length-insert r (s ∷ t) = ground (arith, length-insert r t)

pub length-oldest_first : (t : Table) → length (oldest_first t) ≡ length t
unfolding oldest_first
length-oldest_first [] = refl
length-oldest_first (r ∷ t) = length-insert r (oldest_first t) ∙ ap suc (length-oldest_first t)

All-delete_all : (P : Row → Type 0) (victims t : Table) → All P t → All P (delete_all victims t)
unfolding delete_all delete_where
All-delete_all P [] t h = h
All-delete_all P (v ∷ victims) t h =
    All-delete_all P victims (delete_where v.claw_session_id t) (All-keep_of P _ t h)

delete_where-other : (id : Text) (t : Table) → All (λ s. has_id id s ≡ false) (delete_where id t)
unfolding delete_where
delete_where-other id t =
    All-mono (λ s. not (has_id id s) ≡ true) (λ s. has_id id s ≡ false) (λ s e. ground arith)
      (keep (λ r. not (has_id id r)) t) (All-keep (λ r. not (has_id id r)) t)

abbrev pub NoneOf : Table → Row → Type 0
NoneOf victims s = All (λ v. has_id v.claw_session_id s ≡ false) victims

pub All-true : (t : Table) → All (NoneOf []) t
All-true [] = tt
All-true (r ∷ t) = (tt, All-true t)

All-both :
    (v : Row) (victims t : Table)
    → All (λ s. has_id v.claw_session_id s ≡ false) t
    → All (NoneOf victims) t
    → All (NoneOf (v ∷ victims)) t
All-both v victims [] h g = tt
All-both v victims (r ∷ t) h g = ((h.0, g.0), All-both v victims t h.1 g.1)

-- What is left has the id of no victim.
delete_all-other : (victims t : Table) → All (NoneOf victims) (delete_all victims t)
unfolding delete_all
delete_all-other [] t = All-true t
delete_all-other (v ∷ victims) t =
    All-both v victims _ (All-delete_all _ victims _ (delete_where-other v.claw_session_id t))
      (delete_all-other victims _)

-- A row that has the id of no victim is as new as every victim.
abbrev Outlives : Table → Row → Type 0
Outlives victims s = NoneOf victims s → All (λ v. v.updated_at ≤ s.updated_at) victims

self_hit : (s : Row) → has_id s.claw_session_id s ≡ true
self_hit s = text_eq_refl s.claw_session_id

-- A victim has the id of a victim.
victims-hit : (vs : Table) → All (λ s. NoneOf vs s → ⊥) vs
victims-hit [] = tt
victims-hit (v ∷ vs) =
    (λ h. cc (self_hit v, h.0), All-mono _ _ (λ s f h. f h.1) vs (victims-hit vs))

victims-Outlive :
    (victims vs : Table) → All (λ s. NoneOf victims s → ⊥) vs → All (Outlives victims) vs
victims-Outlive victims [] h = tt
victims-Outlive victims (v ∷ vs) h = (λ g. absurd (h.0 g), victims-Outlive victims vs h.1)

transpose_step :
    (v : Row) (victims t : Table)
    → All (λ s. v.updated_at ≤ s.updated_at) t
    → All (Outlives victims) t
    → All (Outlives (v ∷ victims)) t
transpose_step v victims [] h g = tt
transpose_step v victims (s ∷ t) h g = ((λ n. (h.0, g.0 n.1)), transpose_step v victims t h.1 g.1)

transpose :
    (victims t : Table)
    → All (λ v. All (λ s. v.updated_at ≤ s.updated_at) t) victims
    → All (Outlives victims) t
transpose [] [] h = tt
transpose [] (s ∷ t) h = ((λ _. tt), transpose [] t tt)
transpose (v ∷ victims) t h = transpose_step v victims t h.0 (transpose victims t h.1)

rest-Outlive : (n : ℕ) (t : Table) → All (Outlives (take n (oldest_first t))) t
rest-Outlive n t =
    let sorted = oldest_first t in
    let victims = take n sorted in
    oldest_first-All (Outlives victims) t (
      subst (All (Outlives victims)) (take-append-drop n sorted) (
        All-append (Outlives victims) victims (drop n sorted)
          (victims-Outlive victims victims (victims-hit victims))
          (transpose victims (drop n sorted)
            (split-IsOrdered n sorted (oldest_first-IsOrdered t)))))

newer_than_victims :
    (victims t : Table)
    → All (Outlives victims) t
    → All (NoneOf victims) t
    → All (λ s. All (λ v. v.updated_at ≤ s.updated_at) victims) t
newer_than_victims victims [] h g = tt
newer_than_victims victims (s ∷ t) h g = (h.0 g.0, newer_than_victims victims t h.1 g.1)

-- Deleting `n` sessions reports the smaller of `n` and the number of sessions, and every session
-- that is left has no id of a deleted one and is at least as new as every deleted one.
pub delete_oldest-spares :
    (n : ℕ) (t : Table)
    → ((delete_oldest_sessions n t).1 ≡ min n (length t))
      × All (NoneOf (take n (oldest_first t))) (delete_oldest_sessions n t).0
      × All
          (λ s. All (λ v. v.updated_at ≤ s.updated_at) (take n (oldest_first t)))
          (delete_oldest_sessions n t).0
unfolding delete_oldest_sessions
delete_oldest-spares n t =
    let victims = take n (oldest_first t) in
    (
      length-take n (oldest_first t) ∙ ap (min n) (length-oldest_first t),
      delete_all-other victims t,
      newer_than_victims victims (delete_all victims t)
          (All-delete_all (Outlives victims) victims t (rest-Outlive n t))
          (delete_all-other victims t),
    )
