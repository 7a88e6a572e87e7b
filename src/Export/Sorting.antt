-- ===== src/Export/Sorting.antt =====
-- claude_tap/export.py: the order of the exported records.
use claude_tap.Base.{
  Bool, true, false, ◌&&◌, List, [], ◌∷◌, ◌≡◌, refl, ap, ◌∙◌, arith, if◌then◌else◌, if_ind, keep,
  Option, some, none, All, All-mono, Bool-cases, inl, inr,
}
use claude_tap.Json.{ℤ, pos, negsuc, Fields, Json, bool, num, get}
use claude_tap.Export.{le_ℤ, insert_by_turn, sort_by_turn}

le_ℤ-trans : (a b c : ℤ) → le_ℤ a b ≡ true → le_ℤ b c ≡ true → le_ℤ a c ≡ true
unfolding le_ℤ
le_ℤ-trans (pos a) (pos b) (pos c) h k = ground arith
le_ℤ-trans (pos a) (pos b) (negsuc c) h k = cc
le_ℤ-trans (pos a) (negsuc b) c h k = cc
le_ℤ-trans (negsuc a) b (pos c) h k = refl
le_ℤ-trans (negsuc a) (pos b) (negsuc c) h k = cc
le_ℤ-trans (negsuc a) (negsuc b) (negsuc c) h k = ground arith

le_ℤ-total : (a b : ℤ) → le_ℤ a b ≡ false → le_ℤ b a ≡ true
unfolding le_ℤ
le_ℤ-total (pos a) (pos b) h = ground arith
le_ℤ-total (pos a) (negsuc b) h = refl
le_ℤ-total (negsuc a) (pos b) h = cc
le_ℤ-total (negsuc a) (negsuc b) h = ground arith

-- The turn of a record: the integer under "turn", where there is one, a bool counting as 0 or 1, and 0
-- otherwise.
abbrev pub number : Option Json → ℤ
number (some (num n)) = n
number (some (bool true)) = pos 1
number (some _) = pos 0
number none = pos 0

abbrev pub turn_in : Fields → ℤ
turn_in record' = number (get "turn" record')

-- The first key is at most that of a record.
abbrev pub AtMost : ℤ → Fields → Type 0
AtMost key record' = le_ℤ key (turn_in record') ≡ true

-- Each record's turn is at most those of the records after it.
abbrev pub IsSorted : List Fields → Type 0
IsSorted [] = Unit
IsSorted (r ∷ records) = All (AtMost (turn_in r)) records × IsSorted records

-- The records of one key.
unfoldable pub of_turn : ℤ → List Fields → List Fields
unfolding keep le_ℤ
of_turn key = keep (λ r. le_ℤ key (turn_in r) && le_ℤ (turn_in r) key)

insert_by_turn-AtMost :
    (key : ℤ) (r : Fields) (records : List Fields)
    → AtMost key r
    → All (AtMost key) records
    → All (AtMost key) (insert_by_turn r records)
unfolding insert_by_turn
insert_by_turn-AtMost key r [] h k = (h, tt)
insert_by_turn-AtMost key r (x ∷ records) h k =
    if_ind (All (AtMost key)) (le_ℤ (turn_in r) (turn_in x)) _ _ (λ e. (h, k))
      (λ e. (k.0, insert_by_turn-AtMost key r records h k.1))

insert_by_turn-IsSorted :
    (r : Fields) (records : List Fields) → IsSorted records → IsSorted (insert_by_turn r records)
unfolding insert_by_turn
insert_by_turn-IsSorted r [] h = (tt, tt)
insert_by_turn-IsSorted r (x ∷ records) h =
    let a = turn_in r in
    let b = turn_in x in
    if_ind IsSorted (le_ℤ a b) _ _
      (λ e.
        ((e, All-mono (AtMost b) (AtMost a) (λ y. le_ℤ-trans a b (turn_in y) e) records h.0), h))
      (λ e. (
        insert_by_turn-AtMost b r records (le_ℤ-total a b e) h.0,
        insert_by_turn-IsSorted r records h.1,
      ))

-- A record that goes after another has not the same key.
keys_differ :
    (key a b : ℤ)
    → le_ℤ a b ≡ false
    → ((le_ℤ key a && le_ℤ a key) && (le_ℤ key b && le_ℤ b key)) ≡ false
keys_differ key a b e = elim (Bool-cases (le_ℤ a key)) [
  | inr h ↦ ground arith
  | inl h ↦ elim (Bool-cases (le_ℤ key b)) [
    | inr k ↦ ground arith
    | inl k ↦ let t = le_ℤ-trans a key b h k in absurd (cc)
  ]
]

exchange :
    (p q : Bool) (r x : Fields) (rest : List Fields)
    → (p && q) ≡ false
    → (if q then x ∷ (if p then r ∷ rest else rest) else if p then r ∷ rest else rest)
      ≡ (if p then r ∷ (if q then x ∷ rest else rest) else if q then x ∷ rest else rest)
exchange true true r x rest h = cc
exchange true false r x rest h = refl
exchange false q r x rest h = refl

of_turn-insert_by_turn :
    (key : ℤ) (r : Fields) (records : List Fields)
    → of_turn key (insert_by_turn r records) ≡ of_turn key (r ∷ records)
unfolding insert_by_turn of_turn keep
of_turn-insert_by_turn key r [] = refl
of_turn-insert_by_turn key r (x ∷ records) =
    let a = turn_in r in
    let b = turn_in x in
    elim (Bool-cases (le_ℤ a b)) [
      | inl e ↦ rw e refl
      | inr e ↦
          rw (e, of_turn-insert_by_turn key r records)
            (exchange (le_ℤ key a && le_ℤ a key) (le_ℤ key b && le_ℤ b key) r x
              (of_turn key records) (keys_differ key a b e))
    ]

sort_by_turn-IsSorted : (records : List Fields) → IsSorted (sort_by_turn records)
unfolding sort_by_turn
sort_by_turn-IsSorted [] = tt
sort_by_turn-IsSorted (r ∷ records) =
    insert_by_turn-IsSorted r (sort_by_turn records) (sort_by_turn-IsSorted records)

of_turn-sort_by_turn :
    (key : ℤ) (records : List Fields) → of_turn key (sort_by_turn records) ≡ of_turn key records
unfolding sort_by_turn of_turn keep
of_turn-sort_by_turn key [] = refl
of_turn-sort_by_turn key (r ∷ records) =
    let p = le_ℤ key (turn_in r) && le_ℤ (turn_in r) key in
    of_turn-insert_by_turn key r (sort_by_turn records)
    ∙ ap (λ rest. if p then r ∷ rest else rest) (of_turn-sort_by_turn key records)

-- The exported records come in the order of their turns, and those of one turn, which are the same as
-- before, in the order in which they were read.
pub sort_by_turn-IsStable :
    (key : ℤ) (records : List Fields)
    → IsSorted (sort_by_turn records) × (of_turn key (sort_by_turn records) ≡ of_turn key records)
sort_by_turn-IsStable key records =
    (sort_by_turn-IsSorted records, of_turn-sort_by_turn key records)
