-- ===== src/Base/Mapping.antt =====
-- A `dict` with text keys as an association list in insertion order. Writing to a key that is
-- there keeps its place, as in Python.
use mathlib.Core.Path.{◌≡◌, refl}
use mathlib.Core.Bool.{false, not}
use mathlib.Core.List.{List, [], ◌∷◌, ◌++◌, map}
use mathlib.Core.Option.{Option, none, some}
use native.Mathlib.Omega.{arith}
use claude_tap.Base.Tests.{if◌then◌else◌, if_ind}
use claude_tap.Base.Lists.{All, keep}
use claude_tap.Base.Chars.{Text, text_eq, text_eq_iff, text_eq_refl}

abbrev pub Dict {ℓ} : Type ℓ → Type ℓ
Dict V = List (Text × V)

module _ {ℓ} {V : Type ℓ} where
  unfoldable pub lookup : Text → Dict V → Option V
  lookup k [] = none
  lookup k ((j, v) ∷ d) = if text_eq j k then some v else lookup k d

  unfoldable pub insert : Text → V → Dict V → Dict V
  insert k v [] = (k, v) ∷ []
  insert k v ((j, w) ∷ d) = if text_eq j k then (j, v) ∷ d else (j, w) ∷ insert k v d

  -- `d.pop(k, None)` on a dict, whose keys differ.
  unfoldable pub erase : Text → Dict V → Dict V
  erase k [] = []
  erase k ((j, v) ∷ d) = if text_eq j k then d else (j, v) ∷ erase k d

  abbrev pub values : Dict V → List V
  values = map (λ e. e.1)

  pub lookup-insert :
      (k j : Text) (v : V) (d : Dict V)
      → lookup j (insert k v d) ≡ (if text_eq k j then some v else lookup j d)
  unfolding lookup insert
  lookup-insert k j v [] = refl
  lookup-insert k j v ((i, w) ∷ d) =
      ground (arith, text_eq_iff k j, text_eq_iff i k, text_eq_iff i j, lookup-insert k j v d)

  pub lookup-insert_self : (k : Text) (v : V) (d : Dict V) → lookup k (insert k v d) ≡ some v
  lookup-insert_self k v d = rw (lookup-insert, text_eq_refl k)

  pub lookup-insert_ne :
      (k j : Text) (v : V) (d : Dict V) → text_eq k j ≡ false → lookup j (insert k v d) ≡ lookup j d
  lookup-insert_ne k j v d h = rw (lookup-insert, h)

  pub All-insert {κ} :
      (Q : Text → Type κ) (k : Text) (v : V) (d : Dict V)
      → Q k
      → All (λ e. Q e.0) d
      → All (λ e. Q e.0) (insert k v d)
  unfolding insert
  All-insert Q k v [] hk h = (hk, tt)
  All-insert Q k v ((j, w) ∷ d) hk h =
      if_ind (All (λ (e : Text × V). Q e.0)) (text_eq j k) _ _ (λ e. h)
        (λ e. (h.0, All-insert Q k v d hk h.1))

  pub All-erase {κ} :
      (Q : Text → Type κ) (k : Text) (d : Dict V)
      → All (λ e. Q e.0) d
      → All (λ e. Q e.0) (erase k d)
  unfolding erase
  All-erase Q k [] h = tt
  All-erase Q k ((j, w) ∷ d) h =
      if_ind (All (λ (e : Text × V). Q e.0)) (text_eq j k) _ _ (λ e. h.1)
        (λ e. (h.0, All-erase Q k d h.1))

  pub lookup-erase_ne :
      (j k : Text) (d : Dict V) → text_eq j k ≡ false → lookup k (erase j d) ≡ lookup k d
  unfolding lookup erase
  lookup-erase_ne j k [] h = refl
  lookup-erase_ne j k ((i, v) ∷ d) h =
      ground (arith, text_eq_iff j k, text_eq_iff i j, text_eq_iff i k, lookup-erase_ne j k d h)

  pub lookup-append_ne :
      (j k : Text) (v : V) (d : Dict V)
      → text_eq j k ≡ false
      → lookup k (d ++ (j, v) ∷ []) ≡ lookup k d
  unfolding lookup
  lookup-append_ne j k v [] h = rw h refl
  lookup-append_ne j k v ((i, w) ∷ d) h = rw (lookup-append_ne j k v d h) refl

  pub lookup-append_self :
      (k : Text) (v : V) (d : Dict V) → lookup k d ≡ none → lookup k (d ++ (k, v) ∷ []) ≡ some v
  unfolding lookup
  lookup-append_self k v [] h = rw (text_eq_refl k) refl
  lookup-append_self k v ((i, w) ∷ d) h = ground (arith, lookup-append_self k v d)

  -- A key set anew at the end.
  pub lookup-move :
      (j k : Text) (v : V) (d : Dict V)
      → lookup k (keep (λ e. not (text_eq e.0 j)) d ++ (j, v) ∷ [])
        ≡ (if text_eq j k then some v else lookup k d)
  unfolding lookup keep
  lookup-move j k v [] = refl
  lookup-move j k v ((i, w) ∷ d) =
      ground (arith, text_eq_iff i j, text_eq_iff j k, text_eq_iff i k, lookup-move j k v d)
