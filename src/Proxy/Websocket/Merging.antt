-- ===== src/Proxy/Websocket/Merging.antt =====
-- claude_tap/proxy.py, `_merge_json_lists`: nothing is lost and nothing comes twice.
use mathlib.Core.List.{append-nil, append_assoc}
use claude_tap.Base.{
  Text, Bool, true, false, List, [], ◌∷◌, ◌++◌, ◌≡◌, refl, sym, ◌∙◌, arith, any, text_eq,
  text_eq_refl, map, Bool-cases, inl, inr, All, All-mono,
}
use claude_tap.Json.{Json}
use claude_tap.Proxy.Websocket.{merge_items, merge_json_lists}

abbrev pub has_text : Text → List Text → Bool
has_text t ts = any (text_eq t) ts

-- The first list is the second one with some items left out.
pub data IsSublist : List Json → List Json → Type 0 where
  nothing : IsSublist [] []
  taken : {x : Json} {xs ys : List Json} → IsSublist xs ys → IsSublist (x ∷ xs) (x ∷ ys)
  left_out : {x : Json} {xs ys : List Json} → IsSublist xs ys → IsSublist xs (x ∷ ys)

module _ (item_key : Json → Text) where
  -- What is added to a list whose keys are `seen`: items of new keys only, each key once.
  unfoldable pub IsNew : List Text → List Json → Type 0
  IsNew seen [] = Unit
  IsNew seen (x ∷ xs) = (has_text (item_key x) seen ≡ false) × IsNew (item_key x ∷ seen) xs

  -- The keys of the items are among `seen` and the added ones.
  abbrev pub Covers : List Text → (added incoming : List Json) → Type 0
  Covers seen added incoming =
      All (λ x. has_text (item_key x) (seen ++ map item_key added) ≡ true) incoming

  pub record IsMerge (existing incoming merged : List Json) : Type 0 where
    pub added : List Json
    pub split : merged ≡ existing ++ added
    pub from_incoming : IsSublist added incoming
    pub fresh_keys : IsNew (map item_key existing) added
    pub covers : Covers (map item_key existing) added incoming

has_text-append :
    (t : Text) (ts us : List Text) → has_text t ts ≡ true → has_text t (ts ++ us) ≡ true
unfolding any
has_text-append t [] us h = cc
has_text-append t (x ∷ ts) us h = ground (arith, has_text-append t ts us)

has_text-move :
    (t k : Text) (ts us : List Text) → has_text t (k ∷ ts ++ us) ≡ has_text t (ts ++ k ∷ us)
unfolding any
has_text-move t k [] us = refl
has_text-move t k (x ∷ ts) us = ground (arith, has_text-move t k ts us)

module _ (item_key : Json → Text) where
  merge_items-split :
      (merged : List Json) (seen : List Text) (incoming : List Json)
      → (added : List Json) × (merge_items item_key merged seen incoming ≡ merged ++ added)
        × IsSublist added incoming
        × IsNew item_key seen added
        × Covers item_key seen added incoming
  unfolding merge_items IsNew any
  merge_items-split merged seen [] = ([], sym (append-nil merged), nothing, tt, tt)
  merge_items-split merged seen (x ∷ incoming) =
      elim (Bool-cases (any (text_eq (item_key x)) seen)) [
        | inl e ↦
            let (added, split, sub, new, covers) = merge_items-split merged seen incoming in
            (
              added,
              rw e split,
              left_out sub,
              new,
              (has_text-append (item_key x) seen (map item_key added) e, covers),
            )
        | inr e ↦
            let (added, split, sub, new, covers) =
              merge_items-split (merged ++ x ∷ []) (item_key x ∷ seen) incoming in
            (
              x ∷ added,
              rw e (split ∙ append_assoc merged (x ∷ []) added),
              taken sub,
              (e, new),
              (
                sym (has_text-move (item_key x) (item_key x) seen (map item_key added))
                    ∙ rw (text_eq_refl (item_key x)) refl,
                All-mono _ _
                    (λ y h.
                      sym (has_text-move (item_key y) (item_key x) seen (map item_key added)) ∙ h)
                    incoming covers,
              ),
            )
      ]

  -- The merged list is the existing list followed by items of the incoming one, in their order, each
  -- with a key that was not there before; every incoming item's key is in the result.
  pub merge_json_lists-IsMerge :
      (existing incoming : List Json)
      → IsMerge item_key existing incoming (merge_json_lists item_key existing incoming)
  unfolding merge_json_lists
  merge_json_lists-IsMerge existing incoming =
      let (added, split, sub, new, covers) =
        merge_items-split existing (map item_key existing) incoming in
      record {
        added = added;
        split = split;
        from_incoming = sub;
        fresh_keys = new;
        covers = covers;
      }
