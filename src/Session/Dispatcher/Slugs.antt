-- ===== src/Session/Dispatcher/Slugs.antt =====
-- claude_tap/session_dispatcher.py: two sessions never share a slug, and so a directory.
use claude_tap.Base.{
  Text, false, none, some, ◌≡◌, ap, ◌∙◌, sym, subst, ◌⊎◌, inl, inr, text_eq, text_eq_refl,
  text_eq_sound, Option-cases, Bool-cases, some_inj, lookup, insert, lookup-insert,
  lookup-insert_self, lookup-insert_ne,
}
use claude_tap.Session.Claw.{sanitize_filename_suffix}
use claude_tap.Session.Dispatcher.{
  Dispatcher, register, slug_for, make_unique_slug, long_slug, slug_unless_owned,
}

-- Each of the two maps leads back where the other leads.
pub record IsRouted (d : Dispatcher) : Type 0 where
  pub at :
      (raw slug : Text)
      → lookup raw d.raw_to_slug ≡ some slug
      → lookup slug d.slug_to_raw ≡ some raw
  pub back :
      (raw slug : Text)
      → lookup slug d.slug_to_raw ≡ some raw
      → lookup raw d.raw_to_slug ≡ some slug

-- The slug is no other session's.
abbrev IsOwn : Text → Text → Dispatcher → Type 0
IsOwn raw slug d = (lookup slug d.slug_to_raw ≡ none) ⊎ (lookup slug d.slug_to_raw ≡ some raw)

not_own :
    (raw slug r : Text) (d : Dispatcher)
    → IsOwn raw slug d
    → lookup slug d.slug_to_raw ≡ some r
    → text_eq raw r ≡ false
    → ⊥
not_own raw slug r d (inl e) h ne = cc
not_own raw slug r d (inr e) h ne =
    cc (text_eq_refl r, subst (λ x. text_eq x r ≡ false) (some_inj (sym e ∙ h)) ne)

-- A session without a slug is given one that is free.
register-at :
    (raw slug : Text) (d : Dispatcher)
    → IsOwn raw slug d
    → IsRouted d
    → (r s : Text) → lookup r (register raw slug d).raw_to_slug ≡ some s
    → lookup s (register raw slug d).slug_to_raw ≡ some r
register-at raw slug d own h r s e = elim (Bool-cases (text_eq raw r)) [
  | inl same ↦
      let found : slug ≡ s = some_inj (rw (lookup-insert raw r slug d.raw_to_slug, same) at e) in
      subst (λ x. lookup x (insert slug raw d.slug_to_raw) ≡ some r) found
        (rw (lookup-insert_self slug raw d.slug_to_raw)
          (ap (λ x. some x) (text_eq_sound raw r same)))
  | inr other ↦
      let old : lookup s d.slug_to_raw ≡ some r =
        h.at r s (rw (lookup-insert_ne raw r slug d.raw_to_slug other) at e) in
      elim (Bool-cases (text_eq slug s)) [
        | inl clash ↦ absurd (
            not_own raw slug r d own
              (subst (λ x. lookup x d.slug_to_raw ≡ some r) (sym (text_eq_sound slug s clash)) old)
              other)
        | inr apart ↦ lookup-insert_ne slug s raw d.slug_to_raw apart ∙ old
      ]
]

register-back :
    (raw slug : Text) (d : Dispatcher)
    → lookup raw d.raw_to_slug ≡ none
    → IsRouted d
    → (r s : Text) → lookup s (register raw slug d).slug_to_raw ≡ some r
    → lookup r (register raw slug d).raw_to_slug ≡ some s
register-back raw slug d unknown h r s e = elim (Bool-cases (text_eq slug s)) [
  | inl same ↦
      let found : raw ≡ r = some_inj (rw (lookup-insert slug s raw d.slug_to_raw, same) at e) in
      subst (λ x. lookup x (insert raw slug d.raw_to_slug) ≡ some s) found
        (rw (lookup-insert_self raw slug d.raw_to_slug)
          (ap (λ x. some x) (text_eq_sound slug s same)))
  | inr other ↦
      let old : lookup r d.raw_to_slug ≡ some s =
        h.back r s (rw (lookup-insert_ne slug s raw d.slug_to_raw other) at e) in
      elim (Bool-cases (text_eq raw r)) [
        | inl clash ↦
            let found : lookup raw d.raw_to_slug ≡ some s =
              subst (λ x. lookup x d.raw_to_slug ≡ some s) (sym (text_eq_sound raw r clash)) old in
            absurd (cc)
        | inr apart ↦ lookup-insert_ne raw r slug d.raw_to_slug apart ∙ old
      ]
]

register-IsRouted :
    (raw slug : Text) (d : Dispatcher)
    → lookup raw d.raw_to_slug ≡ none
    → IsOwn raw slug d
    → IsRouted d
    → IsRouted (register raw slug d)
register-IsRouted raw slug d unknown own h = record {
  at = register-at raw slug d own h;
  back = register-back raw slug d unknown h;
}

module _ (sha256 : Text → Text) where
  abbrev pub base_slug : Text → Text
  base_slug raw = sanitize_filename_suffix sha256 raw

  make_unique_slug-IsOwn :
      (raw : Text) (d : Dispatcher)
      → lookup (long_slug sha256 (base_slug raw) raw) d.slug_to_raw ≡ none
      → IsOwn raw (make_unique_slug sha256 raw d) d
  unfolding make_unique_slug
  make_unique_slug-IsOwn raw d free = elim (Option-cases (lookup (base_slug raw) d.slug_to_raw)) [
    | inl e ↦ rw (e, slug_unless_owned) (inl e)
    | inr (owner, e) ↦ elim (Bool-cases (text_eq owner raw)) [
      | inl same ↦
          rw (e, slug_unless_owned, same)
            (inr (e ∙ ap (λ x. some x) (text_eq_sound owner raw same)))
      | inr other ↦ rw (e, slug_unless_owned, other) (inl free)
    ]
  ]

  -- As long as the slug with the digest is not taken, naming a session keeps the two maps of slugs
  -- inverse to each other: a session's slug leads back to it, and the session that a slug leads to
  -- has that slug.
  pub slug_for-IsRouted :
      (raw : Text) (d : Dispatcher)
      → IsRouted d
      → lookup (long_slug sha256 (base_slug raw) raw) d.slug_to_raw ≡ none
      → IsRouted (slug_for sha256 raw d).1
  unfolding slug_for
  slug_for-IsRouted raw d h free = elim (Option-cases (lookup raw d.raw_to_slug)) [
    | inl e ↦ rw e (
        register-IsRouted raw (make_unique_slug sha256 raw d) d e
          (make_unique_slug-IsOwn raw d free) h)
    | inr (slug, e) ↦ rw e h
  ]
