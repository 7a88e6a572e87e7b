-- ===== src/Session/Dispatcher/Totals.antt =====
-- claude_tap/session_dispatcher.py: `write` adds one record to the total.
use claude_tap.Base.{
  ℕ, zero, suc, ◌+◌, Text, Bool, Option, none, some, List, [], ◌∷◌, ◌≡◌, refl, ap, ◌∙◌, arith, map,
  if◌then◌else◌, if_ind, text_eq, subst, Dict, lookup, insert, Option-cases, Bool-cases, inl, inr,
  some_inj, lookup-insert_self,
}
use claude_tap.Json.{Json, str, obj, Fields, set, is_encodable}
use claude_tap.Session.Index.{Table, Clock}
use claude_tap.Session.Trace.{
  Writer, Outcome, done, raised, writer_of, new_writer, write, release_fd, is_idle,
}
use claude_tap.Session.Trace.Counts.{count-write}
use claude_tap.Session.Dispatcher.{
  Dispatcher, slug_for, reclaim, release_idle, writer_found, add_writer, ensure_writer,
  finish_write, write_with, write_record, total_count, total_record_count, with_table, upsert_row,
  jsonl_relpath_for_slug,
}
use claude_tap.Session.Dispatcher.Turns.{slug_for_known, slug_for_lem}

total-insert :
    (slug : Text) (w old : Writer) (ws : Dict Writer)
    → lookup slug ws ≡ some old
    → total_count (insert slug w ws) + old.count ≡ total_count ws + w.count
unfolding total_count insert lookup
total-insert slug w old [] h = cc
total-insert slug w old ((s, v) ∷ ws) h = elim (Bool-cases (text_eq s slug)) [
  | inl e ↦ rw e (omega (arith, ap (λ (x : Writer). x.count) (some_inj (rw e at h))))
  | inr e ↦ rw e (omega (arith, total-insert slug w old ws (rw e at h)))
]

total-insert_new :
    (slug : Text) (w : Writer) (ws : Dict Writer)
    → lookup slug ws ≡ none
    → total_count (insert slug w ws) ≡ total_count ws + w.count
unfolding total_count insert lookup
total-insert_new slug w [] h = omega arith
total-insert_new slug w ((s, v) ∷ ws) h = elim (Bool-cases (text_eq s slug)) [
  | inl e ↦ absurd (cc (rw e at h))
  | inr e ↦ rw e (omega (arith, total-insert_new slug w ws (rw e at h)))
]

count-released :
    (idle : Writer → Bool) (w : Writer) → (if idle w then release_fd w else w).count ≡ w.count
count-released idle w =
    if_ind (λ (v : Writer). v.count ≡ w.count) (idle w) _ _ (λ e. refl) (λ e. refl)

total-released :
    (idle : Writer → Bool) (ws : Dict Writer)
    → total_count (map (λ e. (e.0, if idle e.1 then release_fd e.1 else e.1)) ws) ≡ total_count ws
unfolding total_count
total-released idle [] = refl
total-released idle ((s, w) ∷ ws) = omega (arith, count-released idle w, total-released idle ws)

total-release_idle :
    (now limit : ℕ) (ws : Dict Writer) → total_count (release_idle now limit ws) ≡ total_count ws
total-release_idle now zero ws = refl
total-release_idle now (suc n) ws = total-released (is_idle now (suc n)) ws

-- The dispatcher has this writer under the slug, knows the slug, and has the total of before.
record IsReady (raw slug : Text) (w : Writer) (total : ℕ) (d : Dispatcher) : Type 0 where
  known : lookup raw d.raw_to_slug ≡ some slug
  found : lookup slug d.writers ≡ some w
  same_total : total_count d.writers ≡ total

module _ (sha256 : Text → Text) (on_disk : Text → List Json) where
  opened-IsReady :
      (c : Clock) (raw slug : Text) (o : Option Table) (d : Dispatcher) (w : Writer)
      → lookup slug d.writers ≡ none
      → lookup raw d.raw_to_slug ≡ some slug
      → (with_table o d (add_writer sha256 on_disk c slug)).0 ≡ some w
      → IsReady raw slug w
          (total_count d.writers)
          (with_table o d (add_writer sha256 on_disk c slug)).1
  opened-IsReady c raw slug none d w e k h = cc
  opened-IsReady c raw slug (some t) d w e k h =
      let path = jsonl_relpath_for_slug slug in
      let v : Writer = new_writer path (on_disk path) c.now in
      subst
        (λ x.
          IsReady raw slug x (total_count d.writers)
            (record d { index = t; writers = insert slug v d.writers }))
        (some_inj h)
        (record {
          known = k;
          found = lookup-insert_self slug v d.writers;
          same_total = omega (arith, total-insert_new slug v d.writers e);
        })

  found-IsReady :
      (c : Clock) (raw slug : Text) (o : Option Writer) (d : Dispatcher) (w : Writer)
      → lookup slug d.writers ≡ o
      → lookup raw d.raw_to_slug ≡ some slug
      → (writer_found sha256 on_disk c raw slug o d).0 ≡ some w
      → IsReady raw slug w (total_count d.writers) (writer_found sha256 on_disk c raw slug o d).1
  found-IsReady c raw slug (some v) d w e k h =
      subst (λ x. IsReady raw slug x (total_count d.writers) d) (some_inj h)
        (record { known = k; found = e; same_total = refl })
  found-IsReady c raw slug none d w e k h =
      opened-IsReady c raw slug (upsert_row c raw slug d) d w e k h

  writers-slug_for : (raw : Text) (d : Dispatcher) → (slug_for sha256 raw d).1.writers ≡ d.writers
  unfolding slug_for
  writers-slug_for raw d = elim (Option-cases (lookup raw d.raw_to_slug)) [
    | inl e ↦ rw e refl
    | inr (slug, e) ↦ rw e refl
  ]

  ensure-IsReady :
      (c : Clock) (raw : Text) (d : Dispatcher) (w : Writer)
      → (ensure_writer sha256 on_disk c raw d).0 ≡ some w
      → IsReady raw
          (slug_for sha256 raw d).0
          w
          (total_record_count d)
          (ensure_writer sha256 on_disk c raw d).1
  unfolding ensure_writer reclaim
  ensure-IsReady c raw d w h =
      let (slug, d₀) = slug_for sha256 raw d in
      let d₁ : Dispatcher = reclaim c.now d₀ in
      let same : total_count d₁.writers ≡ total_record_count d =
        total-release_idle c.now d₀.writer_idle_seconds d₀.writers
        ∙ ap total_count (writers-slug_for raw d) in
      subst
        (λ n.
          IsReady raw slug w n
            (writer_found sha256 on_disk c raw slug (lookup slug d₁.writers) d₁).1)
        same
        (found-IsReady c raw slug (lookup slug d₁.writers) d₁ w refl (slug_for_lem sha256 raw d) h)

  finish-total :
      (c : Clock) (raw slug : Text) (rec : Fields) (w : Writer) (o : Outcome) (d : Dispatcher)
      (n more : ℕ)
      → IsReady raw slug w n d
      → (writer_of o).count ≡ w.count + more
      → total_record_count (finish_write sha256 on_disk c raw slug rec o d).1 ≡ n + more
  unfolding finish_write
  finish-total c raw slug rec w (done v) d n more h e =
      omega (arith, h.same_total, e, total-insert slug v w d.writers h.found)
  finish-total c raw slug rec w (raised v) d n more h e =
      omega (arith, h.same_total, e, total-insert slug v w d.writers h.found)

  -- A write that gets its writer adds one to the total of records, also where the statistics raise,
  -- unless the record has a lone surrogate: then it adds nothing.
  pub total-write_record :
      (c : Clock) (raw : Text) (rec : Fields) (d : Dispatcher) (w : Writer)
      → (ensure_writer sha256 on_disk c raw d).0 ≡ some w
      → total_record_count (write_record sha256 on_disk c raw rec d).1
        ≡ total_record_count d
          + (if is_encodable (obj (set "claw_session_id" (str raw) rec)) then 1 else 0)
  unfolding write_record write_with
  total-write_record c raw rec d w h =
      let ready = ensure-IsReady c raw d w h in
      let d' : Dispatcher = (ensure_writer sha256 on_disk c raw d).1 in
      let tagged : Fields = set "claw_session_id" (str raw) rec in
      let slug : Text = (slug_for sha256 raw d).0 in
      rw (h, slug_for_known sha256 raw slug d' ready.known)
        (finish-total c raw slug tagged w (write c.now tagged w) d' (total_record_count d)
          (if is_encodable (obj tagged) then 1 else 0) ready (count-write c.now tagged w))
