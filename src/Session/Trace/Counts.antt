-- ===== src/Session/Trace/Counts.antt =====
-- claude_tap/trace.py: what every write does, whether or not the statistics raise.
use claude_tap.Base.{
  ℕ, String, ◌+◌, true, false, if◌then◌else◌, List, [], ◌∷◌, ◌++◌, ◌≡◌, refl, ap, ◌∙◌, arith,
  Bool-cases, Option-cases, inl, inr, get_or, ◌⊎◌, codes,
}
use claude_tap.Json.{ℤ, Json, num, pos, str, obj, Fields, get, as_int, ◌+ℤ◌, is_encodable}
use claude_tap.Session.Trace.{
  Writer, Outcome, done, raised, ◌>>=◌, writer_of, add_input, add_output, add_cache_read,
  add_cache_create, field_or, add_model, key_eq, count_model, is_hashable, add_tokens, add_usage,
  usage_of, response_stats, update_stats, body_of, write,
}

-- The calls counted under all models.
unfoldable pub total_models : List (Json × ℕ) → ℕ
total_models [] = 0
total_models ((k, c) ∷ used) = c + total_models used

total-add_model :
    (model : Json) (n : ℕ) (used : List (Json × ℕ))
    → total_models (add_model model n used) ≡ total_models used + n
unfolding total_models add_model
total-add_model model n [] = omega arith
total-add_model model n ((k, c) ∷ used) = elim (Bool-cases (key_eq k model)) [
  | inl e ↦ rw e (omega arith)
  | inr e ↦ rw e (omega (arith, total-add_model model n used))
]

-- What the statistics leave alone.
pub record SameFile (a b : Writer) : Type 0 where
  pub same_path : b.path ≡ a.path
  pub same_open : b.is_open ≡ a.is_open
  pub same_lines : b.lines ≡ a.lines
  pub same_count : b.count ≡ a.count
  pub same_models : b.models_used ≡ a.models_used

SameFile-trans : {a b c : Writer} → SameFile a b → SameFile b c → SameFile a c
SameFile-trans h g = record {
  same_path = g.same_path ∙ h.same_path;
  same_open = g.same_open ∙ h.same_open;
  same_lines = g.same_lines ∙ h.same_lines;
  same_count = g.same_count ∙ h.same_count;
  same_models = g.same_models ∙ h.same_models;
}

SameFile-refl : (a : Writer) → SameFile a a
SameFile-refl a = record {
  same_path = refl;
  same_open = refl;
  same_lines = refl;
  same_count = refl;
  same_models = refl;
}

SameFile-totals :
    (w : Writer) (input output cache_read cache_create : ℤ)
    → SameFile w (record w {
      total_input_tokens = input;
      total_output_tokens = output;
      total_cache_read_tokens = cache_read;
      total_cache_create_tokens = cache_create;
    })
SameFile-totals w a b c d = record {
  same_path = refl;
  same_open = refl;
  same_lines = refl;
  same_count = refl;
  same_models = refl;
}

record Keeps (f : Writer → Outcome) : Type 0 where
  at : (w : Writer) → SameFile w (writer_of (f w))

Keeps-bind : {f g : Writer → Outcome} → Keeps f → Keeps g → Keeps (λ w. f w >>= g)
Keeps-bind {f} {g} hf hg = record { at = λ w. go w (f w) (hf.at w) }
  where
    go : (w : Writer) (o : Outcome) → SameFile w (writer_of o) → SameFile w (writer_of (o >>= g))
    go w (done v) h = SameFile-trans h (hg.at v)
    go w (raised v) h = h

add_tokens-Keeps :
    (key : String) (total : Writer → ℤ) (put : Writer → ℤ → Writer) (usage : Fields)
    → ((w : Writer) (z : ℤ) → SameFile w (put w z))
    → Keeps (add_tokens key total put usage)
unfolding add_tokens
add_tokens-Keeps key total put usage h = record {
  at = λ w. elim (Option-cases (as_int (get_or (get key usage) (num (pos 0))))) [
    | inl e ↦ rw (e, writer_of) (SameFile-refl w)
    | inr (z, e) ↦ rw (e, writer_of) (h w (◌+ℤ◌ (total w) z))
  ];
}

add_usage-Keeps : (usage : Json) → Keeps (add_usage usage)
unfolding add_usage
add_usage-Keeps (obj usage) = record {
  at = λ w.
      (Keeps-bind {f = λ v. add_input usage v >>= add_output usage >>= add_cache_read usage}
          {g = add_cache_create usage}
          (Keeps-bind {f = λ v. add_input usage v >>= add_output usage} {g = add_cache_read usage}
            (Keeps-bind {f = add_input usage} {g = add_output usage}
              (add_tokens-Keeps "input_tokens" (λ v. v.total_input_tokens)
                (λ v z. record v { total_input_tokens = z }) usage
                (λ w z.
                  SameFile-totals w z w.total_output_tokens w.total_cache_read_tokens
                    w.total_cache_create_tokens))
              (add_tokens-Keeps "output_tokens" (λ v. v.total_output_tokens)
                (λ v z. record v { total_output_tokens = z }) usage
                (λ w z.
                  SameFile-totals w w.total_input_tokens z w.total_cache_read_tokens
                    w.total_cache_create_tokens)))
            (add_tokens-Keeps "cache_read_input_tokens" (λ v. v.total_cache_read_tokens)
              (λ v z. record v { total_cache_read_tokens = z }) usage
              (λ w z.
                SameFile-totals w w.total_input_tokens w.total_output_tokens z
                  w.total_cache_create_tokens)))
          (add_tokens-Keeps "cache_creation_input_tokens" (λ v. v.total_cache_create_tokens)
            (λ v z. record v { total_cache_create_tokens = z }) usage
            (λ w z.
              SameFile-totals w w.total_input_tokens w.total_output_tokens w.total_cache_read_tokens
                z))).at
        w;
}
add_usage-Keeps _ = record { at = SameFile-refl }

response_stats-Keeps : (rec : Fields) → Keeps (response_stats rec)
unfolding response_stats
response_stats-Keeps rec = record {
  at = λ w. elim (Option-cases (body_of "response" rec)) [
    | inl e ↦ rw (e, writer_of) (SameFile-refl w)
    | inr (body, e) ↦ rw (e, writer_of) ((add_usage-Keeps (usage_of body)).at w)
  ];
}

-- The effect of a write on the writer: one more record in the file, which is open, one more call
-- counted, and at most one model counted once more.
pub record Wrote (rec : Fields) (a b : Writer) : Type 0 where
  pub path_kept : b.path ≡ a.path
  pub file_open : b.is_open ≡ true
  pub appended : b.lines ≡ a.lines ++ obj rec ∷ []
  pub counted : b.count ≡ a.count + 1
  pub modelled :
      (total_models b.models_used ≡ total_models a.models_used + 1)
      ⊎ (b.models_used ≡ a.models_used)

abbrev opened : Fields → Writer → Writer
opened rec w = record w { is_open = true; lines = w.lines ++ obj rec ∷ []; count = w.count + 1 }

Wrote-skipped : (rec : Fields) (w : Writer) → Wrote rec w (opened rec w)
Wrote-skipped rec w = record {
  path_kept = refl;
  file_open = refl;
  appended = refl;
  counted = refl;
  modelled = inr refl;
}

abbrev bumped : Json → Fields → Writer → Writer
bumped model rec w = record (opened rec w) { models_used = add_model model 1 w.models_used }

Wrote-counted :
    (model : Json) (rec : Fields) (w b : Writer) → SameFile (bumped model rec w) b → Wrote rec w b
Wrote-counted model rec w b h = record {
  path_kept = h.same_path;
  file_open = h.same_open;
  appended = h.same_lines;
  counted = h.same_count;
  modelled = inl (ap total_models h.same_models ∙ total-add_model model 1 w.models_used);
}

update_stats-Wrote :
    (rec : Fields) (w : Writer) → Wrote rec w (writer_of (update_stats rec (opened rec w)))
unfolding update_stats count_model
update_stats-Wrote rec w = elim (Option-cases (body_of "request" rec)) [
  | inl e ↦ rw (e, writer_of) (Wrote-skipped rec w)
  | inr (body, e) ↦
      let model = field_or "model" (str (codes "unknown")) body in
      elim (Bool-cases (is_hashable model)) [
        | inl h ↦
            rw (e, h, writer_of)
              (Wrote-counted model rec w _ ((response_stats-Keeps rec).at (bumped model rec w)))
        | inr h ↦ rw (e, h, writer_of) (Wrote-skipped rec w)
      ]
]

stamp :
    (rec : Fields) (now : ℕ) (w : Writer) (o : Outcome)
    → Wrote rec w (writer_of o)
    → Wrote rec w (writer_of (o >>= λ v. done (record v { last_used = now })))
stamp rec now w (raised v) h = h
stamp rec now w (done v) h = record {
  path_kept = h.path_kept;
  file_open = h.file_open;
  appended = h.appended;
  counted = h.counted;
  modelled = h.modelled;
}

-- What comes of a write: the record is written, or nothing is but that the file is opened.
abbrev pub IsWritten : Fields → Writer → Outcome → Type 0
IsWritten rec w o =
    (is_encodable (obj rec) ≡ true) × Wrote rec w (writer_of o)
    ⊎ (is_encodable (obj rec) ≡ false) × (o ≡ raised (record w { is_open = true }))

-- A record without a lone surrogate is appended once to the file, which is then open, and one call
-- and at most one model are counted, whether or not the statistics can be read. Another record raises,
-- and nothing changes but that the file is open.
pub write-IsWritten : (now : ℕ) (rec : Fields) (w : Writer) → IsWritten rec w (write now rec w)
unfolding write
write-IsWritten now rec w = elim (Bool-cases (is_encodable (obj rec))) [
  | inl e ↦
      inl (e, rw e (stamp rec now w (update_stats rec (opened rec w)) (update_stats-Wrote rec w)))
  | inr e ↦ inr (e, rw e refl)
]

-- The calls that a write counts.
pub count-write :
    (now : ℕ) (rec : Fields) (w : Writer)
    → (writer_of (write now rec w)).count ≡ w.count + (if is_encodable (obj rec) then 1 else 0)
count-write now rec w = elim (write-IsWritten now rec w) [
  | inl (e, h) ↦ rw e h.counted
  | inr (e, h) ↦ rw (e, h) (omega arith)
]
