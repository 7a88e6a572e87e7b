-- ===== src/Upstream/Config/Polling.antt =====
-- claude_tap/upstream_config.py: the target in effect is that of the last valid configuration.
use claude_tap.Base.{
  ℕ, Text, Bool, true, false, not, ◌&&◌, Option, none, some, List, [], ◌∷◌, ◌≡◌, refl, sym, ap,
  arith, ==_iff, bind, subst, if_ind,
}
use claude_tap.Json.{Json}
use claude_tap.Upstream.Config.{
  File, missing, no_stat, file, ConfigStore, snapshot_for, new_store, same_mtime, take_target,
  reload, poll, parse_upstream_config_text,
}

module _ (loads : Text → Option Json) where
  -- The target that a file's text gives, if it is valid.
  abbrev pub parse : Option Text → Option Text
  parse text = bind text (parse_upstream_config_text loads)

  module _ (text_at : ℕ → Option Text) where
    -- A file whose text is known from its time of modification.
    abbrev pub IsStamped : File → Type 0
    IsStamped missing = Unit
    IsStamped no_stat = Unit
    IsStamped (file m text) = text ≡ text_at m

    abbrev pub AllStamped : List File → Type 0
    AllStamped [] = Unit
    AllStamped (f ∷ files) = IsStamped f × AllStamped files

    abbrev pub or_else : Option Text → Text → Text
    or_else none t = t
    or_else (some s) t = s

    -- The last valid target of the files, and the given one if none is valid.
    abbrev pub target_in : File → Text → Text
    target_in missing t = t
    target_in no_stat t = t
    target_in (file m text) t = or_else (parse text) t

    unfoldable pub last_target : Text → List File → Text
    last_target t [] = t
    last_target t (f ∷ files) = last_target (target_in f t) files

    -- The store follows a target, and what its noted time stands for is that target, if valid.
    pub record Follows (client t : Text) (s : ConfigStore) : Type 0 where
      pub is_client : s.client ≡ client
      pub is_target : s.snapshot ≡ snapshot_for client t
      pub noted : (m : ℕ) (u : Text) → s.mtime ≡ some m → parse (text_at m) ≡ some u → u ≡ t

    take-Follows :
        (client t : Text) (s : ConfigStore) (m : ℕ) (o : Option Text)
        → parse (text_at m) ≡ o
        → Follows client t s
        → Follows client (or_else o t) (take_target m o s).1
    take-Follows client t s m none e h = record {
      is_client = h.is_client;
      is_target = h.is_target;
      noted = λ n u en eu. cc;
    }
    take-Follows client t s m (some v) e h = record {
      is_client = h.is_client;
      is_target = ap (λ c. snapshot_for c v) h.is_client;
      noted = λ n u en eu. cc;
    }

    same_mtime_sound : (m : ℕ) (o : Option ℕ) → same_mtime m o ≡ true → o ≡ some m
    same_mtime_sound m none h = cc
    same_mtime_sound m (some n) h = ap (λ x. some x) (sym ((==_iff m n).0 h))

    kept-Follows :
        (client t : Text) (s : ConfigStore) (m : ℕ) (o : Option Text)
        → parse (text_at m) ≡ o
        → s.mtime ≡ some m
        → Follows client t s
        → Follows client (or_else o t) s
    kept-Follows client t s m none e em h = h
    kept-Follows client t s m (some u) e em h =
        subst (λ x. Follows client x s) (sym (h.noted m u em e)) h

    reload-Follows :
        (force : Bool) (client t : Text) (s : ConfigStore) (f : File)
        → IsStamped f
        → Follows client t s
        → Follows client (target_in f t) (reload loads force f s).1
    unfolding reload
    reload-Follows force client t s missing hf h = h
    reload-Follows force client t s no_stat hf h = h
    reload-Follows force client t s (file m text) hf h =
        if_ind (λ (r : Bool × ConfigStore). Follows client (or_else (parse text) t) r.1)
          (not force && same_mtime m s.mtime) _ _
          (λ e.
            kept-Follows client t s m (parse text) (ap parse (sym hf))
              (same_mtime_sound m s.mtime (ground arith)) h)
          (λ e. take-Follows client t s m (parse text) (ap parse (sym hf)) h)

    poll-Follows :
        (client t : Text) (s : ConfigStore) (files : List File)
        → AllStamped files
        → Follows client t s
        → Follows client (last_target t files) (poll loads files s)
    unfolding poll last_target
    poll-Follows client t s [] hf h = h
    poll-Follows client t s (f ∷ files) hf h =
        poll-Follows client (target_in f t) (reload loads false f s).1 files hf.1
          (reload-Follows false client t s f hf.0 h)

    -- After the load at the start and any number of polls, the snapshot is that of the last valid
    -- configuration among the files seen, and of the fallback if none was valid, on condition that
    -- the time of modification tells the texts of the files apart.
    pub poll-last_target :
        (client fallback : Text) (first : File) (files : List File)
        → AllStamped (first ∷ files)
        → (poll loads files (reload loads true first (new_store client fallback)).1).snapshot
          ≡ snapshot_for client (last_target fallback (first ∷ files))
    unfolding last_target
    poll-last_target client fallback first files hf =
        (poll-Follows client (target_in first fallback)
          (reload loads true first (new_store client fallback)).1 files hf.1
          (reload-Follows true client fallback (new_store client fallback) first hf.0
            (record { is_client = refl; is_target = refl; noted = λ m u em eu. cc }))).is_target
