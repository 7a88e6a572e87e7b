-- ===== src/Proxy/Relay/Faithful.antt =====
-- claude_tap/proxy.py, `_handle_websocket`: what the relay records and sends on.
use mathlib.Core.List.{append-nil, append_assoc}
use claude_tap.Base.{Text, true, false, List, [], ◌∷◌, ◌++◌, ◌≡◌, refl, sym, ap, ◌∙◌, ◌⊎◌, inl, inr}
use claude_tap.Proxy.Relay.{
  Frame, text, binary, Way, way_of, Moves, send_text, send_binary, cut, stop, Relay, Step,
  client_moves, server_moves, Reach, here, next, relay_of,
}

-- The texts among the frames.
unfoldable pub texts_of : List Frame → List Text
texts_of [] = []
texts_of (text m ∷ frames) = m ∷ texts_of frames
texts_of (binary b ∷ frames) = texts_of frames

-- The texts sent on are recorded, and at most one more: the text at which the task ended.
pub record IsFaithful (frames : List Frame) (w : Way) : Type 0 where
  pub in_order : w.delivered ++ w.incoming ≡ frames
  pub texts :
      (w.recorded ≡ texts_of w.delivered)
      ⊎ ((w.over ≡ true)
          × ((m : Text) × (rest : List Frame) × (w.incoming ≡ text m ∷ rest)
              × (w.recorded ≡ texts_of w.delivered ++ m ∷ [])))

texts_of-append : (xs ys : List Frame) → texts_of (xs ++ ys) ≡ texts_of xs ++ texts_of ys
unfolding texts_of
texts_of-append [] ys = refl
texts_of-append (text m ∷ xs) ys = ap (λ t. m ∷ t) (texts_of-append xs ys)
texts_of-append (binary b ∷ xs) ys = texts_of-append xs ys

-- A task that has not ended has recorded what it sent on.
running :
    (frames : List Frame) (w : Way)
    → w.over ≡ false
    → IsFaithful frames w
    → w.recorded ≡ texts_of w.delivered
running frames w live h = elim h.texts [ inl e ↦ e | inr (ended, rest) ↦ cc ]

sent-in_order :
    (frames : List Frame) (f : Frame) (rest : List Frame) (w : Way)
    → w.incoming ≡ f ∷ rest
    → IsFaithful frames w
    → (w.delivered ++ f ∷ []) ++ rest ≡ frames
sent-in_order frames f rest w e h =
    append_assoc w.delivered (f ∷ []) rest ∙ (ap (λ x. w.delivered ++ x) (sym e) ∙ h.in_order)

Moves-IsFaithful :
    (frames : List Frame) {w v : Way} → Moves w v → IsFaithful frames w → IsFaithful frames v
unfolding texts_of
Moves-IsFaithful frames (send_text w m rest live e) h = record {
  in_order = sent-in_order frames (text m) rest w e h;
  texts = inl (
      ap (λ t. t ++ m ∷ []) (running frames w live h)
      ∙ sym (texts_of-append w.delivered (text m ∷ [])));
}
Moves-IsFaithful frames (send_binary w b rest live e) h = record {
  in_order = sent-in_order frames (binary b) rest w e h;
  texts = inl (
      running frames w live h
      ∙ (sym (append-nil (texts_of w.delivered))
          ∙ sym (texts_of-append w.delivered (binary b ∷ []))));
}
Moves-IsFaithful frames (cut w m rest live e) h = record {
  in_order = h.in_order;
  texts = inr (refl, (m, rest, e, ap (λ t. t ++ m ∷ []) (running frames w live h)));
}
Moves-IsFaithful frames (stop w live) h = record {
  in_order = h.in_order;
  texts = inl (running frames w live h);
}

start-IsFaithful : (frames : List Frame) → IsFaithful frames (way_of frames)
unfolding texts_of
start-IsFaithful frames = record { in_order = refl; texts = inl refl }

Step-IsFaithful :
    (cs ss : List Frame) {r t : Relay}
    → Step r t
    → IsFaithful cs r.client × IsFaithful ss r.server
    → IsFaithful cs t.client × IsFaithful ss t.server
Step-IsFaithful cs ss (client_moves r w move) h = (Moves-IsFaithful cs move h.0, h.1)
Step-IsFaithful cs ss (server_moves r w move) h = (h.0, Moves-IsFaithful ss move h.1)

-- However the two tasks take turns, at every point and so at the end each direction has sent on a
-- first part of its frames, unchanged and in order, and has recorded the texts of that part, and at
-- most one more text: the next one, at which the task ended.
pub relay-IsFaithful :
    (cs ss : List Frame) (r : Relay)
    → Reach (relay_of cs ss) r
    → IsFaithful cs r.client × IsFaithful ss r.server
relay-IsFaithful cs ss r here = (start-IsFaithful cs, start-IsFaithful ss)
relay-IsFaithful cs ss r (next reached step) =
    Step-IsFaithful cs ss step (relay-IsFaithful cs ss _ reached)
