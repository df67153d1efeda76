-- ===== src/Web/SyncEvents/Chunks.antt =====
-- Reading the stream in apps/web/src/accounts/useSyncEvents.ts: how it is cut into chunks does not matter.
use finlytic_ecosystem.Prelude.{
  ◌≡◌, refl, sym, ap, ◌∙◌, none, List, [], ◌∷◌, ◌++◌, append-nil, append_assoc,
}
use finlytic_ecosystem.Prelude.Text.{Text}
use finlytic_ecosystem.Prelude.Effects.{Result, ok, err, Eff, continue_with, ◌>>◌}
use finlytic_ecosystem.Web.Sse.{cut, split_frames}
use finlytic_ecosystem.Web.Sse.Frames.{split_none, split_frames-append, rest-cut, cut-nil}
use finlytic_ecosystem.Web.SyncEvents.{Keys, Parsed, handle_frame, handle_frames, consume_chunks}

abbrev pub concat : List Text → Text
concat [] = []
concat (c ∷ cs) = c ++ concat cs

then_assoc :
    (f g h : Eff Keys Text (Unit {0})) (keys : Keys) → ((f >> g) >> h) keys ≡ (f >> (g >> h)) keys
then_assoc f g h keys = go (f keys).0 (f keys).1
  where
    go :
        (r : Result Text (Unit {0})) (k : Keys)
        → continue_with (λ _. h) (continue_with (λ _. g) r k).0 (continue_with (λ _. g) r k).1
          ≡ continue_with (λ _. g >> h) r k
    go (ok u) k = refl
    go (err e) k = refl

then_congr :
    (f g h : Eff Keys Text (Unit {0})) (keys : Keys)
    → ((k : Keys) → g k ≡ h k)
    → (f >> g) keys ≡ (f >> h) keys
then_congr f g h keys same = go (f keys).0 (f keys).1
  where
    go :
        (r : Result Text (Unit {0})) (k : Keys)
        → continue_with {S = Keys} (λ (_ : Unit {0}). g) r k ≡ continue_with (λ _. h) r k
    go (ok u) k = same k
    go (err e) k = refl

module _ (parse_json : Text → Parsed) where
  handle_frames-append :
      (fs gs : List Text) (keys : Keys)
      → handle_frames parse_json (fs ++ gs) keys
        ≡ (handle_frames parse_json fs >> handle_frames parse_json gs) keys
  unfolding handle_frames
  handle_frames-append [] gs keys = refl
  handle_frames-append (f ∷ fs) gs keys =
      then_congr (handle_frame parse_json f) _ _ keys (λ k. handle_frames-append fs gs k)
      ∙ sym (
          then_assoc (handle_frame parse_json f) (handle_frames parse_json fs)
            (handle_frames parse_json gs) keys)

  chunks_from :
      (buffer : Text) (chunks : List Text) (keys : Keys)
      → cut buffer ≡ none
      → consume_chunks parse_json buffer chunks keys
        ≡ handle_frames parse_json (split_frames (buffer ++ concat chunks)).0 keys
  unfolding consume_chunks handle_frames
  chunks_from buffer [] keys h = rw (append-nil buffer, split_none buffer h) refl
  chunks_from buffer (c ∷ cs) keys h =
      let s = buffer ++ c in
      then_congr (handle_frames parse_json (split_frames s).0) _ _ keys
        (λ k. chunks_from (split_frames s).1 cs k (rest-cut s))
      ∙ sym (handle_frames-append (split_frames s).0 _ keys)
      ∙ ap (λ (x : List Text × Text). handle_frames parse_json x.0 keys)
          (sym (split_frames-append s (concat cs))
            ∙ ap split_frames (append_assoc buffer c (concat cs)))

  -- However the network cuts the stream into chunks, the browser handles the frames of the whole stream, in
  -- their order, with the same effects and the same failure.
  pub consume-concat :
      (chunks : List Text) (keys : Keys)
      → consume_chunks parse_json [] chunks keys
        ≡ handle_frames parse_json (split_frames (concat chunks)).0 keys
  consume-concat chunks keys = chunks_from [] chunks keys cut-nil
