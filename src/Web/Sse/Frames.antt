-- ===== src/Web/Sse/Frames.antt =====
-- The frames of apps/web/src/api/sse.ts do not depend on how the network cuts the stream.
use finlytic_ecosystem.Prelude.{
  ℕ, zero, suc, ◌<◌, ◌≤◌, ◌≡◌, refl, sym, ap, ◌∙◌, none, some, List, [], ◌∷◌, ◌++◌, length,
  length-append, arith, Bool-cases, Option-cases, inl, inr, ◌==◌, ◌&&◌,
}
use finlytic_ecosystem.Prelude.Text.{Text}
use finlytic_ecosystem.Web.Sse.{cut, frames_within, split_frames}

-- What is cut is the text: a frame, the separator and the rest.
cut-some : (s frame rest : Text) → cut s ≡ some (frame, rest) → s ≡ frame ++ 10 ∷ 10 ∷ rest
unfolding cut
cut-some [] frame rest h = absurd (cc)
cut-some (a ∷ []) frame rest h = absurd (cc)
cut-some (a ∷ b ∷ s) frame rest h = elim (Bool-cases (a == 10 && b == 10)) [
  | inl here ↦ ground (arith, here, h)
  | inr not_here ↦ elim (Option-cases (cut (b ∷ s))) [
    | inl nothing ↦ absurd (cc (rw (not_here, nothing) at h))
    | inr ((f, r), found) ↦ ground (arith, not_here, found, h, cut-some (b ∷ s) f r found)
  ]
]

cut-length : (s frame rest : Text) → cut s ≡ some (frame, rest) → length rest < length s
cut-length s frame rest h =
    let parts = cut-some s frame rest h in
    omega (arith, ap length parts, length-append frame (10 ∷ 10 ∷ rest))

-- A separator that is there stays the first one, whatever follows.
cut-append :
    (s t frame rest : Text) → cut s ≡ some (frame, rest) → cut (s ++ t) ≡ some (frame, rest ++ t)
unfolding cut
cut-append [] t frame rest h = absurd (cc)
cut-append (a ∷ []) t frame rest h = absurd (cc)
cut-append (a ∷ b ∷ s) t frame rest h = elim (Bool-cases (a == 10 && b == 10)) [
  | inl here ↦ ground (arith, here, h)
  | inr not_here ↦ elim (Option-cases (cut (b ∷ s))) [
    | inl nothing ↦ absurd (cc (rw (not_here, nothing) at h))
    | inr ((f, r), found) ↦ ground (arith, not_here, found, h, cut-append (b ∷ s) t f r found)
  ]
]

pub cut-nil : cut [] ≡ none
unfolding cut
cut-nil = refl

frames_none : (n : ℕ) (s : Text) → cut s ≡ none → frames_within n s ≡ ([], s)
unfolding frames_within
frames_none zero s h = refl
frames_none (suc n) s h = ground (arith, h)

frames_some :
    (n : ℕ) (s f r : Text)
    → cut s ≡ some (f, r)
    → frames_within (suc n) s ≡ (f ∷ (frames_within n r).0, (frames_within n r).1)
unfolding frames_within
frames_some n s f r h = ground (arith, h)

-- More rounds than characters change nothing.
frames_enough :
    (n m : ℕ) (s : Text) → length s ≤ n → length s ≤ m → frames_within n s ≡ frames_within m s
frames_enough zero zero s h k = refl
frames_enough zero (suc m) [] h k = cc (frames_none (suc m) [] cut-nil, frames_none 0 [] cut-nil)
frames_enough zero (suc m) (a ∷ s) h k = absurd (omega arith)
frames_enough (suc n) zero [] h k = cc (frames_none (suc n) [] cut-nil, frames_none 0 [] cut-nil)
frames_enough (suc n) zero (a ∷ s) h k = absurd (omega arith)
frames_enough (suc n) (suc m) s h k = elim (Option-cases (cut s)) [
  | inl nothing ↦ cc (frames_none (suc n) s nothing, frames_none (suc m) s nothing)
  | inr ((f, r), found) ↦
      let shorter = cut-length s f r found in
      let same = frames_enough n m r (omega arith) (omega arith) in
      cc (frames_some n s f r found, frames_some m s f r found, same)
]

pub split_none : (s : Text) → cut s ≡ none → split_frames s ≡ ([], s)
unfolding split_frames
split_none s h = frames_none (length s) s h

pub split_some :
    (s f r : Text)
    → cut s ≡ some (f, r)
    → split_frames s ≡ (f ∷ (split_frames r).0, (split_frames r).1)
unfolding split_frames
split_some [] f r h = absurd (cc (cut-nil))
split_some (a ∷ s) f r h =
    let shorter = cut-length (a ∷ s) f r h in
    cc (
      frames_some (length s) (a ∷ s) f r h,
      frames_enough (length s) (length r) r (omega arith) (omega arith),
    )

abbrev Appends : Text → Text → Type 0
Appends s t = split_frames (s ++ t) ≡ (
  (split_frames s).0 ++ (split_frames ((split_frames s).1 ++ t)).0,
  (split_frames ((split_frames s).1 ++ t)).1,
)

abbrev with_frame : Text → List Text × Text → List Text × Text
with_frame f x = (f ∷ x.0, x.1)

append_within : (n : ℕ) (s t : Text) → length s ≤ n → Appends s t
append_within zero [] t h = rw (split_none [] cut-nil) refl
append_within zero (a ∷ s) t h = absurd (omega arith)
append_within (suc n) s t h = elim (Option-cases (cut s)) [
  | inl nothing ↦ rw (split_none s nothing) refl
  | inr ((f, r), found) ↦
      let shorter = cut-length s f r found in
      rw (split_some (s ++ t) f (r ++ t) (cut-append s t f r found), split_some s f r found)
        (ap (with_frame f) (append_within n r t (omega arith)))
]

-- A buffer that grows by a chunk gives the frames of both, and what is left of both.
pub split_frames-append : (s t : Text) → Appends s t
split_frames-append s t = append_within (length s) s t (omega arith)

-- The frames, each with its separator, and what is left.
unfoldable pub put_together : List Text × Text → Text
put_together ([], rest) = rest
put_together (f ∷ fs, rest) = f ++ 10 ∷ 10 ∷ put_together (fs, rest)

together_within : (n : ℕ) (s : Text) → length s ≤ n → put_together (split_frames s) ≡ s
unfolding put_together
together_within zero [] h = rw (split_none [] cut-nil) refl
together_within zero (a ∷ s) h = absurd (omega arith)
together_within (suc n) s h = elim (Option-cases (cut s)) [
  | inl nothing ↦ rw (split_none s nothing) refl
  | inr ((f, r), found) ↦
      let shorter = cut-length s f r found in
      rw (split_some s f r found) (
        ap (λ x. f ++ 10 ∷ 10 ∷ x) (together_within n r (omega arith)) ∙ sym (cut-some s f r found))
]

pub put_together-split_frames : (s : Text) → put_together (split_frames s) ≡ s
put_together-split_frames s = together_within (length s) s (omega arith)

rest_within : (n : ℕ) (s : Text) → length s ≤ n → cut (split_frames s).1 ≡ none
rest_within zero [] h = rw (split_none [] cut-nil) cut-nil
rest_within zero (a ∷ s) h = absurd (omega arith)
rest_within (suc n) s h = elim (Option-cases (cut s)) [
  | inl nothing ↦ rw (split_none s nothing) nothing
  | inr ((f, r), found) ↦
      let shorter = cut-length s f r found in
      rw (split_some s f r found) (rest_within n r (omega arith))
]

-- What is left holds no separator: no complete frame waits for the next chunk.
pub rest-cut : (s : Text) → cut (split_frames s).1 ≡ none
rest-cut s = rest_within (length s) s (omega arith)
