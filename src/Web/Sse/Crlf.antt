-- ===== src/Web/Sse/Crlf.antt =====
-- Line endings that a proxy has rewritten, in apps/web/src/api/sse.ts.
use finlytic_ecosystem.Prelude.{
  ℕ, ◌≡◌, refl, Bool, false, ◌&&◌, ◌==◌, none, [], ◌∷◌, if◌then◌else◌, arith, Bool-cases, inl, inr,
}
use finlytic_ecosystem.Prelude.Text.{Text}
use finlytic_ecosystem.Web.Sse.{cut, split_frames}
use finlytic_ecosystem.Web.Sse.Frames.{split_none, cut-nil}

-- Every LF becomes CRLF.
unfoldable pub to_crlf : Text → Text
to_crlf [] = []
to_crlf (a ∷ s) = let rest = to_crlf s in if a == 10 then 13 ∷ 10 ∷ rest else a ∷ rest

abbrev starts_lf : Text → Bool
starts_lf [] = false
starts_lf (a ∷ s) = a == 10

to_crlf-starts_lf : (s : Text) → starts_lf (to_crlf s) ≡ false
unfolding to_crlf
to_crlf-starts_lf [] = refl
to_crlf-starts_lf (a ∷ s) = elim (Bool-cases (a == 10)) [
  | inl lf ↦ rw lf refl
  | inr other ↦ ground (arith, other)
]

cut-skip : (a : ℕ) (s : Text) → a == 10 && starts_lf s ≡ false → cut s ≡ none → cut (a ∷ s) ≡ none
unfolding cut
cut-skip a [] h k = refl
cut-skip a (b ∷ s) h k = ground (arith, h, k)

to_crlf-cut : (s : Text) → cut (to_crlf s) ≡ none
unfolding to_crlf
to_crlf-cut [] = cut-nil
to_crlf-cut (a ∷ s) = elim (Bool-cases (a == 10)) [
  | inl lf ↦ rw lf (
      cut-skip 13 (10 ∷ to_crlf s) refl
        (cut-skip 10 (to_crlf s) (to_crlf-starts_lf s) (to_crlf-cut s)))
  | inr other ↦ rw other (cut-skip a (to_crlf s) (rw other refl) (to_crlf-cut s))
]

-- A stream whose line endings have become CRLF gives no frame at all, whatever it says: all of it waits
-- for a separator.
pub to_crlf-split_frames : (s : Text) → split_frames (to_crlf s) ≡ ([], to_crlf s)
to_crlf-split_frames s = split_none (to_crlf s) (to_crlf-cut s)
