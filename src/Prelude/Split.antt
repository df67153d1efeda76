-- ===== src/Prelude/Split.antt =====
-- `split` on one character, `join`, and `trim` of JavaScript strings.
use finlytic_ecosystem.Prelude.Tests.{◌==◌, if◌then◌else◌, leb}
use finlytic_ecosystem.Prelude.Lists.{All, any}
use finlytic_ecosystem.Prelude.Text.{Text}
use Prim.Native.Nat.{ℕ}
use mathlib.Core.Path.{◌≡◌, refl, ap, ◌∙◌}
use mathlib.Core.Logic.{◌≢◌}
use mathlib.Core.Bool.{Bool, true, false, ◌&&◌, ◌||◌}
use mathlib.Core.List.{List, [], ◌∷◌, ◌++◌}
use native.Mathlib.Omega.{arith}

-- A list of parts is never empty: its first part and the others.
abbrev pub Parts : Type 0
Parts = Text × List Text

abbrev pub parts_list : Parts → List Text
parts_list p = p.0 ∷ p.1

abbrev pub grow : ℕ → Parts → Parts
grow a p = (a ∷ p.0, p.1)

-- `s.split(c)` for a separator of one character.
unfoldable pub split : ℕ → Text → Parts
split c [] = ([], [])
split c (a ∷ s) = let rest = split c s in if a == c then ([], parts_list rest) else grow a rest

-- `parts.join(c)`
unfoldable pub join : ℕ → List Text → Text
join c [] = []
join c (p ∷ []) = p
join c (p ∷ q ∷ ps) = p ++ (c ∷ join c (q ∷ ps))

abbrev pub Lacks : ℕ → Text → Type 0
Lacks c s = All (λ a. a ≢ c) s

pub split-append :
    (c : ℕ) (s r : Text) → Lacks c s → split c (s ++ c ∷ r) ≡ (s, parts_list (split c r))
unfolding split
split-append c [] r h = ground arith
split-append c (a ∷ s) r h = ground (arith, split-append c s r h.1)

pub split-Lacks : (c : ℕ) (s : Text) → Lacks c s → split c s ≡ (s, [])
unfolding split
split-Lacks c [] h = refl
split-Lacks c (a ∷ s) h = ground (arith, split-Lacks c s h.1)

join-cons_char : (c a : ℕ) (p : Text) (ps : List Text) → join c ((a ∷ p) ∷ ps) ≡ a ∷ join c (p ∷ ps)
unfolding join
join-cons_char c a p [] = refl
join-cons_char c a p (q ∷ ps) = refl

pub join-split : (c : ℕ) (s : Text) → join c (parts_list (split c s)) ≡ s
unfolding split join
join-split c [] = refl
join-split c (a ∷ s) =
    ground (arith, join-split c s, join-cons_char c a (split c s).0 (split c s).1)

-- The white space that `trim` removes.
unfoldable pub is_space : ℕ → Bool
is_space c =
    c == 32
    || leb 9 c && leb c 13
    || c == 160
    || c == 0x1680
    || leb 0x2000 c && leb c 0x200a
    || c == 0x2028
    || c == 0x2029
    || c == 0x202f
    || c == 0x205f
    || c == 0x3000
    || c == 0xfeff

unfoldable pub trim_start : Text → Text
trim_start [] = []
trim_start (a ∷ s) = let rest = trim_start s in if is_space a then rest else a ∷ s

abbrev is_empty : Text → Bool
is_empty [] = true
is_empty (_ ∷ _) = false

unfoldable pub trim_end : Text → Text
trim_end [] = []
trim_end (a ∷ s) = let rest = trim_end s in if is_space a && is_empty rest then [] else a ∷ rest

unfoldable pub trim : Text → Text
unfolding trim_start trim_end is_space
trim s = trim_end (trim_start s)

abbrev pub IsBlankFree : Text → Type 0
IsBlankFree s = All (λ a. is_space a ≡ false) s

trim_end_lem : (s : Text) → IsBlankFree s → trim_end s ≡ s
unfolding trim_end
trim_end_lem [] h = refl
trim_end_lem (a ∷ s) h = ground (arith, h.0, trim_end_lem s h.1)

trim_start_lem : (s : Text) → IsBlankFree s → trim_start s ≡ s
unfolding trim_start
trim_start_lem [] h = refl
trim_start_lem (a ∷ s) h = ground (arith, h.0)

pub trim_lem : (s : Text) → IsBlankFree s → trim s ≡ s
unfolding trim
trim_lem s h = ap trim_end (trim_start_lem s h) ∙ trim_end_lem s h

pub trim-space : (s : Text) → IsBlankFree s → trim (32 ∷ s) ≡ s
unfolding trim
trim-space s h = ap trim_end (trim_start_lem s h) ∙ trim_end_lem s h

-- White space is absent where the test finds none.
pub no_space-IsBlankFree : (s : Text) → any is_space s ≡ false → IsBlankFree s
no_space-IsBlankFree [] h = tt
no_space-IsBlankFree (a ∷ s) h = (ground (arith, h), no_space-IsBlankFree s (ground (arith, h)))
