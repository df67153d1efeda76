-- ===== src/Prelude/Counting.antt =====
-- Laws of `count`, `find` and `filter` for Boolean tests: how they answer on a changed or a filtered
-- list, and what a test that at most one element passes gives.
use Prim.Native.Nat.{◌+◌, ◌≤◌, ◌<◌}
use mathlib.Core.Path.{◌≡◌, refl}
use mathlib.Core.Logic.{inl, inr}
use mathlib.Core.Bool.{Bool, true, false, not, ◌&&◌}
use mathlib.Core.List.{List, [], ◌∷◌, map}
use mathlib.Core.Option
use mathlib.Core.Option.{Option, none, some}
use native.Mathlib.Omega.{arith}
use finlytic_ecosystem.Prelude.Tests.{Bool-cases, is_some}
use finlytic_ecosystem.Prelude.Lists.{any, count, find, filter}

module _ {ℓ} {A : Type ℓ} where
  pub count_mono :
      (p q : A → Bool) (xs : List A) → ((x : A) → p x ≡ true → q x ≡ true) → count p xs ≤ count q xs
  count_mono p q [] h = omega arith
  count_mono p q (x ∷ xs) h = ground (arith, h x, count_mono p q xs h)

  pub count_congr : (p q : A → Bool) (xs : List A) → ((x : A) → p x ≡ q x) → count p xs ≡ count q xs
  count_congr p q [] h = refl
  count_congr p q (x ∷ xs) h = ground (arith, h x, count_congr p q xs h)

  pub count-map :
      (p : A → Bool) (f : A → A) (xs : List A) → count p (map f xs) ≡ count (λ x. p (f x)) xs
  count-map p f [] = refl
  count-map p f (x ∷ xs) = ground (arith, count-map p f xs)

  pub count_split :
      (p q : A → Bool) (xs : List A)
      → count p xs ≡ count (λ x. p x && q x) xs + count (λ x. p x && not (q x)) xs
  count_split p q [] = omega arith
  count_split p q (x ∷ xs) = ground (arith, count_split p q xs)

  pub find-map :
      (p : A → Bool) (f : A → A) (xs : List A)
      → ((x : A) → p (f x) ≡ p x)
      → find p (map f xs) ≡ Option.map f (find p xs)
  find-map p f [] h = refl
  find-map p f (x ∷ xs) h = ground (arith, h x, find-map p f xs h)

  pub count-pos_of_find :
      (p q : A → Bool) (xs : List A) (a : A) → find q xs ≡ some a → p a ≡ true → 0 < count p xs
  count-pos_of_find p q [] a e h = cc
  count-pos_of_find p q (x ∷ xs) a e h = ground (arith, count-pos_of_find p q xs a)

  pub find-none_of_count : (p : A → Bool) (xs : List A) → count p xs ≡ 0 → find p xs ≡ none
  find-none_of_count p [] h = refl
  find-none_of_count p (x ∷ xs) h = ground (arith, find-none_of_count p xs)

  pub count-zero_of_find : (p : A → Bool) (xs : List A) → find p xs ≡ none → count p xs ≡ 0
  count-zero_of_find p [] h = refl
  count-zero_of_find p (x ∷ xs) h = ground (arith, count-zero_of_find p xs)

  -- At most one element passes `p`, and one passes the stronger `q`: it is the one that is found.
  pub find_unique :
      (p q : A → Bool) (xs : List A) (a : A)
      → ((x : A) → q x ≡ true → p x ≡ true)
      → count p xs ≤ 1
      → 0 < count q xs
      → find p xs ≡ some a
      → q a ≡ true
  find_unique p q [] a h one pos e = cc
  find_unique p q (x ∷ xs) a h one pos e =
      ground (arith, h x, count_mono q p xs h, find_unique p q xs a h)

  pub find-filter-none :
      (p k : A → Bool) (xs : List A) → find p xs ≡ none → find p (filter k xs) ≡ none
  find-filter-none p k [] e = refl
  find-filter-none p k (x ∷ xs) e = ground (arith, find-filter-none p k xs)

  pub find-filter_kept :
      (p k : A → Bool) (xs : List A) (a : A)
      → find p xs ≡ some a
      → k a ≡ true
      → find p (filter k xs) ≡ some a
  find-filter_kept p k [] a e h = cc
  find-filter_kept p k (x ∷ xs) a e h = ground (arith, find-filter_kept p k xs a)

  pub find-filter_dropped :
      (p k : A → Bool) (xs : List A) (a : A)
      → count p xs ≤ 1
      → find p xs ≡ some a
      → k a ≡ false
      → find p (filter k xs) ≡ none
  find-filter_dropped p k [] a one e h = refl
  find-filter_dropped p k (x ∷ xs) a one e h =
      ground (arith, find-filter_dropped p k xs a, find-filter-none p k xs, find-none_of_count p xs)

  pub count-filter :
      (p k : A → Bool) (xs : List A)
      → ((x : A) → p x ≡ true → k x ≡ true)
      → count p (filter k xs) ≡ count p xs
  count-filter p k [] h = refl
  count-filter p k (x ∷ xs) h = ground (arith, h x, count-filter p k xs h)

  pub count-filter-le : (p k : A → Bool) (xs : List A) → count p (filter k xs) ≤ count p xs
  count-filter-le p k [] = omega arith
  count-filter-le p k (x ∷ xs) = ground (arith, count-filter-le p k xs)

  pub count-zero_of_any :
      (p q : A → Bool) (xs : List A)
      → ((x : A) → p x ≡ true → q x ≡ true)
      → any q xs ≡ false
      → count p xs ≡ 0
  count-zero_of_any p q [] h e = refl
  count-zero_of_any p q (x ∷ xs) h e = ground (arith, h x, count-zero_of_any p q xs h)

module _ {ℓ} {A : Type ℓ} where
  pub any-map :
      (q : A → Bool) (g : A → A) (xs : List A)
      → ((x : A) → q (g x) ≡ q x)
      → any q (map g xs) ≡ any q xs
  any-map q g [] h = refl
  any-map q g (x ∷ xs) h = ground (arith, h x, any-map q g xs h)

  pub any-of_find :
      (p q : A → Bool) (xs : List A) (a : A) → find p xs ≡ some a → q a ≡ true → any q xs ≡ true
  any-of_find p q [] a e h = absurd (cc)
  any-of_find p q (x ∷ xs) a e h = elim (Bool-cases (p x)) [
    | inl y ↦ ground (arith, y)
    | inr n ↦ ground (arith, any-of_find p q xs a (ground (arith, n)) h)
  ]

  pub is_some-find : (p : A → Bool) (xs : List A) → is_some (find p xs) ≡ any p xs
  is_some-find p [] = refl
  is_some-find p (x ∷ xs) = ground (arith, is_some-find p xs)
