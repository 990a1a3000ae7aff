-- ===== src/Prelude/Counting.antt =====
-- Lists whose elements have different numbers below a bound: there are no more than the bound.
use Prim.Native.Nat.{ℕ, zero, suc, ◌≤◌, ◌<◌}
use mathlib.Core.Path.{◌≡◌, refl, sym, ap, subst}
use mathlib.Core.Logic.{◌≢◌, inl, inr}
use mathlib.Core.List.{List, [], ◌∷◌, ◌++◌, Memᴰ}
use mathlib.Core.List.Memᴰ.{head, tail}
use native.Mathlib.Omega.{arith}
use cse.Prelude.Tests.{◌==◌, ==_iff, if◌then◌else◌, Bool-cases}
use cse.Prelude.Lists.{length, All, All-append}

module _ {A : Type 0} where
  -- What holds of every member.
  pub All_of_mem : (P : A → Type 0) (xs : List A) → ((x : A) → Memᴰ x xs → P x) → All P xs
  All_of_mem P [] h = tt
  All_of_mem P (x ∷ xs) h = (h x (head refl), All_of_mem P xs (λ y m. h y (tail m)))

  module _ (f : A → ℕ) where
    -- The numbers of the elements differ.
    abbrev pub IsSpread : List A → Type 0
    IsSpread [] = Unit
    IsSpread (x ∷ xs) = All (λ y. f x ≢ f y) xs × IsSpread xs

    without : ℕ → List A → List A
    without n [] = []
    without n (x ∷ xs) = if f x == n then without n xs else x ∷ without n xs

    without-absent :
        (n : ℕ) (xs : List A) → All (λ y. n ≢ f y) xs → length (without n xs) ≡ length xs
    unfolding without
    without-absent n [] h = refl
    without-absent n (x ∷ xs) h = elim (Bool-cases (f x == n)) [
      | inl same ↦ absurd (h.0 (sym ((==_iff (f x) n).0 same)))
      | inr other ↦ rw other (ap suc (without-absent n xs h.1))
    ]

    -- At most one element has the number.
    length-without : (n : ℕ) (xs : List A) → IsSpread xs → length xs ≤ suc (length (without n xs))
    unfolding without
    length-without n [] h = omega arith
    length-without n (x ∷ xs) h = elim (Bool-cases (f x == n)) [
      | inl same ↦
          let e : f x ≡ n = (==_iff (f x) n).0 same in
          rw same (omega (arith, without-absent n xs (subst (λ k. All (λ y. k ≢ f y) xs) e h.0)))
      | inr other ↦ rw other (omega (arith, length-without n xs h.1))
    ]

    without-All : (P : A → Type 0) (n : ℕ) (xs : List A) → All P xs → All P (without n xs)
    unfolding without
    without-All P n [] h = tt
    without-All P n (x ∷ xs) h = elim (Bool-cases (f x == n)) [
      | inl same ↦ rw same (without-All P n xs h.1)
      | inr other ↦ rw other (h.0, without-All P n xs h.1)
    ]

    without-IsSpread : (n : ℕ) (xs : List A) → IsSpread xs → IsSpread (without n xs)
    unfolding without
    without-IsSpread n [] h = tt
    without-IsSpread n (x ∷ xs) h = elim (Bool-cases (f x == n)) [
      | inl same ↦ rw same (without-IsSpread n xs h.1)
      | inr other ↦ rw other (without-All (λ y. f x ≢ f y) n xs h.0, without-IsSpread n xs h.1)
    ]

    without-below :
        (n : ℕ) (xs : List A) → All (λ x. f x < suc n) xs → All (λ x. f x < n) (without n xs)
    unfolding without
    without-below n [] h = tt
    without-below n (x ∷ xs) h = elim (Bool-cases (f x == n)) [
      | inl same ↦ rw same (without-below n xs h.1)
      | inr other ↦ rw other (ground arith, without-below n xs h.1)
    ]

    pub length-le-bound :
        (n : ℕ) (xs : List A) → IsSpread xs → All (λ x. f x < n) xs → length xs ≤ n
    length-le-bound zero [] h below = omega arith
    length-le-bound zero (x ∷ xs) h below = absurd (omega (arith, below.0))
    length-le-bound (suc n) xs h below = omega (
      arith,
      length-without n xs h,
      length-le-bound n (without n xs) (without-IsSpread n xs h) (without-below n xs below),
    )

    pub IsSpread-append :
        (xs ys : List A)
        → IsSpread xs
        → IsSpread ys
        → ((x y : A) → Memᴰ x xs → Memᴰ y ys → f x ≢ f y)
        → IsSpread (xs ++ ys)
    IsSpread-append [] ys hx hy h = hy
    IsSpread-append (x ∷ xs) ys hx hy h = (
      All-append (λ y. f x ≢ f y) xs ys hx.0
          (All_of_mem (λ y. f x ≢ f y) ys (λ y m. h x y (head refl) m)),
      IsSpread-append xs ys hx.1 hy (λ z y m k. h z y (tail m) k),
    )
