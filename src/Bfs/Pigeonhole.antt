-- ===== src/Bfs/Pigeonhole.antt =====
-- Lists without repetition, by their elements.
use cse.Prelude.{
  ◌∙◌, suc, ◌≤◌, ◌≡◌, refl, sym, subst, List, [], ◌∷◌, ◌⊎◌, inl, inr, Memᴰ, length, arith, map, ap,
}
use mathlib.Core.List.Memᴰ.{head, tail}
use cse.Bfs.{IsDistinct}

module _ {A : Type 0} where
  -- A list without one of its elements.
  record Without (x : A) (ys : List A) : Type 0 where
    rest : List A
    size : length ys ≡ suc (length rest)
    splits : (y : A) → Memᴰ y ys → (y ≡ x) ⊎ Memᴰ y rest

  without : (x : A) (ys : List A) → Memᴰ x ys → Without x ys
  without x [] h = elim h [ ]
  without x (y ∷ ys) (head e) = record { rest = ys; size = refl; splits = splits }
    where
      splits : (z : A) → Memᴰ z (y ∷ ys) → (z ≡ x) ⊎ Memᴰ z ys
      splits z (head k) = inl (k ∙ sym e)
      splits z (tail m) = inr m
  without x (y ∷ ys) (tail m) =
      let w = without x ys m in
      record { rest = y ∷ w.rest; size = omega (arith, w.size); splits = splits w }
    where
      splits : (w : Without x ys) (z : A) → Memᴰ z (y ∷ ys) → (z ≡ x) ⊎ Memᴰ z (y ∷ w.rest)
      splits w z (head k) = inr (head k)
      splits w z (tail m) = elim (w.splits z m) [ inl e ↦ inl e | inr r ↦ inr (tail r) ]

  without-contains :
      (x : A) (xs ys : List A) (w : Without x ys)
      → (Memᴰ x xs → ⊥)
      → ((z : A) → Memᴰ z (x ∷ xs) → Memᴰ z ys)
      → (z : A) → Memᴰ z xs
      → Memᴰ z w.rest
  without-contains x xs ys w new sub z m = elim (w.splits z (sub z (tail m))) [
    | inl e ↦ absurd (new (subst (λ y. Memᴰ y xs) e m))
    | inr r ↦ r
  ]

  -- A list without repetition is not longer than one with all its elements.
  pub length-le :
      (xs ys : List A) → IsDistinct xs → ((z : A) → Memᴰ z xs → Memᴰ z ys) → length xs ≤ length ys
  length-le [] ys d sub = omega arith
  length-le (x ∷ xs) ys d sub =
      let w = without x ys (sub x (head refl)) in
      omega (arith, w.size, length-le xs w.rest d.1 (without-contains x xs ys w d.0 sub))

  -- If it is as long, it has all of them.
  pub all_of :
      (xs ys : List A)
      → IsDistinct xs
      → ((z : A) → Memᴰ z xs → Memᴰ z ys)
      → length ys ≤ length xs
      → (z : A) → Memᴰ z ys
      → Memᴰ z xs
  all_of [] [] d sub le z m = m
  all_of [] (y ∷ ys) d sub le z m = absurd (omega (arith, le))
  all_of (x ∷ xs) ys d sub le z m =
      let w = without x ys (sub x (head refl)) in
      elim (w.splits z m) [
        | inl e ↦ head e
        | inr r ↦ tail (
            all_of xs w.rest d.1 (without-contains x xs ys w d.0 sub) (omega (arith, le, w.size)) z
              r)
      ]

pub map-mem : {A B : Type 0} (f : A → B) (x : A) (xs : List A) → Memᴰ x xs → Memᴰ (f x) (map f xs)
map-mem f x [] h = elim h [ ]
map-mem f x (y ∷ ys) (head e) = head (ap f e)
map-mem f x (y ∷ ys) (tail m) = tail (map-mem f x ys m)

pub mem-map :
    {A B : Type 0} (f : A → B) (b : B) (xs : List A)
    → Memᴰ b (map f xs)
    → (x : A) × Memᴰ x xs × (b ≡ f x)
mem-map f b [] h = elim h [ ]
mem-map f b (y ∷ ys) (head e) = (y, head refl, e)
mem-map f b (y ∷ ys) (tail m) = let (x, k, e) = mem-map f b ys m in (x, tail k, e)
