-- ===== src/Prefix.antt =====
-- The first elements of a list, as the client and the lock files of problemset2/src use them.
use cse.Prelude.{ℕ, zero, suc, ◌≡◌, ◌⊎◌, refl, ap, inl, inr, List, [], ◌∷◌, ◌++◌}

abbrev pub take {ℓ} : {A : Type ℓ} → ℕ → List A → List A
take zero xs = []
take (suc n) [] = []
take (suc n) (x ∷ xs) = x ∷ take n xs

-- A prefix of an appended list ends in the first part, or holds it and a prefix of the second.
pub take-append {ℓ} :
    {A : Type ℓ} (k : ℕ) (xs ys : List A)
    → (take k (xs ++ ys) ≡ take k xs) ⊎ ((j : ℕ) × (take k (xs ++ ys) ≡ xs ++ take j ys))
take-append zero xs ys = inl refl
take-append (suc k) [] ys = inr (suc k, refl)
take-append (suc k) (x ∷ xs) ys = elim (take-append k xs ys) [
  | inl e ↦ inl (ap (λ zs. x ∷ zs) e)
  | inr (j, e) ↦ inr (j, ap (λ zs. x ∷ zs) e)
]

pub take-nil {ℓ} : {A : Type ℓ} (k : ℕ) → take {A = A} k [] ≡ []
take-nil zero = refl
take-nil (suc k) = refl
