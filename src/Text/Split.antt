-- ===== src/Text/Split.antt =====
-- str.split: how many words there are, and where the first one ends.
use cse.Prelude.{
  ℕ, suc, ◌+◌, ◌≡◌, refl, false, true, List, [], ◌∷◌, ◌++◌, All, length, arith, inl, inr,
  Bool-cases, ◌==◌, if◌then◌else◌,
}
use cse.Text.{Text, push, split}

module _ (sep : ℕ) where
  -- How often the separator stands in a text.
  abbrev pub count : Text → ℕ
  count [] = 0
  count (c ∷ cs) = let n = count cs in if c == sep then suc n else n

  pub count-append : (s t : Text) → count (s ++ t) ≡ count s + count t
  count-append [] t = omega arith
  count-append (c ∷ cs) t = ground (arith, count-append cs t)

  length-push : (c : ℕ) (ws : List Text) {n : ℕ} → length ws ≡ suc n → length (push c ws) ≡ suc n
  length-push c [] h = absurd (omega (arith, h))
  length-push c (w ∷ ws) h = h

  pub length-split : (s : Text) → length (split sep s) ≡ suc (count s)
  unfolding split
  length-split [] = refl
  length-split (c ∷ cs) = elim (Bool-cases (c == sep)) [
    | inl here ↦ rw here (omega (arith, length-split cs))
    | inr other ↦ rw other (length-push c (split sep cs) (length-split cs))
  ]

  -- The separator is not in the text.
  abbrev pub IsFree : Text → Type 0
  IsFree s = All (λ c. (c == sep) ≡ false) s

  pub count_free : (s : Text) → IsFree s → count s ≡ 0
  count_free [] h = refl
  count_free (c ∷ cs) h = rw h.0 (count_free cs h.1)

  pub split_free : (s : Text) → IsFree s → split sep s ≡ s ∷ []
  unfolding split
  split_free [] h = refl
  split_free (c ∷ cs) h = rw (h.0, split_free cs h.1) refl

  pub split-append : (s t : Text) → IsFree s → split sep (s ++ sep ∷ t) ≡ s ∷ split sep t
  unfolding split
  split-append [] t h = let here : (sep == sep) ≡ true = ground arith in rw here refl
  split-append (c ∷ cs) t h = rw (h.0, split-append cs t h.1) refl
