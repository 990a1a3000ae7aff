-- ===== src/ClientFiles/Longest.antt =====
-- The choice of the most complete server log in validate_client_file of problemset2/src/lock_file.py.
use cse.Prelude.{
  ap, ◌∙◌, ℕ, ◌≤◌, ◌≡◌, refl, List, [], ◌∷◌, map, All, some, Memᴰ, arith, inl, inr, Bool-cases, ltb,
}
use mathlib.Core.List.Memᴰ.{head, tail}
use cse.ClientFiles.{ServerFile, longest}

module _ (line_count : ServerFile → ℕ) (file : ℕ → ServerFile) where
  -- The file of `t` is chosen of those of `ms`, and has the most lines.
  pub record Chosen (ms : List ℕ) (t : ℕ) : Type 0 where
    pub one_of : Memᴰ t ms
    pub most : All (λ s. line_count (file s) ≤ line_count (file t)) ms

  still :
      (s b t : ℕ) (ms : List ℕ)
      → line_count (file b) ≤ line_count (file s)
      → Chosen (s ∷ ms) t
      → Chosen (b ∷ s ∷ ms) t
  still s b t ms le h = record {
    one_of = tail h.one_of;
    most = (omega (arith, le, h.most.0), h.most);
  }

  skip :
      (s b t : ℕ) (ms : List ℕ)
      → line_count (file s) ≤ line_count (file b)
      → Chosen (b ∷ ms) t
      → Chosen (b ∷ s ∷ ms) t
  skip s b t ms le h = record {
    one_of = past h.one_of;
    most = (h.most.0, (omega (arith, le, h.most.0), h.most.1));
  }
    where
      past : Memᴰ t (b ∷ ms) → Memᴰ t (b ∷ s ∷ ms)
      past (head e) = head e
      past (tail m) = tail (tail m)

  pub longest_from :
      (b : ℕ) (ms : List ℕ)
      → (t : ℕ) × Chosen (b ∷ ms) t
        × (longest line_count (map file ms) (some (file b)) ≡ some (file t))
  unfolding longest
  longest_from b [] = (b, record { one_of = head refl; most = (omega arith, tt) }, refl)
  longest_from b (s ∷ ms) = elim (Bool-cases (ltb (line_count (file b)) (line_count (file s)))) [
    | inl more ↦
        let (t, h, e) = longest_from s ms in
        (
          t,
          still s b t ms (ground (arith, more)) h,
          ap (longest line_count (map file ms)) (rw more refl) ∙ e,
        )
    | inr less ↦
        let (t, h, e) = longest_from b ms in
        (
          t,
          skip s b t ms (ground (arith, less)) h,
          ap (longest line_count (map file ms)) (rw less refl) ∙ e,
        )
  ]
