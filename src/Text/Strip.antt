-- ===== src/Text/Strip.antt =====
-- When str.strip has nothing to remove, and where it stops.
use cse.Prelude.{ℕ, ◌≡◌, ◌≢◌, refl, true, false, Bool, [], ◌∷◌, ◌++◌, All}
use cse.Text.{Text, keep, lstrip, rstrip, strip}

module _ (drops : ℕ → Bool) where
  -- No character is removed.
  abbrev pub IsKept : Text → Type 0
  IsKept s = All (λ c. drops c ≡ false) s

  pub rstrip_kept : (s : Text) → IsKept s → rstrip drops s ≡ s
  unfolding rstrip
  rstrip_kept [] h = refl
  rstrip_kept (c ∷ cs) h = rw (rstrip_kept cs h.1) (last cs)
    where
      last : (cs : Text) → keep drops c cs ≡ c ∷ cs
      last [] = rw h.0 refl
      last (d ∷ ds) = refl

  -- Characters in front of one that stays stay.
  pub rstrip-append :
      (s t : Text) → rstrip drops t ≢ [] → rstrip drops (s ++ t) ≡ s ++ rstrip drops t
  unfolding rstrip
  rstrip-append [] t h = refl
  rstrip-append (c ∷ cs) t h = rw (rstrip-append cs t h) (inner cs (rstrip drops t) h)
    where
      inner : (cs r : Text) → r ≢ [] → keep drops c (cs ++ r) ≡ c ∷ cs ++ r
      inner [] [] h = absurd (h refl)
      inner [] (d ∷ ds) h = refl
      inner (x ∷ xs) r h = refl

  -- A character at the end goes.
  pub rstrip_dropped :
      (s : Text) (c : ℕ) → drops c ≡ true → rstrip drops (s ++ c ∷ []) ≡ rstrip drops s
  unfolding rstrip
  rstrip_dropped [] c h = rw h refl
  rstrip_dropped (d ∷ ds) c h = rw (rstrip_dropped ds c h) refl

  -- A text that begins with a character that stays, and ends with a part that stays.
  pub strip-append :
      (c : ℕ) (s t : Text)
      → drops c ≡ false
      → rstrip drops t ≢ []
      → strip drops (c ∷ s ++ t) ≡ c ∷ s ++ rstrip drops t
  unfolding strip lstrip
  strip-append c s t h k = rw h (rstrip-append (c ∷ s) t k)

  pub strip_kept : (s : Text) → IsKept s → strip drops s ≡ s
  unfolding strip lstrip
  strip_kept [] h = unfold rstrip in refl
  strip_kept (c ∷ cs) h = rw h.0 (rstrip_kept (c ∷ cs) h)
