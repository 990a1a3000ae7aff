-- ===== src/Dict.antt =====
-- Python dictionaries as association lists, the newest key last: what the scripts of project/src do
-- with theirs.
use cse.Prelude.{ℕ, ◌+◌, ◌≡◌, refl, arith, Bool, List, [], ◌∷◌, Option, some, none, if◌then◌else◌}

module _ {K : Type 0} (same : K → K → Bool) {V : Type 0} where
  -- d.get(k)
  unfoldable pub get? : K → List (K × V) → Option V
  get? k [] = none
  get? k ((j, v) ∷ d) = if same j k then some v else get? k d

  -- d[k] = v
  unfoldable pub put : K → V → List (K × V) → List (K × V)
  put k v [] = (k, v) ∷ []
  put k v ((j, w) ∷ d) = if same j k then (j, v) ∷ d else (j, w) ∷ put k v d

  -- d.pop(k, None)
  unfoldable pub pop : K → List (K × V) → List (K × V)
  pop k [] = []
  pop k ((j, v) ∷ d) = if same j k then d else (j, v) ∷ pop k d

-- The sum of the values.
abbrev pub total : {K : Type 0} → List (K × ℕ) → ℕ
total [] = 0
total ((k, n) ∷ d) = n + total d

module _ {K : Type 0} (same : K → K → Bool) where
  -- The count of a key goes up by one, from nothing to 1.
  unfoldable pub add_one : K → List (K × ℕ) → List (K × ℕ)
  add_one k [] = (k, 1) ∷ []
  add_one k ((j, n) ∷ d) = if same j k then (j, n + 1) ∷ d else (j, n) ∷ add_one k d

  pub total-add_one : (k : K) (d : List (K × ℕ)) → total (add_one k d) ≡ total d + 1
  unfolding add_one
  total-add_one k [] = refl
  total-add_one k ((j, n) ∷ d) = ground (arith, total-add_one k d)
