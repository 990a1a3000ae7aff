-- ===== src/Bfs.antt =====
-- The shortest paths from the seeds in problemset3/src: the loop of lca.py, and that of
-- lca_improved.py, which extends the paths of the last round only. An RDD is the list that collect
-- returns; join and reduceByKey are those of Spark, a parameter with the laws that the loops rely on.
pub mod Pigeonhole
pub mod Shortest
pub mod Loops
pub mod Ending
pub mod Improved
use cse.Prelude.{
  ℕ, zero, suc, ◌+◌, ◌≤◌, ◌≡◌, ◌↔◌, Bool, List, [], ◌∷◌, ◌++◌, map, Option, some, none, Memᴰ,
  length, ◌==◌, if◌then◌else◌,
}

-- (v, s): a vertex and a seed.
abbrev pub Key : Type 0
Key = ℕ × ℕ

-- ((v, s), d)
abbrev pub Distance : Type 0
Distance = Key × ℕ

-- No element stands twice.
abbrev pub IsDistinct {ℓ} : {A : Type ℓ} → List A → Type ℓ
IsDistinct [] = Unit
IsDistinct (x ∷ xs) = (Memᴰ x xs → ⊥) × IsDistinct xs

-- The operations of Spark on which the order of an RDD depends.
pub record Spark : Type 0 where
  -- rdd.join(edges), for pairs (v1, (s, d)) and edges (v1, v2)
  pub join : List (ℕ × (ℕ × ℕ)) → List (ℕ × ℕ) → List (ℕ × ((ℕ × ℕ) × ℕ))
  pub join-mem :
      (xs : List (ℕ × (ℕ × ℕ))) (edges : List (ℕ × ℕ)) (v1 v2 : ℕ) (sd : ℕ × ℕ)
      → Memᴰ (v1, (sd, v2)) (join xs edges) ↔ (Memᴰ (v1, sd) xs × Memᴰ (v1, v2) edges)
  -- rdd.reduceByKey(lambda a, b: a if a < b else b)
  pub reduce_by_key : List Distance → List Distance
  pub reduced-mem : (xs : List Distance) (x : Distance) → Memᴰ x (reduce_by_key xs) → Memᴰ x xs
  pub reduced-least :
      (xs : List Distance) (k : Key) (d : ℕ)
      → Memᴰ (k, d) xs
      → (e : ℕ) × (e ≤ d) × Memᴰ (k, e) (reduce_by_key xs)
  pub reduced-distinct : (xs : List Distance) → IsDistinct (map (λ x. x.0) (reduce_by_key xs))

-- range(N), from `i` on
unfoldable pub seeds_from : ℕ → ℕ → List ℕ
seeds_from i zero = []
seeds_from i (suc n) = i ∷ seeds_from (suc i) n

-- The first distances: each seed from itself.
unfoldable pub start : ℕ → List Distance
unfolding seeds_from
start n = map (λ x. ((x, x), 0)) (seeds_from 0 n)

-- lambda ((v, s), d): (v, (s, d))
abbrev pub by_vertex : Distance → ℕ × (ℕ × ℕ)
by_vertex ((v, s), d) = (v, (s, d))

-- lambda (v1, ((s, d), v2)): ((v2, s), d+1)
abbrev pub extend : ℕ × ((ℕ × ℕ) × ℕ) → Distance
extend (v1, ((s, d), v2)) = ((v2, s), d + 1)

-- The rows whose distance is the number of the round.
unfoldable pub last_of : ℕ → List Distance → List Distance
last_of bfs_round [] = []
last_of bfs_round ((k, d) ∷ xs) =
    let rest = last_of bfs_round xs in if d == bfs_round then (k, d) ∷ rest else rest

module _ (spark : Spark) (edges : List (ℕ × ℕ)) where
  unfoldable pub next_step : List Distance → List Distance
  next_step xs = map extend (spark.join (map by_vertex xs) edges)

  -- A round of lca.py.
  unfoldable pub round : List Distance → List Distance
  unfolding next_step
  round distances = spark.reduce_by_key (next_step distances ++ distances)

  -- The loop of lca.py; `none` if the fuel ends before it does.
  unfoldable pub loop : ℕ → ℕ → List Distance → Option (List Distance)
  unfolding round
  loop zero old_count distances = if old_count == length distances then some distances else none
  loop (suc fuel) old_count distances =
      let rest = loop fuel (length distances) (round distances) in
      if old_count == length distances then some distances else rest

  -- A round of lca_improved.py: distances and last_step.
  unfoldable pub round_improved : ℕ → List Distance × List Distance → List Distance × List Distance
  unfolding next_step last_of
  round_improved bfs_round (distances, last_step) =
      let next = next_step last_step in
      (spark.reduce_by_key (distances ++ next), last_of bfs_round next)

  unfoldable pub loop_improved : ℕ → ℕ → ℕ → List Distance × List Distance → Option (List Distance)
  unfolding round_improved
  loop_improved zero bfs_round old_count (distances, last_step) =
      if old_count == length distances then some distances else none
  loop_improved (suc fuel) bfs_round old_count (distances, last_step) =
      let rest =
        loop_improved fuel (suc bfs_round) (length distances)
          (round_improved bfs_round (distances, last_step)) in
      if old_count == length distances then some distances else rest
