-- ===== src/Examples/Paths.antt =====
-- The loops over a small graph with a cycle.
use cse.Prelude.{ℕ, suc, ◌≡◌, ◌↔◌, refl, List, [], ◌∷◌, some, Memᴰ}
use cse.Bfs.{Distance, start, loop, loop_improved}
use cse.Bfs.Ending.{loop-IsExact, most_pairs}
use cse.Bfs.Loops.{IsExact}
use cse.Bfs.Improved.{loop_improved-IsExact, loop-loop_improved}
use cse.Examples.LocalSpark.{reduce, insert_min, join, pick, local}

-- Papers 0 and 1 are seeds; 2 and 3 cite each other.
abbrev graph : List (ℕ × ℕ)
graph = (0, 2) ∷ (1, 2) ∷ (2, 3) ∷ (3, 2) ∷ []

abbrev distances : List Distance
distances = ((3, 1), 2) ∷ ((3, 0), 2) ∷ ((1, 1), 0) ∷ ((0, 0), 0) ∷ ((2, 1), 1) ∷ ((2, 0), 1) ∷ []

-- The rows that the loop ends with, in some order.
ends : loop local graph 17 0 (start 2) ≡ some distances
unfolding loop start pick join insert_min reduce
ends = refl

loop-IsExact_example :
    (xs : List Distance) × (loop local graph (suc (most_pairs graph 2)) 0 (start 2) ≡ some xs)
    × IsExact graph 2 xs
loop-IsExact_example = loop-IsExact graph 2 local

loop_improved-IsExact_example :
    (xs : List Distance) × (loop_improved local graph
        (suc (most_pairs graph 2))
        1
        0
        (start 2, start 2)
      ≡ some xs)
    × IsExact graph 2 xs
loop_improved-IsExact_example = loop_improved-IsExact graph 2 local

loop-loop_improved_example :
    (xs : List Distance) × (ys : List Distance) × (loop local graph
        (suc (most_pairs graph 2))
        0
        (start 2)
      ≡ some xs)
    × (loop_improved local graph (suc (most_pairs graph 2)) 1 0 (start 2, start 2) ≡ some ys)
    × ((x : Distance) → Memᴰ x xs ↔ Memᴰ x ys)
loop-loop_improved_example = loop-loop_improved graph 2 local
