-- ===== src/Lca.antt =====
-- The choice of the lowest common ancestor in problemset3/src/lca.py: the ancestors of a pair of
-- seeds, and the reduction of all that a pair has to one. Ids and years are numbers of digits.
pub mod Lowest
use cse.Prelude.{ℕ, Bool, List, [], ◌∷◌, ◌++◌, Option, none, some, ltb, ◌==◌, not, if◌then◌else◌}

-- (vertex, distance, year): a value of the reduction.
pub record Ancestor : Type 0 where
  pub vertex : ℕ
  pub distance : ℕ
  pub year : ℕ

-- (vertex, ((s1, d1, y1), (s2, d2, y2))): a row of the join of pd with itself.
pub record Row : Type 0 where
  pub v : ℕ
  pub s1 : ℕ
  pub d1 : ℕ
  pub y1 : ℕ
  pub s2 : ℕ
  pub d2 : ℕ
  pub y2 : ℕ

abbrev pub max : ℕ → ℕ → ℕ
max m n = if ltb m n then n else m

-- The filter: the smaller seed stands first.
abbrev pub is_ordered : Row → Bool
is_ordered e = ltb e.s1 e.s2

-- transform_accestors; `none` is its failed assertion.
unfoldable pub transform_accestors : Row → Option ((ℕ × ℕ) × Ancestor)
transform_accestors e =
    if e.y1 == e.y2
    then some ((e.s1, e.s2), record { vertex = e.v; distance = max e.d1 e.d2; year = e.y1 })
    else none

-- compare_accestors
unfoldable pub compare_accestors : Ancestor → Ancestor → Ancestor
compare_accestors v1 v2 =
    if not (v1.distance == v2.distance)
    then (if ltb v1.distance v2.distance then v1 else v2)
    else if not (v1.year == v2.year)
    then (if ltb v1.year v2.year then v1 else v2)
    else (if ltb v1.vertex v2.vertex then v1 else v2)

-- The values of one key, in the order and with the grouping in which reduceByKey combines them, which
-- Spark does not fix.
pub data Grouping : Type 0 where
  one : Ancestor → Grouping
  combined : Grouping → Grouping → Grouping

abbrev pub values : Grouping → List Ancestor
values (one a) = a ∷ []
values (combined l r) = values l ++ values r

unfoldable pub reduce : Grouping → Ancestor
unfolding compare_accestors
reduce (one a) = a
reduce (combined l r) = compare_accestors (reduce l) (reduce r)
