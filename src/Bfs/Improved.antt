-- ===== src/Bfs/Improved.antt =====
-- The loop of problemset3/src/lca_improved.py, which extends the rows of the last round only, finds what
-- that of lca.py finds.
use cse.Bfs.Ending.{search, from_start, loop-IsExact, most_pairs}
use cse.Prelude.{
  ◌↔◌, false, true, ℕ, zero, suc, ◌+◌, ◌<◌, ◌≡◌, ◌∙◌, refl, sym, ap, subst, List, [], ◌∷◌, ◌++◌,
  some, inl, inr, Memᴰ, length, arith, Bool-cases, ◌==◌, ==_iff, if◌then◌else◌,
}
use mathlib.Core.List.Memᴰ.{head, tail, append_left, append_cases, append_right}
use cse.Bfs.{loop_improved, next_step, Key, Distance, Spark, start, last_of, round_improved, loop}
use cse.Bfs.Shortest.{extended, mem-next_step, next_step-mem, reduce-Covers, Reaches, Covers}
use cse.Bfs.Loops.{start-Covers, IsExact}

last_of-mem :
    (r d : ℕ) (z : Key) (xs : List Distance) → Memᴰ (z, d) (last_of r xs) → Memᴰ (z, d) xs × (d ≡ r)
unfolding last_of
last_of-mem r d z [] m = elim m [ ]
last_of-mem r d z ((y, e) ∷ xs) m = elim (Bool-cases (e == r)) [
  | inl same ↦
      kept same
        (subst (λ b. Memᴰ (z, d) (if b then (y, e) ∷ last_of r xs else last_of r xs)) same m)
        (last_of-mem r d z xs)
  | inr other ↦
      let (k, q) =
        last_of-mem r d z xs
          (subst (λ b. Memᴰ (z, d) (if b then (y, e) ∷ last_of r xs else last_of r xs)) other m) in
      (tail k, q)
]
  where
    kept :
        (e == r) ≡ true
        → Memᴰ (z, d) ((y, e) ∷ last_of r xs)
        → (Memᴰ (z, d) (last_of r xs) → Memᴰ (z, d) xs × (d ≡ r))
        → Memᴰ (z, d) ((y, e) ∷ xs) × (d ≡ r)
    kept same (head q) ih = (head q, ap (λ x. x.1) q ∙ (==_iff e r).0 same)
    kept same (tail l) ih = let (k, q) = ih l in (tail k, q)

mem-last_of : (r : ℕ) (z : Key) (xs : List Distance) → Memᴰ (z, r) xs → Memᴰ (z, r) (last_of r xs)
unfolding last_of
mem-last_of r z [] m = elim m [ ]
mem-last_of r z ((y, e) ∷ xs) m = elim (Bool-cases (e == r)) [
  | inl same ↦ rw same (here m (mem-last_of r z xs))
  | inr other ↦ rw other (there other m (mem-last_of r z xs))
]
  where
    here :
        Memᴰ (z, r) ((y, e) ∷ xs)
        → (Memᴰ (z, r) xs → Memᴰ (z, r) (last_of r xs))
        → Memᴰ (z, r) ((y, e) ∷ last_of r xs)
    here (head q) ih = head q
    here (tail l) ih = tail (ih l)

    there :
        (e == r) ≡ false
        → Memᴰ (z, r) ((y, e) ∷ xs)
        → (Memᴰ (z, r) xs → Memᴰ (z, r) (last_of r xs))
        → Memᴰ (z, r) (last_of r xs)
    there other (head q) ih = absurd (ground (arith, other, ap (λ x. x.1) q))
    there other (tail l) ih = ih l

module _ (edges : List (ℕ × ℕ)) (n : ℕ) where
  -- The last step holds the ends of all paths with as many edges as there were rounds.
  record IsFrontier (k : ℕ) (xs : List Distance) : Type 0 where
    only : (v s d : ℕ) → Memᴰ ((v, s), d) xs → (s < n) × (d ≡ k) × Reaches edges s v k
    all : (v s : ℕ) → s < n → Reaches edges s v k → Memᴰ ((v, s), k) xs

  start-IsFrontier : IsFrontier 0 (start n)
  start-IsFrontier = record {
    only = λ v s d m.
        let (lt, p, le) = (start-Covers edges n).sound v s d m in
        let z : d ≡ 0 = omega (arith, le) in (lt, z, subst (Reaches edges s v) z p);
    all = λ v s lt p.
        let (e, le, m) = (start-Covers edges n).complete v s 0 lt p (omega arith) in
        let z : e ≡ 0 = omega (arith, le) in subst (λ x. Memᴰ ((v, s), x) (start n)) z m;
  }

  module _ (spark : Spark) where
    -- The distances and the last step after each round of lca_improved.py.
    rounds_improved : ℕ → List Distance × List Distance
    rounds_improved zero = (start n, start n)
    rounds_improved (suc k) = round_improved spark edges (suc k) (rounds_improved k)

    step-IsFrontier :
        (k : ℕ) (last : List Distance)
        → IsFrontier k last
        → IsFrontier (suc k) (last_of (suc k) (next_step spark edges last))
    step-IsFrontier k last f = record {
      only = λ v s d m.
          let (now, size) = last_of-mem (suc k) d (v, s) (next_step spark edges last) m in
          let (u, e, same, at, edge) = next_step-mem edges n spark v s d last now in
          let (lt, e_k, p) = f.only u s e at in (lt, size, (u, p, edge));
      all = λ v s lt p.
          let (u, q, edge) = p in
          let longer : k + 1 ≡ suc k = omega arith in
          mem-last_of (suc k) (v, s) (next_step spark edges last)
            (subst (λ x. Memᴰ ((v, s), x) (next_step spark edges last)) longer
              (mem-next_step edges n spark u v s k last (f.all u s lt q) edge));
    }

    step-Covers :
        (k : ℕ) (xs last : List Distance)
        → Covers edges n k xs
        → IsFrontier k last
        → Covers edges n (suc k) (spark.reduce_by_key (xs ++ next_step spark edges last))
    step-Covers k xs last c f =
        reduce-Covers edges n spark k xs (xs ++ next_step spark edges last) c
          (λ x m. append_left (next_step spark edges last) m)
          (λ v s d m. elim (append_cases xs m) [
            | inl old ↦ let (lt, p, le) = c.sound v s d old in (lt, p, omega (arith, le))
            | inr now ↦
                let (u, e, same, at, edge) = next_step-mem edges n spark v s d last now in
                let (lt, e_k, p) = f.only u s e at in
                extended edges n spark k v s d u e same
                  (lt, subst (Reaches edges s u) (sym e_k) p, omega (arith, e_k)) edge
          ])
          (λ v s lt p.
            let (u, q, edge) = p in
            (
              k + 1,
              omega arith,
              append_right xs (mem-next_step edges n spark u v s k last (f.all u s lt q) edge),
            ))

    rounds_improved-Covers :
        (k : ℕ) → Covers edges n k (rounds_improved k).0 × IsFrontier k (rounds_improved k).1
    unfolding rounds_improved round_improved
    rounds_improved-Covers zero = (start-Covers edges n, start-IsFrontier)
    rounds_improved-Covers (suc k) =
        let (c, f) = rounds_improved-Covers k in
        (
          step-Covers k (rounds_improved k).0 (rounds_improved k).1 c f,
          step-IsFrontier k (rounds_improved k).1 f,
        )

    loop_improved-search :
        (fuel k old : ℕ)
        → loop_improved spark edges fuel (suc k) old (rounds_improved k)
          ≡ search edges n
              (λ j. (rounds_improved j).0)
              (λ j. (rounds_improved-Covers j).0)
              fuel
              k
              old
    unfolding loop_improved search rounds_improved
    loop_improved-search zero k old = refl
    loop_improved-search (suc fuel) k old =
        rw (loop_improved-search fuel (suc k) (length (rounds_improved k).0)) refl

    -- The loop of lca_improved.py ends after at most (n + number of edges) * n + 1 rounds, and its distances
    -- are exactly the lengths of the shortest paths from the seeds below n.
    pub loop_improved-IsExact :
        (xs : List Distance) × (loop_improved spark edges
            (suc (most_pairs edges n))
            1
            0
            (start n, start n)
          ≡ some xs)
        × IsExact edges n xs
    unfolding rounds_improved
    loop_improved-IsExact =
        let (xs, e, exact) =
          from_start edges n (λ j. (rounds_improved j).0) (λ j. (rounds_improved-Covers j).0)
            refl in
        (xs, loop_improved-search (suc (most_pairs edges n)) 0 0 ∙ e, exact)

    -- Over the same edges and seeds, the loops of lca.py and of lca_improved.py both end, after at most
    -- (n + number of edges) * n + 1 rounds, and with the same rows, in whatever order.
    pub loop-loop_improved :
        (xs : List Distance) × (ys : List Distance) × (loop spark edges
            (suc (most_pairs edges n))
            0
            (start n)
          ≡ some xs)
        × (loop_improved spark edges (suc (most_pairs edges n)) 1 0 (start n, start n) ≡ some ys)
        × ((x : Distance) → Memᴰ x xs ↔ Memᴰ x ys)
    loop-loop_improved =
        let (xs, e, exact) = loop-IsExact edges n spark in
        let (ys, e', exact') = loop_improved-IsExact in
        (
          xs,
          ys,
          e,
          e',
          λ ((v, s), d). (
            λ m. (exact' v s d).1 ((exact v s d).0 m),
            λ m. (exact v s d).1 ((exact' v s d).0 m),
          ),
        )
