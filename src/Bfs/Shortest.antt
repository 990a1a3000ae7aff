-- ===== src/Bfs/Shortest.antt =====
-- After each round of the loops of problemset3/src, the distances are those of the shortest paths with at
-- most as many edges as there were rounds.
use cse.Prelude.{
  ℕ, zero, suc, ◌+◌, ◌≤◌, ◌<◌, ◌≡◌, ◌∙◌, sym, ap, subst, List, [], ◌∷◌, ◌++◌, map, ◌⊎◌, inl, inr,
  Memᴰ, arith, Bool-cases, ◌==◌, ==_iff,
}
use mathlib.Core.List.Memᴰ.{head, tail, append_left, append_right, append_cases}
use cse.Bfs.{Key, Distance, IsDistinct, Spark, by_vertex, extend, next_step, round}
use cse.Bfs.Pigeonhole.{map-mem, mem-map}

-- A path of `d` edges from `s` to `v`.
abbrev pub Reaches : List (ℕ × ℕ) → ℕ → ℕ → ℕ → Type 0
Reaches edges s v zero = s ≡ v
Reaches edges s v (suc d) = (u : ℕ) × Reaches edges s u d × Memᴰ (u, v) edges

keys : List Distance → List Key
keys xs = map (λ x. x.0) xs

-- With distinct keys, a key has one distance.
pub one_distance :
    (xs : List Distance) (k : Key) (d e : ℕ)
    → IsDistinct (map (λ x. x.0) xs)
    → Memᴰ (k, d) xs
    → Memᴰ (k, e) xs
    → d ≡ e
one_distance [] k d e h m m' = elim m [ ]
one_distance (x ∷ xs) k d e h (head p) (head q) = ap (λ y. y.1) (p ∙ sym q)
one_distance (x ∷ xs) k d e h (head p) (tail q) = absurd (
    h.0
      (subst (λ z. Memᴰ z (map (λ x. x.0) xs)) (ap (λ y. y.0) p) (map-mem (λ x. x.0) (k, e) xs q)))
one_distance (x ∷ xs) k d e h (tail p) (head q) = absurd (
    h.0
      (subst (λ z. Memᴰ z (map (λ x. x.0) xs)) (ap (λ y. y.0) q) (map-mem (λ x. x.0) (k, d) xs p)))
one_distance (x ∷ xs) k d e h (tail p) (tail q) = one_distance xs k d e h.1 p q

module _ (edges : List (ℕ × ℕ)) (n : ℕ) where
  -- The distances are those of paths with at most `k` edges from the seeds below `n`, and of the
  -- shortest ones.
  pub record Covers (k : ℕ) (xs : List Distance) : Type 0 where
    pub sound : (v s d : ℕ) → Memᴰ ((v, s), d) xs → (s < n) × Reaches edges s v d × (d ≤ k)
    pub complete :
        (v s d : ℕ) → s < n → Reaches edges s v d → d ≤ k → (e : ℕ) × (e ≤ d) × Memᴰ ((v, s), e) xs
    pub distinct : IsDistinct (map (λ x. x.0) xs)

  -- The number is the length of a shortest path.
  abbrev pub IsShortest : ℕ → ℕ → ℕ → Type 0
  IsShortest v s d = (s < n) × Reaches edges s v d × ((e : ℕ) → Reaches edges s v e → d ≤ e)

  pub Covers-IsShortest :
      (k : ℕ) (xs : List Distance)
      → Covers k xs
      → (v s d : ℕ) → Memᴰ ((v, s), d) xs
      → IsShortest v s d
  Covers-IsShortest k xs c v s d m =
      let (lt, path, le) = c.sound v s d m in
      (
        lt,
        path,
        λ e p. elim (le_or k e) [
          | inl short ↦
              let (j, j_le, at) = c.complete v s e lt p short in
              omega (arith, j_le, one_distance xs (v, s) d j c.distinct m at)
          | inr long ↦ omega (arith, le, long)
        ],
      )
    where
      le_or : (k e : ℕ) → (e ≤ k) ⊎ (k < e)
      le_or k e = ground arith

  module _ (spark : Spark) where
    pub next_step-mem :
        (v s d : ℕ) (xs : List Distance)
        → Memᴰ ((v, s), d) (next_step spark edges xs)
        → (u : ℕ) × (e : ℕ) × (d ≡ e + 1) × Memᴰ ((u, s), e) xs × Memᴰ (u, v) edges
    unfolding next_step
    next_step-mem v s d xs m =
        let ((v1, ((t, e), v2)), k, same) =
          mem-map extend ((v, s), d) (spark.join (map by_vertex xs) edges) m in
        let (at, edge) = (spark.join-mem (map by_vertex xs) edges v1 v2 (t, e)).0 k in
        let (((u, w), j), l, there) = mem-map by_vertex (v1, (t, e)) xs at in
        let v_same : v ≡ v2 = ap (λ x. x.0.0) same in
        let s_same : s ≡ t = ap (λ x. x.0.1) same in
        let w_same : w ≡ s = sym (ap (λ x. x.1.0) there) ∙ sym s_same in
        let u_same : u ≡ v1 = sym (ap (λ x. x.0) there) in
        let j_same : j ≡ e = sym (ap (λ x. x.1.1) there) in
        let row : ((u, w), j) ≡ ((v1, s), e) = λ i. ((u_same i, w_same i), j_same i) in
        (
          v1,
          e,
          ap (λ x. x.1) same,
          subst (λ x. Memᴰ x xs) row l,
          subst (λ x. Memᴰ (v1, x) edges) (sym v_same) edge,
        )

    pub mem-next_step :
        (u v s d : ℕ) (xs : List Distance)
        → Memᴰ ((u, s), d) xs
        → Memᴰ (u, v) edges
        → Memᴰ ((v, s), d + 1) (next_step spark edges xs)
    unfolding next_step
    mem-next_step u v s d xs m edge =
        map-mem extend (u, ((s, d), v)) (spark.join (map by_vertex xs) edges)
          ((spark.join-mem (map by_vertex xs) edges u v (s, d)).1
            (map-mem by_vertex ((u, s), d) xs m, edge))

    -- What a round makes of distances that cover `k` edges covers one more, if to the old ones it adds
    -- only extensions of paths, and all those of the paths with `k` edges.
    pub reduce-Covers :
        (k : ℕ) (xs all : List Distance)
        → Covers k xs
        → ((x : Distance) → Memᴰ x xs → Memᴰ x all)
        → ((v s d : ℕ) → Memᴰ ((v, s), d) all → (s < n) × Reaches edges s v d × (d ≤ suc k))
        → ((v s : ℕ)
            → s < n
            → Reaches edges s v (suc k)
            → (e : ℕ) × (e ≤ suc k) × Memᴰ ((v, s), e) all)
        → Covers (suc k) (spark.reduce_by_key all)
    reduce-Covers k xs all c old new last = record {
      sound = λ v s d m. new v s d (spark.reduced-mem all ((v, s), d) m);
      complete = λ v s d lt p le. elim (Bool-cases (d == suc k)) [
        | inl most ↦
            let e : d ≡ suc k = (==_iff d (suc k)).0 most in
            let (j, j_le, at) = last v s lt (subst (Reaches edges s v) e p) in
            let (i, i_le, there) = spark.reduced-least all (v, s) j at in
            (i, omega (arith, i_le, j_le, e), there)
        | inr less ↦
            let (j, j_le, at) = c.complete v s d lt p (ground (arith, less, le)) in
            let (i, i_le, there) = spark.reduced-least all (v, s) j (old ((v, s), j) at) in
            (i, omega (arith, i_le, j_le), there)
      ];
      distinct = spark.reduced-distinct all;
    }

    pub extended :
        (k v s d u e : ℕ)
        → d ≡ e + 1
        → (s < n) × Reaches edges s u e × (e ≤ k)
        → Memᴰ (u, v) edges
        → (s < n) × Reaches edges s v d × (d ≤ suc k)
    extended k v s d u e same h edge =
        let longer : suc e ≡ d = omega (arith, same) in
        (h.0, subst (Reaches edges s v) longer (u, h.1, edge), omega (arith, same, h.2))

    pub round-Covers :
        (k : ℕ) (xs : List Distance) → Covers k xs → Covers (suc k) (round spark edges xs)
    unfolding round
    round-Covers k xs c =
        reduce-Covers k xs (next_step spark edges xs ++ xs) c
          (λ x m. append_right (next_step spark edges xs) m)
          (λ v s d m. elim (append_cases (next_step spark edges xs) m) [
            | inl now ↦
                let (u, e, same, at, edge) = next_step-mem v s d xs now in
                extended k v s d u e same (c.sound u s e at) edge
            | inr old ↦ let (lt, p, le) = c.sound v s d old in (lt, p, omega (arith, le))
          ])
          (λ v s lt p.
            let (u, q, edge) = p in
            let (e, e_le, at) = c.complete u s k lt q (omega arith) in
            (e + 1, omega (arith, e_le), append_left xs (mem-next_step u v s e xs at edge)))
