-- ===== src/Bfs/Ending.antt =====
-- Both loops of problemset3/src come to an end, and with the same distances: there are only so many
-- pairs of a vertex and a seed.
use cse.Prelude.{
  true, ℕ, zero, suc, ◌+◌, ◌*◌, ◌≤◌, ◌<◌, ◌≡◌, ◌∙◌, refl, sym, ap, subst, List, [], ◌∷◌, ◌++◌, map,
  Option, some, none, inl, inr, Memᴰ, length, length-append, arith, Bool-cases, ◌==◌, ==_iff,
  if◌then◌else◌,
}
use mathlib.Core.List.Memᴰ.{head, tail, append_left, append_right}
use cse.Bfs.{Key, Distance, Spark, seeds_from, start, round, loop}
use cse.Bfs.Pigeonhole.{length-le, map-mem, mem-map}
use cse.Bfs.Shortest.{Reaches, Covers, round-Covers}
use cse.Bfs.Loops.{
  length-map, seeds_from-mem, length-seeds_from, start-Covers, IsExact, grows, stops-IsExact,
}

-- All pairs of two lists.
pairs : List ℕ → List ℕ → List Key
pairs [] ss = []
pairs (v ∷ vs) ss = map (λ s. (v, s)) ss ++ pairs vs ss

length-pairs : (vs ss : List ℕ) → length (pairs vs ss) ≡ length vs * length ss
unfolding pairs
length-pairs [] ss = omega arith
length-pairs (v ∷ vs) ss = grind (
  arith,
  length-append (map (λ s. (v, s)) ss) (pairs vs ss),
  length-map {A = ℕ} {B = Key} (λ s. (v, s)) ss,
  length-pairs vs ss,
)

pairs-mem : (v s : ℕ) (vs ss : List ℕ) → Memᴰ v vs → Memᴰ s ss → Memᴰ (v, s) (pairs vs ss)
unfolding pairs
pairs-mem v s [] ss m k = elim m [ ]
pairs-mem v s (x ∷ vs) ss (head e) k = append_left (pairs vs ss) (
    subst (λ y. Memᴰ {A = Key} (v, s) (map (λ z. (y, z)) ss)) e
      (map-mem {B = Key} (λ z. (v, z)) s ss k))
pairs-mem v s (x ∷ vs) ss (tail m) k = append_right (map (λ z. (x, z)) ss) (pairs-mem v s vs ss m k)

module _ (edges : List (ℕ × ℕ)) (n : ℕ) where
  -- No round has more pairs than these.
  abbrev pub most_pairs : ℕ
  most_pairs = (n + length edges) * n

  vertices : List ℕ
  vertices = seeds_from 0 n ++ map (λ e. e.1) edges

  reached : (s v d : ℕ) → s < n → Reaches edges s v d → Memᴰ v vertices
  unfolding vertices
  reached s v zero lt p = append_left (map (λ e. e.1) edges) (
      subst (λ x. Memᴰ x (seeds_from 0 n)) p
        (seeds_from-mem 0 n s (omega arith) (omega (arith, lt))))
  reached s v (suc d) lt (u, p, edge) =
      append_right (seeds_from 0 n) (map-mem (λ e. e.1) (u, v) edges edge)

  length-most : length (pairs vertices (seeds_from 0 n)) ≡ most_pairs
  unfolding vertices
  length-most =
      length-pairs vertices (seeds_from 0 n)
      ∙ grind (
        arith,
        length-append (seeds_from 0 n) (map (λ e. e.1) edges),
        length-seeds_from 0 n,
        length-map {A = ℕ × ℕ} {B = ℕ} (λ e. e.1) edges,
      )

  bounded : (k : ℕ) (xs : List Distance) → Covers edges n k xs → length xs ≤ most_pairs
  bounded k xs c = omega (
    arith,
    length-most,
    length-map (λ (x : Distance). x.0) xs,
    length-le (map (λ x. x.0) xs) (pairs vertices (seeds_from 0 n)) c.distinct (λ z m.
        let (((v, s), d), at, e) = mem-map (λ x. x.0) z xs m in
        let (lt, p, le) = c.sound v s d at in
        subst (λ x. Memᴰ x (pairs vertices (seeds_from 0 n))) (sym e)
          (pairs-mem v s vertices (seeds_from 0 n) (reached s v d lt p)
            (seeds_from-mem 0 n s (omega arith) (omega (arith, lt))))),
  )

  -- A loop over any sequence of distances that cover more and more.
  module _ (at : ℕ → List Distance) (covers : (k : ℕ) → Covers edges n k (at k)) where
    unfoldable pub search : ℕ → ℕ → ℕ → Option (List Distance)
    search zero k old = if old == length (at k) then some (at k) else none
    search (suc fuel) k old =
        let rest = search fuel (suc k) (length (at k)) in
        if old == length (at k) then some (at k) else rest

    search_stops : (fuel k old : ℕ) → old ≡ length (at k) → search fuel k old ≡ some (at k)
    unfolding search
    search_stops zero k old e =
        let now : (old == length (at k)) ≡ true = ground (arith, e) in rw now refl
    search_stops (suc fuel) k old e =
        let now : (old == length (at k)) ≡ true = ground (arith, e) in rw now refl

    abbrev Ends : Option (List Distance) → Type 0
    Ends o = (xs : List Distance) × (o ≡ some xs) × IsExact edges n xs

    next : (k : ℕ) → length (at k) ≡ length (at (suc k)) → IsExact edges n (at (suc k))
    next k e =
        stops-IsExact edges n k (at k) (at (suc k)) (covers k) (covers (suc k)) (omega (arith, e))

    search-Ends :
        (fuel k old : ℕ)
        → (old ≡ length (at k) → IsExact edges n (at k))
        → most_pairs < fuel + length (at k)
        → Ends (search fuel k old)
    unfolding search
    search-Ends zero k old stop enough = absurd (omega (arith, enough, bounded k (at k) (covers k)))
    search-Ends (suc fuel) k old stop enough = elim (Bool-cases (old == length (at k))) [
      | inl same ↦ rw same (at k, refl, stop ((==_iff old (length (at k))).0 same))
      | inr other ↦ rw other (elim (Bool-cases (length (at k) == length (at (suc k)))) [
        | inl same ↦
            let e : length (at k) ≡ length (at (suc k)) = (==_iff _ _).0 same in
            (at (suc k), search_stops fuel (suc k) (length (at k)) e, next k e)
        | inr more ↦ search-Ends fuel (suc k) (length (at k)) (next k) (
            ground (
              arith,
              enough,
              more,
              grows edges n k (at k) (at (suc k)) (covers k) (covers (suc k)),
            ))
      ])
    ]

    start_stop : at 0 ≡ start n → 0 ≡ length (at 0) → IsExact edges n (at 0)
    unfolding start
    start_stop e empty =
        let size : length (start n) ≡ n =
          length-map (λ x. ((x, x), 0)) (seeds_from 0 n) ∙ length-seeds_from 0 n in
        let none_here : n ≡ 0 = sym size ∙ ap length (sym e) ∙ sym empty in
        (λ v s d. (
          λ m. absurd (omega (arith, ((covers 0).sound v s d m).0, none_here)),
          λ h. absurd (omega (arith, h.0, none_here)),
        ))

    -- Enough fuel for a search from the start.
    abbrev fuel_for : ℕ
    fuel_for = suc most_pairs

    pub from_start : at 0 ≡ start n → Ends (search fuel_for 0 0)
    from_start e = search-Ends fuel_for 0 0 (start_stop e) (omega arith)

  module _ (spark : Spark) where
    -- The distances after each round of lca.py.
    rounds : ℕ → List Distance
    rounds zero = start n
    rounds (suc k) = round spark edges (rounds k)

    rounds-Covers : (k : ℕ) → Covers edges n k (rounds k)
    unfolding rounds
    rounds-Covers zero = start-Covers edges n
    rounds-Covers (suc k) = round-Covers edges n spark k (rounds k) (rounds-Covers k)

    loop-search :
        (fuel k old : ℕ)
        → loop spark edges fuel old (rounds k) ≡ search rounds rounds-Covers fuel k old
    unfolding loop search rounds
    loop-search zero k old = refl
    loop-search (suc fuel) k old = rw (loop-search fuel (suc k) (length (rounds k))) refl

    -- The loop of lca.py ends after at most (n + number of edges) * n + 1 rounds, and its distances are
    -- exactly the lengths of the shortest paths from the seeds below n: a vertex that a seed reaches has
    -- one, and nothing else is in it.
    pub loop-IsExact :
        (xs : List Distance) × (loop spark edges (suc most_pairs) 0 (start n) ≡ some xs)
        × IsExact edges n xs
    unfolding rounds
    loop-IsExact =
        let (xs, e, exact) = from_start rounds rounds-Covers refl in
        (xs, loop-search (suc most_pairs) 0 0 ∙ e, exact)
