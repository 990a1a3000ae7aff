-- ===== src/Bfs/Loops.antt =====
-- The loops of problemset3/src/lca.py and lca_improved.py end, with the shortest distances.
use cse.Prelude.{
  ℕ, zero, suc, ◌+◌, ◌≤◌, ◌<◌, ◌≡◌, ◌↔◌, ◌∙◌, refl, sym, ap, subst, List, [], ◌∷◌, map, inl, inr,
  Memᴰ, length, arith, Bool-cases, ◌==◌, ==_iff,
}
use mathlib.Core.List.Memᴰ.{head, tail}
use cse.Bfs.{Key, Distance, IsDistinct, seeds_from, start}
use cse.Bfs.Pigeonhole.{length-le, all_of, map-mem, mem-map}
use cse.Bfs.Shortest.{Reaches, Covers, IsShortest, Covers-IsShortest}

pub length-map : {A B : Type 0} (f : A → B) (xs : List A) → length (map f xs) ≡ length xs
length-map f [] = refl
length-map f (x ∷ xs) = ap suc (length-map f xs)

pub seeds_from-mem : (i n x : ℕ) → i ≤ x → x < i + n → Memᴰ x (seeds_from i n)
unfolding seeds_from
seeds_from-mem i zero x le lt = absurd (omega (arith, le, lt))
seeds_from-mem i (suc n) x le lt = elim (Bool-cases (i == x)) [
  | inl same ↦ head (sym ((==_iff i x).0 same))
  | inr other ↦ tail (seeds_from-mem (suc i) n x (ground (arith, other, le)) (omega (arith, lt)))
]

mem-seeds_from : (i n x : ℕ) → Memᴰ x (seeds_from i n) → (i ≤ x) × (x < i + n)
unfolding seeds_from
mem-seeds_from i zero x m = elim m [ ]
mem-seeds_from i (suc n) x (head e) = (omega (arith, e), omega (arith, e))
mem-seeds_from i (suc n) x (tail m) =
    let (le, lt) = mem-seeds_from (suc i) n x m in (omega (arith, le), omega (arith, lt))

pub length-seeds_from : (i n : ℕ) → length (seeds_from i n) ≡ n
unfolding seeds_from
length-seeds_from i zero = refl
length-seeds_from i (suc n) = ap suc (length-seeds_from (suc i) n)

start-IsDistinct :
    (i n : ℕ)
    → IsDistinct (map (λ (x : Distance). x.0) (map (λ (x : ℕ). ((x, x), 0)) (seeds_from i n)))
unfolding seeds_from
start-IsDistinct i zero = tt
start-IsDistinct i (suc n) = (
  λ m.
      let (x, k, e) =
        mem-map (λ y. y.0) (i, i) (map (λ (x : ℕ). ((x, x), 0)) (seeds_from (suc i) n)) m in
      let (y, l, same) = mem-map (λ (x : ℕ). ((x, x), 0)) x (seeds_from (suc i) n) k in
      let low = (mem-seeds_from (suc i) n y l).0 in
      omega (arith, low, ap (λ z. z.0) e, ap (λ z. z.0.0) same),
  start-IsDistinct (suc i) n,
)

module _ (edges : List (ℕ × ℕ)) (n : ℕ) where
  pub start-Covers : Covers edges n 0 (start n)
  unfolding start
  start-Covers = record {
    sound = λ v s d m.
        let (x, k, e) = mem-map (λ x. ((x, x), 0)) ((v, s), d) (seeds_from 0 n) m in
        let low = (mem-seeds_from 0 n x k).1 in
        (
          omega (arith, low, ap (λ z. z.0.1) e),
          subst (Reaches edges s v) (sym (ap (λ z. z.1) e))
              (ap (λ z. z.0.1) e ∙ sym (ap (λ z. z.0.0) e)),
          omega (arith, ap (λ z. z.1) e),
        );
    complete = λ v s d lt p le.
        let none_left : d ≡ 0 = omega (arith, le) in
        let same : s ≡ v = subst (Reaches edges s v) none_left p in
        (
          0,
          omega (arith, le),
          subst
              (λ y. Memᴰ {A = Distance} ((y, s), 0) (map (λ (x : ℕ). ((x, x), 0)) (seeds_from 0 n)))
              same
              (map-mem {B = Distance} (λ (x : ℕ). ((x, x), 0)) s (seeds_from 0 n)
                (seeds_from-mem 0 n s (omega arith) (omega (arith, lt)))),
        );
    distinct = start-IsDistinct 0 n;
  }

  -- The members are exactly the shortest distances.
  abbrev pub IsExact : List Distance → Type 0
  IsExact xs = (v s d : ℕ) → Memᴰ ((v, s), d) xs ↔ IsShortest edges n v s d

  -- Old keys stay.
  key_stays :
      (k : ℕ) (xs ys : List Distance)
      → Covers edges n k xs
      → Covers edges n (suc k) ys
      → (z : Key) → Memᴰ z (map (λ x. x.0) xs)
      → Memᴰ z (map (λ x. x.0) ys)
  key_stays k xs ys c c' z m =
      let (((v, s), d), at, e) = mem-map (λ x. x.0) z xs m in
      let (lt, p, le) = c.sound v s d at in
      let (j, j_le, there) = c'.complete v s d lt p (omega (arith, le)) in
      subst (λ x. Memᴰ x (map (λ x. x.0) ys)) (sym e) (map-mem (λ x. x.0) ((v, s), j) ys there)

  pub grows :
      (k : ℕ) (xs ys : List Distance)
      → Covers edges n k xs
      → Covers edges n (suc k) ys
      → length xs ≤ length ys
  grows k xs ys c c' = omega (
    arith,
    length-map (λ (x : Distance). x.0) xs,
    length-map (λ (x : Distance). x.0) ys,
    length-le (map (λ x. x.0) xs) (map (λ x. x.0) ys) c.distinct (key_stays k xs ys c c'),
  )

  module _ (k : ℕ) (xs ys : List Distance) (c : Covers edges n k xs)
      (c' : Covers edges n (suc k) ys) (same : length ys ≤ length xs) where
    old_key : (z : Key) → Memᴰ z (map (λ x. x.0) ys) → Memᴰ z (map (λ x. x.0) xs)
    old_key = all_of (map (λ x. x.0) xs) (map (λ x. x.0) ys) c.distinct (key_stays k xs ys c c') (
        omega (
          arith,
          length-map (λ (x : Distance). x.0) xs,
          length-map (λ (x : Distance). x.0) ys,
          same,
        ))

    -- With no new key, every path has a distance already.
    closed : (s v d : ℕ) → s < n → Reaches edges s v d → (e : ℕ) × (e ≤ d) × Memᴰ ((v, s), e) xs
    closed s v zero lt p = c.complete v s 0 lt p (omega arith)
    closed s v (suc d) lt (u, p, edge) =
        let (d', d_le, at) = closed s u d lt p in
        let (lt', q, short) = c.sound u s d' at in
        let (j, j_le, there) = c'.complete v s (suc d') lt (u, q, edge) (omega (arith, short)) in
        let (((v0, s0), e), here, key) =
          mem-map (λ x. x.0) (v, s) xs (old_key (v, s) (map-mem (λ x. x.0) ((v, s), j) ys there)) in
        let now : Memᴰ ((v, s), e) xs = subst (λ z. Memᴰ {A = Distance} (z, e) xs) (sym key) here in
        let least : e ≤ suc d' =
          (Covers-IsShortest edges n k xs c v s e now).2 (suc d') (u, q, edge) in
        (e, omega (arith, d_le, least), now)

    pub stops-IsExact : IsExact ys
    stops-IsExact v s d = (
      Covers-IsShortest edges n (suc k) ys c' v s d,
      λ (lt, p, least).
          let (e, e_le, at) = closed s v d lt p in
          let (lt', q, short) = c.sound v s e at in
          let (j, j_le, there) = c'.complete v s e lt q (omega (arith, short)) in
          let (lt'', r, short') = c'.sound v s j there in
          let same : j ≡ d = omega (arith, e_le, j_le, least j r) in
          subst (λ x. Memᴰ ((v, s), x) ys) same there,
    )
