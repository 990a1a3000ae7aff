-- ===== src/Examples/LocalSpark.antt =====
-- Spark's operations on lists, for the search over a concrete graph.
use cse.Prelude.{
  ℕ, ◌≤◌, ◌≡◌, ◌∙◌, refl, sym, ap, subst, true, false, Bool, ◌&&◌, List, [], ◌∷◌, ◌++◌, map, inl,
  inr, Memᴰ, arith, Bool-cases, and_split, ltb, ◌==◌, ==_iff, if◌then◌else◌,
}
use mathlib.Core.List.Memᴰ.{head, tail, append_left, append_right, append_cases}
use cse.Bfs.{Key, Distance, IsDistinct, Spark}

abbrev pub Joined : Type 0
Joined = ℕ × ((ℕ × ℕ) × ℕ)

unfoldable pub pick : ℕ → ℕ × ℕ → List (ℕ × ℕ) → List Joined
pick v sd [] = []
pick v sd ((a, b) ∷ edges) =
    let rest = pick v sd edges in if a == v then (v, (sd, b)) ∷ rest else rest

unfoldable pub join : List (ℕ × (ℕ × ℕ)) → List (ℕ × ℕ) → List Joined
join [] edges = []
join ((v, sd) ∷ xs) edges = pick v sd edges ++ join xs edges

abbrev Found : ℕ → ℕ × ℕ → List (ℕ × ℕ) → Joined → Type 0
Found v sd edges x = (x.0 ≡ v) × (x.1.0 ≡ sd) × Memᴰ (v, x.1.1) edges

pick-mem :
    (v : ℕ) (sd : ℕ × ℕ) (edges : List (ℕ × ℕ)) (x : Joined)
    → Memᴰ x (pick v sd edges)
    → Found v sd edges x
unfolding pick
pick-mem v sd [] x m = elim m [ ]
pick-mem v sd ((a, b) ∷ edges) x m = elim (Bool-cases (a == v)) [
  | inl here ↦
      found here
        (subst (λ c. Memᴰ x (if c then (v, (sd, b)) ∷ pick v sd edges else pick v sd edges)) here m)
        (pick-mem v sd edges x)
  | inr there ↦
      let (e, f, k) = pick-mem v sd edges x (
        subst (λ c. Memᴰ x (if c then (v, (sd, b)) ∷ pick v sd edges else pick v sd edges)) there
          m) in
      (e, f, tail k)
]
  where
    found :
        (a == v) ≡ true
        → Memᴰ x ((v, (sd, b)) ∷ pick v sd edges)
        → (Memᴰ x (pick v sd edges) → Found v sd edges x)
        → Found v sd ((a, b) ∷ edges) x
    found here (head e) ih =
        let at : v ≡ a = sym ((==_iff a v).0 here) in
        (ap (λ y. y.0) e, ap (λ y. y.1.0) e, head (λ i. (at i, ap (λ y. y.1.1) e i)))
    found here (tail k) ih = let (e, f, l) = ih k in (e, f, tail l)

mem-pick :
    (v b : ℕ) (sd : ℕ × ℕ) (edges : List (ℕ × ℕ))
    → Memᴰ (v, b) edges
    → Memᴰ (v, (sd, b)) (pick v sd edges)
unfolding pick
mem-pick v b sd [] m = elim m [ ]
mem-pick v b sd ((a, c) ∷ edges) (head e) =
    let here : (a == v) ≡ true = (==_iff a v).1 (sym (ap (λ x. x.0) e)) in
    rw here (head (λ i. (v, (sd, ap (λ x. x.1) e i))))
mem-pick v b sd ((a, c) ∷ edges) (tail m) = elim (Bool-cases (a == v)) [
  | inl here ↦ rw here (tail (mem-pick v b sd edges m))
  | inr there ↦ rw there (mem-pick v b sd edges m)
]

pub join_found :
    (xs : List (ℕ × (ℕ × ℕ))) (edges : List (ℕ × ℕ)) (v1 v2 : ℕ) (sd : ℕ × ℕ)
    → Memᴰ (v1, (sd, v2)) (join xs edges)
    → Memᴰ (v1, sd) xs × Memᴰ (v1, v2) edges
unfolding join
join_found [] edges v1 v2 sd m = elim m [ ]
join_found ((v, sd') ∷ xs) edges v1 v2 sd m = elim (append_cases (pick v sd' edges) m) [
  | inl now ↦
      let (e, f, k) = pick-mem v sd' edges (v1, (sd, v2)) now in
      (head (λ i. (e i, f i)), subst (λ y. Memᴰ (y, v2) edges) (sym e) k)
  | inr later ↦ let (k, l) = join_found xs edges v1 v2 sd later in (tail k, l)
]

pub found_join :
    (xs : List (ℕ × (ℕ × ℕ))) (edges : List (ℕ × ℕ)) (v1 v2 : ℕ) (sd : ℕ × ℕ)
    → Memᴰ (v1, sd) xs
    → Memᴰ (v1, v2) edges
    → Memᴰ (v1, (sd, v2)) (join xs edges)
unfolding join
found_join [] edges v1 v2 sd m k = elim m [ ]
found_join ((v, sd') ∷ xs) edges v1 v2 sd (head e) k =
    append_left (join xs edges)
      (subst (λ z. Memᴰ (v1, (sd, v2)) (pick z.0 z.1 edges)) e (mem-pick v1 v2 sd edges k))
found_join ((v, sd') ∷ xs) edges v1 v2 sd (tail m) k =
    append_right (pick v sd' edges) (found_join xs edges v1 v2 sd m k)

abbrev pub same_key : Key → Key → Bool
same_key j k = j.0 == k.0 && j.1 == k.1

same_key_lem : (j k : Key) → same_key j k ≡ true → j ≡ k
same_key_lem (a, b) (c, d) h =
    let (x, y) = and_split (a == c) _ h in λ i. ((==_iff a c).0 x i, (==_iff b d).0 y i)

unfoldable pub insert_min : Distance → List Distance → List Distance
insert_min x [] = x ∷ []
insert_min x (y ∷ ys) =
    let rest = insert_min x ys in
    if same_key y.0 x.0 then (if ltb x.1 y.1 then x ∷ ys else y ∷ ys) else y ∷ rest

unfoldable pub reduce : List Distance → List Distance
reduce [] = []
reduce (x ∷ xs) = insert_min x (reduce xs)

insert_min-mem : (x z : Distance) (ys : List Distance) → Memᴰ z (insert_min x ys) → Memᴰ z (x ∷ ys)
unfolding insert_min
insert_min-mem x z [] m = m
insert_min-mem x z (y ∷ ys) m = elim (Bool-cases (same_key y.0 x.0)) [
  | inl same ↦ elim (Bool-cases (ltb x.1 y.1)) [
    | inl less ↦ behind (
        subst
          (λ (p : Bool × Bool).
            Memᴰ z (if p.0 then (if p.1 then x ∷ ys else y ∷ ys) else y ∷ insert_min x ys))
          (λ i. (same i, less i)) m)
    | inr more ↦ tail (
        subst
          (λ (p : Bool × Bool).
            Memᴰ z (if p.0 then (if p.1 then x ∷ ys else y ∷ ys) else y ∷ insert_min x ys))
          (λ i. (same i, more i)) m)
  ]
  | inr other ↦
      past
        (subst
          (λ b.
            Memᴰ z (if b then (if ltb x.1 y.1 then x ∷ ys else y ∷ ys) else y ∷ insert_min x ys))
          other m)
        (insert_min-mem x z ys)
]
  where
    behind : Memᴰ z (x ∷ ys) → Memᴰ z (x ∷ y ∷ ys)
    behind (head e) = head e
    behind (tail k) = tail (tail k)

    past :
        Memᴰ z (y ∷ insert_min x ys)
        → (Memᴰ z (insert_min x ys) → Memᴰ z (x ∷ ys))
        → Memᴰ z (x ∷ y ∷ ys)
    past (head e) ih = tail (head e)
    past (tail k) ih = behind (ih k)

pub reduce-mem : (xs : List Distance) (z : Distance) → Memᴰ z (reduce xs) → Memᴰ z xs
unfolding reduce
reduce-mem [] z m = m
reduce-mem (x ∷ xs) z m = step (insert_min-mem x z (reduce xs) m) (reduce-mem xs z)
  where
    step : Memᴰ z (x ∷ reduce xs) → (Memᴰ z (reduce xs) → Memᴰ z xs) → Memᴰ z (x ∷ xs)
    step (head e) ih = head e
    step (tail k) ih = tail (ih k)

-- A row of the key with a distance that is at most as large.
abbrev pub Has : Distance → List Distance → Type 0
Has z xs = (e : Distance) × (e.0 ≡ z.0) × (e.1 ≤ z.1) × Memᴰ e xs

has : (z : Distance) (xs : List Distance) → Memᴰ z xs → Has z xs
has z xs m = (z, refl, omega arith, m)

insert_min-Has : (x z : Distance) (ys : List Distance) → Memᴰ z (x ∷ ys) → Has z (insert_min x ys)
unfolding insert_min
insert_min-Has x z [] m = has z (x ∷ []) m
insert_min-Has x z (y ∷ ys) m = elim (Bool-cases (same_key y.0 x.0)) [
  | inl same ↦ elim (Bool-cases (ltb x.1 y.1)) [
    | inl less ↦ rw (same, less) (replaced (same_key_lem y.0 x.0 same) (ground (arith, less)) m)
    | inr more ↦ rw (same, more) (kept (same_key_lem y.0 x.0 same) (ground (arith, more)) m)
  ]
  | inr other ↦ rw other (behind m (insert_min-Has x z ys))
]
  where
    replaced : y.0 ≡ x.0 → x.1 ≤ y.1 → Memᴰ z (x ∷ y ∷ ys) → Has z (x ∷ ys)
    replaced k le (head e) = has z (x ∷ ys) (head e)
    replaced k le (tail (head e)) =
        (x, sym k ∙ sym (ap (λ w. w.0) e), omega (arith, le, ap (λ w. w.1) e), head refl)
    replaced k le (tail (tail l)) = has z (x ∷ ys) (tail l)

    kept : y.0 ≡ x.0 → y.1 ≤ x.1 → Memᴰ z (x ∷ y ∷ ys) → Has z (y ∷ ys)
    kept k le (head e) =
        (y, k ∙ sym (ap (λ w. w.0) e), omega (arith, le, ap (λ w. w.1) e), head refl)
    kept k le (tail l) = has z (y ∷ ys) l

    later : Has z (insert_min x ys) → Has z (y ∷ insert_min x ys)
    later (e, k, le, l) = (e, k, le, tail l)

    behind :
        Memᴰ z (x ∷ y ∷ ys)
        → (Memᴰ z (x ∷ ys) → Has z (insert_min x ys))
        → Has z (y ∷ insert_min x ys)
    behind (head e) ih = later (ih (head e))
    behind (tail (head e)) ih = has z (y ∷ insert_min x ys) (head e)
    behind (tail (tail l)) ih = later (ih (tail l))

pub reduce-Has : (xs : List Distance) (z : Distance) → Memᴰ z xs → Has z (reduce xs)
unfolding reduce
reduce-Has [] z m = elim m [ ]
reduce-Has (x ∷ xs) z (head e) = insert_min-Has x z (reduce xs) (head e)
reduce-Has (x ∷ xs) z (tail m) =
    let (w, k, le, l) = reduce-Has xs z m in
    let (u, k', le', l') = insert_min-Has x w (reduce xs) (tail l) in
    (u, k' ∙ k, omega (arith, le, le'), l')

abbrev pub keys : List Distance → List Key
keys xs = map (λ x. x.0) xs

insert_min-keys :
    (x : Distance) (k : Key) (ys : List Distance)
    → Memᴰ k (keys (insert_min x ys))
    → Memᴰ k (x.0 ∷ keys ys)
unfolding insert_min
insert_min-keys x k [] m = m
insert_min-keys x k (y ∷ ys) m = elim (Bool-cases (same_key y.0 x.0)) [
  | inl same ↦ elim (Bool-cases (ltb x.1 y.1)) [
    | inl less ↦ behind (
        subst
          (λ (p : Bool × Bool).
            Memᴰ k (keys (if p.0 then (if p.1 then x ∷ ys else y ∷ ys) else y ∷ insert_min x ys)))
          (λ i. (same i, less i)) m)
    | inr more ↦ tail (
        subst
          (λ (p : Bool × Bool).
            Memᴰ k (keys (if p.0 then (if p.1 then x ∷ ys else y ∷ ys) else y ∷ insert_min x ys)))
          (λ i. (same i, more i)) m)
  ]
  | inr other ↦
      past
        (subst
          (λ b.
            Memᴰ k
              (keys (if b then (if ltb x.1 y.1 then x ∷ ys else y ∷ ys) else y ∷ insert_min x ys)))
          other m)
        (insert_min-keys x k ys)
]
  where
    behind : Memᴰ k (x.0 ∷ keys ys) → Memᴰ k (x.0 ∷ y.0 ∷ keys ys)
    behind (head e) = head e
    behind (tail l) = tail (tail l)

    past :
        Memᴰ k (y.0 ∷ keys (insert_min x ys))
        → (Memᴰ k (keys (insert_min x ys)) → Memᴰ k (x.0 ∷ keys ys))
        → Memᴰ k (x.0 ∷ y.0 ∷ keys ys)
    past (head e) ih = tail (head e)
    past (tail l) ih = behind (ih l)

insert_min-IsDistinct :
    (x : Distance) (ys : List Distance) → IsDistinct (keys ys) → IsDistinct (keys (insert_min x ys))
unfolding insert_min
insert_min-IsDistinct x [] h = (λ m. elim m [ ], tt)
insert_min-IsDistinct x (y ∷ ys) h = elim (Bool-cases (same_key y.0 x.0)) [
  | inl same ↦ elim (Bool-cases (ltb x.1 y.1)) [
    | inl less ↦
        rw (same, less)
          (λ m. h.0 (subst (λ k. Memᴰ k (keys ys)) (sym (same_key_lem y.0 x.0 same)) m), h.1)
    | inr more ↦ rw (same, more) h
  ]
  | inr other ↦
      rw other (λ m. split (insert_min-keys x y.0 ys m) other, insert_min-IsDistinct x ys h.1)
]
  where
    split : Memᴰ y.0 (x.0 ∷ keys ys) → same_key y.0 x.0 ≡ false → ⊥
    split (head e) no_key = ground (arith, no_key, ap (λ k. k.0) e, ap (λ k. k.1) e)
    split (tail l) no_key = h.0 l

pub reduce-IsDistinct : (xs : List Distance) → IsDistinct (keys (reduce xs))
unfolding reduce
reduce-IsDistinct [] = tt
reduce-IsDistinct (x ∷ xs) = insert_min-IsDistinct x (reduce xs) (reduce-IsDistinct xs)

abbrev pub local : Spark
local = record {
  join = join;
  join-mem = λ xs edges v1 v2 sd.
      (join_found xs edges v1 v2 sd, λ (m, k). found_join xs edges v1 v2 sd m k);
  reduce_by_key = reduce;
  reduced-mem = reduce-mem;
  reduced-least = λ xs k d m.
      let (e, same, le, l) = reduce-Has xs (k, d) m in
      (e.1, le, subst (λ j. Memᴰ (j, e.1) (reduce xs)) same l);
  reduced-distinct = reduce-IsDistinct;
}
