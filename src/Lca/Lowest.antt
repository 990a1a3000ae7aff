-- ===== src/Lca/Lowest.antt =====
-- compare_accestors of problemset3/src/lca.py picks the least of its arguments, so that reduceByKey
-- has one result.
use cse.Prelude.{
  ◌↔◌, sym, subst, ◌≡◌, ◌<◌, ◌≤◌, ◌⊎◌, inl, inr, refl, List, All, All-append, All-map, All-mem,
  Memᴰ, arith,
}
use mathlib.Core.List.Memᴰ.{append_left, append_right}
use cse.Lca.{Ancestor, compare_accestors, Grouping, one, combined, values, reduce}

-- The order of ancestors: by distance, then by year, then by vertex.
abbrev pub IsBelow : Ancestor → Ancestor → Type 0
IsBelow a b =
    (a.distance < b.distance)
    ⊎ ((a.distance ≡ b.distance)
        × ((a.year < b.year) ⊎ ((a.year ≡ b.year) × (a.vertex ≤ b.vertex))))

IsBelow-trans : (a b c : Ancestor) → IsBelow a b → IsBelow b c → IsBelow a c
IsBelow-trans a b c h g = ground arith

IsBelow-antisym : (a b : Ancestor) → IsBelow a b → IsBelow b a → a ≡ b
IsBelow-antisym a b h g = ground arith

-- The comparison returns one of the two, and it is below both.
compare_accestors_lem :
    (a b : Ancestor)
    → ((compare_accestors a b ≡ a) × IsBelow a b) ⊎ ((compare_accestors a b ≡ b) × IsBelow b a)
unfolding compare_accestors
compare_accestors_lem a b = ground arith

compare_accestors-IsBelow :
    (a b c : Ancestor) → IsBelow a c ⊎ IsBelow b c → IsBelow (compare_accestors a b) c
compare_accestors-IsBelow a b c h = ground (arith, compare_accestors_lem a b)

-- The least of the values.
abbrev pub IsLowest : Ancestor → List Ancestor → Type 0
IsLowest a xs = Memᴰ a xs × All (IsBelow a) xs

-- However the values of a key are grouped, the reduction returns one of them, and it is below all of
-- them in the order by distance, year and vertex.
pub reduce-IsLowest : (g : Grouping) → IsLowest (reduce g) (values g)
unfolding reduce
reduce-IsLowest (one a) = (Memᴰ.head refl, (ground arith, tt))
reduce-IsLowest (combined l r) =
    let hl = reduce-IsLowest l in
    let hr = reduce-IsLowest r in
    let below =
      All-append (IsBelow (reduce (combined l r))) (values l) (values r)
        (All-map (IsBelow (reduce l)) (IsBelow (reduce (combined l r)))
          (λ x h. compare_accestors-IsBelow (reduce l) (reduce r) x (inl h)) (values l) hl.1)
        (All-map (IsBelow (reduce r)) (IsBelow (reduce (combined l r)))
          (λ x h. compare_accestors-IsBelow (reduce l) (reduce r) x (inr h)) (values r) hr.1) in
    elim (compare_accestors_lem (reduce l) (reduce r)) [
      | inl h ↦ (
        subst (λ z. Memᴰ z (values (combined l r))) (sym h.0) (append_left (values r) hl.0),
        below,
      )
      | inr h ↦ (
        subst (λ z. Memᴰ z (values (combined l r))) (sym h.0) (append_right (values l) hr.0),
        below,
      )
    ]

-- The order and the grouping in which the values are combined do not matter, and a value that comes
-- twice counts once: two reductions of the same values have the same result.
pub reduce_unique :
    (g h : Grouping)
    → ((a : Ancestor) → Memᴰ a (values g) ↔ Memᴰ a (values h))
    → reduce g ≡ reduce h
reduce_unique g h same =
    let low = reduce-IsLowest g in
    let low' = reduce-IsLowest h in
    IsBelow-antisym (reduce g) (reduce h)
      (All-mem (IsBelow (reduce g)) (values g) low.1 ((same (reduce h)).1 low'.0))
      (All-mem (IsBelow (reduce h)) (values h) low'.1 ((same (reduce g)).0 low.0))
