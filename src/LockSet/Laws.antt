-- ===== src/LockSet/Laws.antt =====
-- lock_set as a set of resources: what execute_command of problemset2/src/server.py does to it.
use cse.Prelude.{
  subst, ◌≡◌, refl, Bool, true, false, some, none, List, [], ◌∷◌, ◌++◌, ◌||◌, if◌then◌else◌, arith,
  Bool-cases, inl, inr, not,
}
use cse.Command.{CommandType, lock, unlock, none_type, ℤ, eq_int, eq_int_iff}
use cse.LockSet.{contains, remove, execute}

-- No resource stands in the list twice.
abbrev pub IsDistinct : List ℤ → Type 0
IsDistinct [] = Unit
IsDistinct (x ∷ xs) = (contains x xs ≡ false) × IsDistinct xs

pub contains-append :
    (r x : ℤ) (xs : List ℤ) → contains r (xs ++ x ∷ []) ≡ (contains r xs || eq_int x r)
unfolding contains
contains-append r x [] = ground arith
contains-append r x (y ∷ ys) = ground (arith, contains-append r x ys)

pub contains-remove :
    (r x : ℤ) (xs : List ℤ)
    → IsDistinct xs
    → contains x (remove r xs) ≡ (if eq_int r x then false else contains x xs)
unfolding contains remove
contains-remove r x [] d = ground arith
contains-remove r x (y ∷ ys) d =
    ground (arith, contains-remove r x ys d.1, eq_int_iff y r, eq_int_iff y x, eq_int_iff r x)

pub IsDistinct-append :
    (x : ℤ) (xs : List ℤ) → contains x xs ≡ false → IsDistinct xs → IsDistinct (xs ++ x ∷ [])
unfolding contains
IsDistinct-append x [] h d = (refl, tt)
IsDistinct-append x (y ∷ ys) h d = (
  ground (arith, contains-append y x ys, eq_int_iff x y, eq_int_iff y x),
  IsDistinct-append x ys (ground arith) d.1,
)

pub IsDistinct-remove : (r : ℤ) (xs : List ℤ) → IsDistinct xs → IsDistinct (remove r xs)
unfolding remove
IsDistinct-remove r [] d = tt
IsDistinct-remove r (y ∷ ys) d = elim (Bool-cases (eq_int y r)) [
  | inl same ↦ rw same d.1
  | inr other ↦
      rw other (ground (arith, contains-remove r y ys d.1, d.0), IsDistinct-remove r ys d.1)
]

-- The second assertion of each branch never fails on distinct resources.
pub execute-lock :
    (r : ℤ) (locks : List ℤ)
    → execute lock r locks ≡ (if contains r locks then none else some (locks ++ r ∷ []))
unfolding execute
execute-lock r locks = ground (arith, contains-append r r locks, eq_int_iff r r)

pub execute-unlock :
    (r : ℤ) (locks : List ℤ)
    → IsDistinct locks
    → execute unlock r locks ≡ (if contains r locks then some (remove r locks) else none)
unfolding execute
execute-unlock r locks d = ground (arith, contains-remove r r locks d, eq_int_iff r r)

-- A LOCK leaves its resource in the set.
abbrev pub takes : CommandType → Bool
takes lock = true
takes unlock = false
takes none_type = false

-- The abstract command: `locks'` is a possible state after the command on `r` in `locks`.
abbrev pub Executes : CommandType → ℤ → List ℤ → List ℤ → Type 0
Executes t r locks locks' =
    (contains r locks ≡ not (takes t))
    × IsDistinct locks'
    × ((x : ℤ) → contains x locks' ≡ (if eq_int r x then takes t else contains x locks))

lock-Executes :
    (r : ℤ) (locks : List ℤ)
    → IsDistinct locks
    → contains r locks ≡ false
    → Executes lock r locks (locks ++ r ∷ [])
lock-Executes r locks d free =
    (free, IsDistinct-append r locks free d, λ x. ground (arith, contains-append x r locks))

unlock-Executes :
    (r : ℤ) (locks : List ℤ)
    → IsDistinct locks
    → contains r locks ≡ true
    → Executes unlock r locks (remove r locks)
unlock-Executes r locks d held =
    (held, IsDistinct-remove r locks d, λ x. contains-remove r x locks d)

-- An executed command keeps the resources distinct. It is a LOCK of a free resource or an UNLOCK of
-- a held one, and afterwards its resource is held exactly after a LOCK, every other one as before.
pub execute-Executes :
    (t : CommandType) (r : ℤ) (locks : List ℤ) {locks' : List ℤ}
    → IsDistinct locks
    → execute t r locks ≡ some locks'
    → Executes t r locks locks'
execute-Executes lock r locks {locks'} d h = elim (Bool-cases (contains r locks)) [
  | inl held ↦ absurd (ground (arith, execute-lock r locks))
  | inr free ↦
      let e : locks ++ r ∷ [] ≡ locks' = ground (arith, execute-lock r locks) in
      subst (Executes lock r locks) e (lock-Executes r locks d free)
]
execute-Executes unlock r locks {locks'} d h = elim (Bool-cases (contains r locks)) [
  | inl held ↦
      let e : remove r locks ≡ locks' = ground (arith, execute-unlock r locks d) in
      subst (Executes unlock r locks) e (unlock-Executes r locks d held)
  | inr free ↦ absurd (ground (arith, execute-unlock r locks d))
]
execute-Executes none_type r locks {locks'} d h = unfold execute in cc
