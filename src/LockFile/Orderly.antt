-- ===== src/LockFile/Orderly.antt =====
-- The order of the lines of make_lock_file in problemset2/src/lock_file.py: no lock is released before
-- it is taken.
use Prim.Native.Nat.{zero}
use mathlib.Core.Option.{none}
use cse.Prelude.{refl, append-nil, inr, ◌≡◌, ◌∷◌, inl, arith, ◌≤◌, ◌++◌, Bool-cases, ℕ}
use cse.Prefix.{take-nil, take, take-append}
use cse.Command.{eq_command, Command}
use cse.LockFile.{
  suc, [], get_elem?, ltb, some, List, Option, lock_line, unlock_line, Draw, Progress, release,
  turn, release_all,
}
use cse.LockFile.Balance.{count-append, holds, locks_of, unlocks_of, IsTracked}

-- Every prefix of the file locks every resource at least as often as it unlocks it.
abbrev pub IsOrderly : List Command → Type 0
IsOrderly cs = (n k : ℕ) → unlocks_of n (take k cs) ≤ locks_of n (take k cs)

-- One more line.
snoc-IsOrderly :
    (cs : List Command) (c : Command)
    → ((n : ℕ) → unlocks_of n (cs ++ c ∷ []) ≤ locks_of n (cs ++ c ∷ []))
    → ((n : ℕ) → unlocks_of n cs ≤ locks_of n cs)
    → IsOrderly cs
    → IsOrderly (cs ++ c ∷ [])
snoc-IsOrderly cs c whole before h n k = elim (take-append k cs (c ∷ [])) [
  | inl e ↦ rw e (h n k)
  | inr (zero, e) ↦ rw (e, append-nil cs) (before n)
  | inr (suc j, e) ↦ rw (e, take-nil j) (whole n)
]

tracked_le :
    (num_locks : ℕ) (s : Progress)
    → IsTracked num_locks s
    → (n : ℕ) → unlocks_of n s.cmd_list ≤ locks_of n s.cmd_list
tracked_le num_locks s h n = omega (arith, h.balance n)

release-IsOrderly :
    (num_locks : ℕ) (o : Option ℕ) (i : ℕ) (s : Progress)
    → IsTracked num_locks s
    → IsTracked num_locks (release o i s)
    → IsOrderly s.cmd_list
    → IsOrderly (release o i s).cmd_list
unfolding release
release-IsOrderly num_locks none i s h h' o = o
release-IsOrderly num_locks (some l) i s h h' o =
    snoc-IsOrderly s.cmd_list (unlock_line l) (tracked_le num_locks _ h') (tracked_le num_locks s h)
      o

pub turn-IsOrderly :
    (num_locks : ℕ) (d : Draw) (s : Progress)
    → IsTracked num_locks s
    → IsTracked num_locks (turn d s)
    → IsOrderly s.cmd_list
    → IsOrderly (turn d s).cmd_list
unfolding turn
turn-IsOrderly num_locks d s h h' o = elim (Bool-cases (ltb d.choice 50)) [
  | inl low ↦
      let after : IsTracked num_locks (release (get_elem? s.lock_set d.number) d.number s) =
        rw low at h' in
      rw low (release-IsOrderly num_locks (get_elem? s.lock_set d.number) d.number s h after o)
  | inr high ↦
      let after = rw high at h' in
      rw high (
        snoc-IsOrderly s.cmd_list (lock_line d.number) (tracked_le num_locks _ after)
          (tracked_le num_locks s h) o)
]

-- A prefix of the last releases unlocks no more than was held.
take-release_all :
    (n j : ℕ) (ls : List ℕ)
    → (unlocks_of n (take j (release_all ls)) ≤ holds n ls)
      × (locks_of n (take j (release_all ls)) ≡ 0)
unfolding release_all
take-release_all n zero ls = (omega arith, refl)
take-release_all n (suc j) [] = (omega arith, refl)
take-release_all n (suc j) (l ∷ ls) =
    let ih = take-release_all n j ls in (ground (arith, ih.0), ground (arith, ih.1))

pub finished-IsOrderly :
    (num_locks : ℕ) (s : Progress)
    → IsTracked num_locks s
    → IsOrderly s.cmd_list
    → IsOrderly (s.cmd_list ++ release_all s.lock_set)
finished-IsOrderly num_locks s h o n k = elim (take-append k s.cmd_list (release_all s.lock_set)) [
  | inl e ↦ rw e (o n k)
  | inr (j, e) ↦
      let (some_held, no_locks) = take-release_all n j s.lock_set in
      rw
        (
          e,
          count-append (λ c. eq_command c (lock_line n)) s.cmd_list
              (take j (release_all s.lock_set)),
          count-append (λ c. eq_command c (unlock_line n)) s.cmd_list
              (take j (release_all s.lock_set)),
        )
        (omega (arith, h.balance n, some_held, no_locks))
]
