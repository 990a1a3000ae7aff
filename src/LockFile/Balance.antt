-- ===== src/LockFile/Balance.antt =====
-- The random files of make_lock_file in problemset2/src/lock_file.py: every lock that is taken is
-- released.
use cse.Prelude.{
  not, inr, inl, ap, Bool-cases, ◌+◌, ◌≡◌, refl, Bool, true, Option, some, none, List, [], ◌∷◌,
  ◌++◌, arith, ℕ, suc, zero, ◌≤◌, ltb, if◌then◌else◌, ◌==◌,
}
use cse.Command.{Command, eq_command, command_code, lock}
use cse.LockFile.{
  lock_line, unlock_line, get_elem?, erase_idx, Draw, Progress, release, turn, draw_loop,
  release_all,
}

module _ {A : Type 0} (test : A → Bool) where
  -- How many elements pass the test.
  abbrev pub count : List A → ℕ
  count [] = 0
  count (x ∷ xs) = if test x then suc (count xs) else count xs

  pub count-append : (xs ys : List A) → count (xs ++ ys) ≡ count xs + count ys
  count-append [] ys = omega arith
  count-append (x ∷ xs) ys = ground (arith, count-append xs ys)

-- How often the file locks `n`, how often it unlocks `n`, and how many LOCKs it has.
abbrev pub locks_of : ℕ → List Command → ℕ
locks_of n = count (λ c. eq_command c (lock_line n))

abbrev pub unlocks_of : ℕ → List Command → ℕ
unlocks_of n = count (λ c. eq_command c (unlock_line n))

abbrev pub is_lock_line : Command → Bool
is_lock_line c = command_code c.command_type == command_code lock

abbrev pub all_locks : List Command → ℕ
all_locks = count is_lock_line

abbrev pub holds : ℕ → List ℕ → ℕ
holds n = count (λ m. m == n)

-- Between two turns: what was locked was released or is held.
pub record IsTracked (num_locks : ℕ) (s : Progress) : Type 0 where
  pub balance : (n : ℕ) → locks_of n s.cmd_list ≡ unlocks_of n s.cmd_list + holds n s.lock_set
  pub taken : all_locks s.cmd_list ≡ s.a_locks
  pub bound : s.a_locks ≤ num_locks

erase_idx-holds :
    (n : ℕ) (xs : List ℕ) (i : ℕ) {x : ℕ}
    → get_elem? xs i ≡ some x
    → holds n xs ≡ holds n (x ∷ erase_idx xs i)
erase_idx-holds n [] i h = cc
erase_idx-holds n (y ∷ ys) zero {x} h =
    let e : y ≡ x = ground (arith, h) in ap (λ z. holds n (z ∷ ys)) e
erase_idx-holds n (y ∷ ys) (suc i) h = ground (arith, erase_idx-holds n ys i h)

-- One more line at the end of the file.
locks_of-lock :
    (n m : ℕ) (cs : List Command)
    → locks_of n (cs ++ lock_line m ∷ []) ≡ locks_of n cs + (if m == n then 1 else 0)
locks_of-lock n m cs =
    rw (count-append (λ c. eq_command c (lock_line n)) cs (lock_line m ∷ [])) (ground arith)

unlocks_of-lock :
    (n m : ℕ) (cs : List Command) → unlocks_of n (cs ++ lock_line m ∷ []) ≡ unlocks_of n cs
unlocks_of-lock n m cs =
    rw (count-append (λ c. eq_command c (unlock_line n)) cs (lock_line m ∷ [])) (ground arith)

locks_of-unlock :
    (n m : ℕ) (cs : List Command) → locks_of n (cs ++ unlock_line m ∷ []) ≡ locks_of n cs
locks_of-unlock n m cs =
    rw (count-append (λ c. eq_command c (lock_line n)) cs (unlock_line m ∷ [])) (ground arith)

unlocks_of-unlock :
    (n m : ℕ) (cs : List Command)
    → unlocks_of n (cs ++ unlock_line m ∷ []) ≡ unlocks_of n cs + (if m == n then 1 else 0)
unlocks_of-unlock n m cs =
    rw (count-append (λ c. eq_command c (unlock_line n)) cs (unlock_line m ∷ [])) (ground arith)

release-IsTracked :
    (num_locks : ℕ) (o : Option ℕ) (i : ℕ) (s : Progress)
    → get_elem? s.lock_set i ≡ o
    → IsTracked num_locks s
    → IsTracked num_locks (release o i s)
unfolding release
release-IsTracked num_locks none i s e h = h
release-IsTracked num_locks (some l) i s e h = record {
  balance = λ n.
      rw (locks_of-unlock n l s.cmd_list, unlocks_of-unlock n l s.cmd_list)
        (ground (arith, h.balance n, erase_idx-holds n s.lock_set i e));
  taken = rw (count-append is_lock_line s.cmd_list (unlock_line l ∷ [])) (omega (arith, h.taken));
  bound = h.bound;
}

pub turn-IsTracked :
    (num_locks : ℕ) (d : Draw) (s : Progress)
    → ltb s.a_locks num_locks ≡ true
    → IsTracked num_locks s
    → IsTracked num_locks (turn d s)
unfolding turn
turn-IsTracked num_locks d s more h = elim (Bool-cases (ltb d.choice 50)) [
  | inl low ↦ rw low (release-IsTracked num_locks (get_elem? s.lock_set d.number) d.number s refl h)
  | inr high ↦ rw high (record {
    balance = λ n.
        rw
          (
            locks_of-lock n d.number s.cmd_list,
            unlocks_of-lock n d.number s.cmd_list,
            count-append (λ m. m == n) s.lock_set (d.number ∷ []),
          )
          (ground (arith, h.balance n));
    taken =
        rw (count-append is_lock_line s.cmd_list (lock_line d.number ∷ []))
          (omega (arith, h.taken));
    bound = ground (arith, more);
  })
]

-- The draws that take a lock.
abbrev pub takes : List Draw → ℕ
takes = count (λ d. not (ltb d.choice 50))

pub release-a_locks : (o : Option ℕ) (i : ℕ) (s : Progress) → (release o i s).a_locks ≡ s.a_locks
unfolding release
release-a_locks none i s = refl
release-a_locks (some l) i s = refl

turn-takes :
    (d : Draw) (ds : List Draw) (s : Progress)
    → (turn d s).a_locks + takes ds ≡ s.a_locks + takes (d ∷ ds)
unfolding turn
turn-takes d ds s = elim (Bool-cases (ltb d.choice 50)) [
  | inl low ↦ rw low (ground (arith, release-a_locks (get_elem? s.lock_set d.number) d.number s))
  | inr high ↦ rw high (omega arith)
]

-- The loop ends with all locks taken.
pub draw_loop-ends :
    (num_locks : ℕ) (ds : List Draw) (s : Progress)
    → num_locks ≤ s.a_locks + takes ds
    → IsTracked num_locks s
    → (end : Progress) × (draw_loop num_locks ds s ≡ some end)
      × IsTracked num_locks end
      × (num_locks ≤ end.a_locks)
unfolding draw_loop
draw_loop-ends num_locks [] s enough h = (s, ground arith, h, ground arith)
draw_loop-ends num_locks (d ∷ ds) s enough h = elim (Bool-cases (ltb s.a_locks num_locks)) [
  | inl more ↦ rw more (
      draw_loop-ends num_locks ds (turn d s) (omega (arith, turn-takes d ds s))
        (turn-IsTracked num_locks d s more h))
  | inr over ↦ rw over (s, refl, h, ground arith)
]

pub release_all-locks_of : (n : ℕ) (ls : List ℕ) → locks_of n (release_all ls) ≡ 0
unfolding release_all
release_all-locks_of n [] = refl
release_all-locks_of n (l ∷ ls) = ground (arith, release_all-locks_of n ls)

release_all-all_locks : (ls : List ℕ) → all_locks (release_all ls) ≡ 0
unfolding release_all
release_all-all_locks [] = refl
release_all-all_locks (l ∷ ls) = ground (arith, release_all-all_locks ls)

pub release_all-unlocks_of : (n : ℕ) (ls : List ℕ) → unlocks_of n (release_all ls) ≡ holds n ls
unfolding release_all
release_all-unlocks_of n [] = refl
release_all-unlocks_of n (l ∷ ls) = ground (arith, release_all-unlocks_of n ls)

-- A file with `num_locks` LOCKs, in which every lock is released as often as it is taken.
abbrev pub IsBalanced : ℕ → List Command → Type 0
IsBalanced num_locks cmds =
    (all_locks cmds ≡ num_locks) × ((n : ℕ) → locks_of n cmds ≡ unlocks_of n cmds)

pub finished-IsBalanced :
    (num_locks : ℕ) (s : Progress)
    → IsTracked num_locks s
    → num_locks ≤ s.a_locks
    → IsBalanced num_locks (s.cmd_list ++ release_all s.lock_set)
finished-IsBalanced num_locks s h full = (
  rw
      (
        count-append is_lock_line s.cmd_list (release_all s.lock_set),
        release_all-all_locks s.lock_set,
      )
      (omega (arith, h.taken, h.bound)),
  λ n.
      rw
        (
          count-append (λ c. eq_command c (lock_line n)) s.cmd_list (release_all s.lock_set),
          count-append (λ c. eq_command c (unlock_line n)) s.cmd_list (release_all s.lock_set),
          release_all-locks_of n s.lock_set,
          release_all-unlocks_of n s.lock_set,
        )
        (omega (arith, h.balance n)),
)
