-- ===== src/LockFile/Requests.antt =====
-- What make_lock_file of problemset2/src/lock_file.py writes, client.py reads.
use mathlib.Core.Option.{none}
use Prim.Native.Nat.{zero}
use cse.Prelude.{
  ◌-◌, ◌∙◌, ap, ◌++◌, refl, subst, All-append, ◌⊎◌, inr, arith, map, true, inl, ◌≤◌, ◌≡◌, All,
  Bool-cases, ℕ,
}
use cse.Prefix.{take-nil, take}
use cse.Command.{pos, Command}
use cse.Print.{file_line}
use cse.LockFile.{
  suc, [], ◌∷◌, erase_idx, Option, some, ltb, release_all, List, finish, release, lock_line,
  unlock_line, get_elem?, Draw, Progress, turn, draw_loop, make_lock_file,
}
use cse.LockFile.Balance.{
  finished-IsBalanced, takes, IsTracked, IsBalanced, turn-IsTracked, draw_loop-ends,
}
use cse.LockFile.Orderly.{IsOrderly, turn-IsOrderly, finished-IsOrderly}
use cse.LockFile.Drawn.{locked, drawn, draw_loop-locked, finished-locked}
use cse.Client.Parsing.{IsRequest, fits, load_commands, load_commands-file_lines}

-- random.randint(0, 256) draws a new lock.
abbrev pub IsDrawn : Draw → Type 0
IsDrawn d = (ltb d.choice 50 ≡ true) ⊎ (d.number ≤ 256)

-- What the client can read.
abbrev IsReadable : Command → Type 0
IsReadable c = IsRequest c.command_type × (fits c.resource_id ≡ true)

abbrev IsWritable : ℕ → Type 0
IsWritable n = fits (pos n) ≡ true

drawn-fits : (n : ℕ) → n ≤ 256 → fits (pos n) ≡ true
drawn-fits n le = ground (arith, le)

-- Between two turns: the lines so far can be read and are in order, and the held locks can be written.
record IsWritten (num_locks : ℕ) (s : Progress) : Type 0 where
  tracked : IsTracked num_locks s
  orderly : IsOrderly s.cmd_list
  readable : All IsReadable s.cmd_list
  held : All IsWritable s.lock_set

get_elem?-All :
    (P : ℕ → Type 0) (xs : List ℕ) (i : ℕ) {x : ℕ} → All P xs → get_elem? xs i ≡ some x → P x
get_elem?-All P [] i h e = absurd (ground (arith, e))
get_elem?-All P (y ∷ ys) zero h e = let same : y ≡ _ = cc in subst P same h.0
get_elem?-All P (y ∷ ys) (suc i) h e = get_elem?-All P ys i h.1 e

erase_idx-All : (P : ℕ → Type 0) (xs : List ℕ) (i : ℕ) → All P xs → All P (erase_idx xs i)
erase_idx-All P [] i h = tt
erase_idx-All P (y ∷ ys) zero h = h.1
erase_idx-All P (y ∷ ys) (suc i) h = (h.0, erase_idx-All P ys i h.1)

-- The lines that can be read and the locks that can be written, after a turn.
abbrev AreFine : Progress → Type 0
AreFine s = All IsReadable s.cmd_list × All IsWritable s.lock_set

release-AreFine :
    (o : Option ℕ) (i : ℕ) (s : Progress)
    → get_elem? s.lock_set i ≡ o
    → AreFine s
    → AreFine (release o i s)
unfolding release
release-AreFine none i s e h = h
release-AreFine (some l) i s e h = (
  All-append IsReadable s.cmd_list (unlock_line l ∷ []) h.0
      ((tt, get_elem?-All IsWritable s.lock_set i h.1 e), tt),
  erase_idx-All IsWritable s.lock_set i h.1,
)

turn-AreFine : (d : Draw) (s : Progress) → IsDrawn d → AreFine s → AreFine (turn d s)
unfolding turn
turn-AreFine d s range h = elim (Bool-cases (ltb d.choice 50)) [
  | inl low ↦ rw low (release-AreFine (get_elem? s.lock_set d.number) d.number s refl h)
  | inr high ↦
      let small : d.number ≤ 256 = ground (arith, range, high) in
      let good = drawn-fits d.number small in
      rw high (
        All-append IsReadable s.cmd_list (lock_line d.number ∷ []) h.0 ((tt, good), tt),
        All-append IsWritable s.lock_set (d.number ∷ []) h.1 (good, tt),
      )
]

turn-IsWritten :
    (num_locks : ℕ) (d : Draw) (s : Progress)
    → IsDrawn d
    → ltb s.a_locks num_locks ≡ true
    → IsWritten num_locks s
    → IsWritten num_locks (turn d s)
turn-IsWritten num_locks d s range more h =
    let after = turn-IsTracked num_locks d s more h.tracked in
    let fine = turn-AreFine d s range (h.readable, h.held) in
    record {
      tracked = after;
      orderly = turn-IsOrderly num_locks d s h.tracked after h.orderly;
      readable = fine.0;
      held = fine.1;
    }

draw_loop-IsWritten :
    (num_locks : ℕ) (ds : List Draw) (s end : Progress)
    → All IsDrawn ds
    → IsWritten num_locks s
    → draw_loop num_locks ds s ≡ some end
    → IsWritten num_locks end
unfolding draw_loop
draw_loop-IsWritten num_locks [] s end range h e = elim (Bool-cases (ltb s.a_locks num_locks)) [
  | inl more ↦ absurd (ground (arith, e, more))
  | inr over ↦
      let stop = rw over at e in let same : s ≡ end = cc in subst (IsWritten num_locks) same h
]
draw_loop-IsWritten num_locks (d ∷ ds) s end range h e =
    elim (Bool-cases (ltb s.a_locks num_locks)) [
      | inl more ↦
          let rest = rw more at e in
          draw_loop-IsWritten num_locks ds (turn d s) end range.1
            (turn-IsWritten num_locks d s range.0 more h) rest
      | inr over ↦
          let stop = rw over at e in let same : s ≡ end = cc in subst (IsWritten num_locks) same h
    ]

release_all-IsReadable : (ls : List ℕ) → All IsWritable ls → All IsReadable (release_all ls)
unfolding release_all
release_all-IsReadable [] h = tt
release_all-IsReadable (l ∷ ls) h = ((tt, h.0), release_all-IsReadable ls h.1)

-- If the draws have taken `num_locks` locks, and each new lock is at most 256, make_lock_file ends, and
-- the client reads its file as the commands that were generated, all of them and in their order. Their
-- LOCKs are the first `num_locks` locks that were drawn, in the order of the draws; each resource is
-- unlocked as often as it is locked; and no part of the file from its begin on unlocks a resource more
-- often than it locks it.
pub make_lock_file-load_commands :
    (num_locks : ℕ) (draws : List Draw)
    → num_locks ≤ takes draws
    → All IsDrawn draws
    → (cs : List Command) × (make_lock_file num_locks draws ≡ some cs)
      × (load_commands (map file_line cs) ≡ some cs)
      × (locked cs ≡ take num_locks (drawn draws))
      × IsBalanced num_locks cs
      × IsOrderly cs
unfolding make_lock_file finish
make_lock_file-load_commands num_locks draws enough range =
    let begin : Progress = record { cmd_list = []; lock_set = []; a_locks = 0 } in
    let tracked : IsTracked num_locks begin = record {
      balance = λ n. refl;
      taken = refl;
      bound = omega arith;
    } in
    let (end, e, h, full) = draw_loop-ends num_locks draws begin (omega arith) tracked in
    let w =
      draw_loop-IsWritten num_locks draws begin end range
        (record {
          tracked = tracked;
          orderly = λ n k. rw (take-nil k) (omega arith);
          readable = tt;
          held = tt;
        })
        e in
    let none_taken : num_locks - 0 ≡ num_locks = omega arith in
    let all_wanted = ap (λ n. take n (drawn draws)) none_taken in
    let all_readable =
      All-append IsReadable end.cmd_list (release_all end.lock_set) w.readable
        (release_all-IsReadable end.lock_set w.held) in
    (
      end.cmd_list ++ release_all end.lock_set,
      ap finish e,
      load_commands-file_lines (end.cmd_list ++ release_all end.lock_set) all_readable,
      finished-locked end ∙ draw_loop-locked num_locks draws begin end e ∙ all_wanted,
      finished-IsBalanced num_locks end h full,
      finished-IsOrderly num_locks end h w.orderly,
    )
