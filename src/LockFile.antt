-- ===== src/LockFile.antt =====
-- The generators of client files in problemset2/src/lock_file.py, up to the writing of the file, as
-- lists of commands. Random numbers are a list of draws; a draw is what random.randint returned.
pub mod Balance
pub mod Orderly
pub mod Drawn
pub mod Replay
pub mod Requests
use cse.Prelude.{ℕ, zero, suc, ◌+◌, Option, some, none, List, [], ◌∷◌, ◌++◌, ltb, if◌then◌else◌}
use cse.Command.{lock, unlock, Command, pos}

-- A line of a client file, "lock n" or "unlock n".
abbrev pub lock_line : ℕ → Command
lock_line n = record { command_type = lock; resource_id = pos n }

abbrev pub unlock_line : ℕ → Command
unlock_line n = record { command_type = unlock; resource_id = pos n }

-- lock_set[index], `none` out of range.
abbrev pub get_elem? : List ℕ → ℕ → Option ℕ
get_elem? [] i = none
get_elem? (x ∷ xs) zero = some x
get_elem? (x ∷ xs) (suc i) = get_elem? xs i

-- del lock_set[index]
abbrev pub erase_idx : List ℕ → ℕ → List ℕ
erase_idx [] i = []
erase_idx (x ∷ xs) zero = xs
erase_idx (x ∷ xs) (suc i) = x ∷ erase_idx xs i

-- A turn of the loop of make_lock_file: the first draw is at most 100; below 50 the second is the
-- index of a held lock, else it is the new lock.
pub record Draw : Type 0 where
  pub choice : ℕ
  pub number : ℕ

pub record Progress : Type 0 where
  pub cmd_list : List Command
  pub lock_set : List ℕ
  pub a_locks : ℕ

-- The release of the lock at an index.
unfoldable pub release : Option ℕ → ℕ → Progress → Progress
release none index s = s
release (some released_lock) index s = record s {
  lock_set = erase_idx s.lock_set index;
  cmd_list = s.cmd_list ++ unlock_line released_lock ∷ [];
}

unfoldable pub turn : Draw → Progress → Progress
unfolding release
turn d s =
    if ltb d.choice 50 then release (get_elem? s.lock_set d.number) d.number s else record s {
      cmd_list = s.cmd_list ++ lock_line d.number ∷ [];
      a_locks = s.a_locks + 1;
      lock_set = s.lock_set ++ d.number ∷ [];
    }

-- The loop, over the draws; `none` if they run out before num_locks locks are taken.
unfoldable pub draw_loop : ℕ → List Draw → Progress → Option Progress
unfolding turn
draw_loop num_locks [] s = if ltb s.a_locks num_locks then none else some s
draw_loop num_locks (d ∷ ds) s =
    let more = draw_loop num_locks ds (turn d s) in if ltb s.a_locks num_locks then more else some s

-- "release any remaining locks"
unfoldable pub release_all : List ℕ → List Command
release_all [] = []
release_all (l ∷ ls) = unlock_line l ∷ release_all ls

-- The file, after the loop.
unfoldable pub finish : Option Progress → Option (List Command)
unfolding release_all
finish none = none
finish (some s) = some (s.cmd_list ++ release_all s.lock_set)

unfoldable pub make_lock_file : ℕ → List Draw → Option (List Command)
unfolding draw_loop finish
make_lock_file num_locks draws =
    finish (draw_loop num_locks draws (record { cmd_list = []; lock_set = []; a_locks = 0 }))

-- make_simple_file, from `i` on, with `n` rounds left.
unfoldable pub simple_from : ℕ → ℕ → List Command
simple_from i zero = []
simple_from i (suc n) = lock_line i ∷ unlock_line i ∷ simple_from (i + 1) n

unfoldable pub make_simple_file : ℕ → List Command
unfolding simple_from
make_simple_file num_locks = simple_from 0 num_locks

-- make_contentious_lock_file
unfoldable pub make_contentious_lock_file : ℕ → List Command
make_contentious_lock_file zero = []
make_contentious_lock_file (suc n) =
    lock_line 1337 ∷ unlock_line 1337 ∷ make_contentious_lock_file n
