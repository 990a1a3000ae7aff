-- ===== src/LockFile/Replay.antt =====
-- The files of make_simple_file and make_contentious_lock_file (problemset2/src/lock_file.py), run by
-- the lock service.
use Prim.Native.Nat.{zero}
use cse.Prelude.{◌+◌, ◌≡◌, refl, ◌∙◌, Option, some, none, List, [], ◌∷◌, arith, ℕ, suc}
use cse.Command.{Command, ℤ}
use cse.LockSet.{contains, remove, execute, execute_command}
use cse.LockFile.{lock_line, unlock_line, simple_from, make_simple_file, make_contentious_lock_file}

-- The commands of a file, one after the other; `none` if one of them fails.
abbrev pub and_then : Option (List ℤ) → (List ℤ → Option (List ℤ)) → Option (List ℤ)
and_then none f = none
and_then (some locks) f = f locks

abbrev pub execute_all : List Command → List ℤ → Option (List ℤ)
execute_all [] locks = some locks
execute_all (c ∷ cs) locks = and_then (execute_command c locks) (execute_all cs)

-- A LOCK and its UNLOCK, on the empty set.
execute-line :
    (n : ℕ) (cs : List Command)
    → execute_all (lock_line n ∷ unlock_line n ∷ cs) [] ≡ execute_all cs []
unfolding execute_command execute contains remove
execute-line n cs = ground arith

simple_from-execute : (i n : ℕ) → execute_all (simple_from i n) [] ≡ some []
unfolding simple_from
simple_from-execute i zero = refl
simple_from-execute i (suc n) =
    execute-line i (simple_from (i + 1) n) ∙ simple_from-execute (i + 1) n

-- A simple file is executed from the empty set without an error, and leaves it empty.
pub make_simple_file-execute :
    (num_locks : ℕ) → execute_all (make_simple_file num_locks) [] ≡ some []
unfolding make_simple_file
make_simple_file-execute num_locks = simple_from-execute 0 num_locks

-- A contentious file is executed from the empty set without an error, and leaves it empty.
pub make_contentious_lock_file-execute :
    (num_locks : ℕ) → execute_all (make_contentious_lock_file num_locks) [] ≡ some []
unfolding make_contentious_lock_file
make_contentious_lock_file-execute zero = refl
make_contentious_lock_file-execute (suc n) =
    execute-line 1337 (make_contentious_lock_file n) ∙ make_contentious_lock_file-execute n
