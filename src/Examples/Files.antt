-- ===== src/Examples/Files.antt =====
-- Generated client files.
use cse.LockFile.Orderly.{IsOrderly}
use cse.LockFile.Drawn.{locked}
use cse.Prelude.{inl, inr, map, ◌≡◌, refl, List, [], ◌∷◌, some, arith}
use cse.Command.{pos, Command}
use cse.LockFile.{
  lock_line, unlock_line, Draw, make_lock_file, make_simple_file, make_contentious_lock_file,
}
use cse.LockFile.Balance.{IsBalanced}
use cse.LockFile.Requests.{make_lock_file-load_commands}
use cse.Client.Parsing.{load_commands}
use cse.Print.{file_line}
use cse.LockFile.Replay.{execute_all, make_simple_file-execute, make_contentious_lock_file-execute}

abbrev draws : List Draw
draws =
    record { choice = 80; number = 7 }
    ∷ record { choice = 3; number = 0 }
    ∷ record { choice = 50; number = 9 }
    ∷ []

random_file :
    make_lock_file 2 draws ≡ some (lock_line 7 ∷ unlock_line 7 ∷ lock_line 9 ∷ unlock_line 9 ∷ [])
unfolding make_lock_file
random_file = refl

make_simple_file-execute_example : execute_all (make_simple_file 3) [] ≡ some []
make_simple_file-execute_example = make_simple_file-execute 3

make_contentious_lock_file-execute_example : execute_all (make_contentious_lock_file 2) [] ≡ some []
make_contentious_lock_file-execute_example = make_contentious_lock_file-execute 2

make_lock_file-load_commands_example :
    (cs : List Command) × (make_lock_file 2 draws ≡ some cs)
    × (load_commands (map file_line cs) ≡ some cs)
    × (locked cs ≡ pos 7 ∷ pos 9 ∷ [])
    × IsBalanced 2 cs
    × IsOrderly cs
make_lock_file-load_commands_example =
    make_lock_file-load_commands 2 draws (omega arith)
      (inr (omega arith), (inl refl, (inr (omega arith), tt)))
