-- ===== src/Examples/Locks.antt =====
-- lock_set through a LOCK, a second LOCK of the same resource, and its UNLOCK.
use cse.Prelude.{refl, [], ◌∷◌}
use cse.Command.{unlock, pos}
use cse.LockSet.{contains, execute}
use cse.LockSet.Laws.{Executes, execute-Executes}

execute-Executes_example : Executes unlock (pos 3) (pos 3 ∷ pos 5 ∷ []) (pos 5 ∷ [])
unfolding execute contains
execute-Executes_example =
    execute-Executes unlock (pos 3) (pos 3 ∷ pos 5 ∷ []) (refl, (refl, tt)) refl
