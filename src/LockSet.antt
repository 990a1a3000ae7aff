-- ===== src/LockSet.antt =====
-- The replicated state machine: lock_set and execute_command of initialize_proposer in
-- problemset2/src/server.py.
pub mod Laws
use cse.Prelude.{Bool, false, Option, some, none, List, [], ◌∷◌, ◌++◌, ◌||◌, if◌then◌else◌}
use cse.Command.{CommandType, lock, unlock, none_type, Command, ℤ, eq_int}

-- r in lock_set
unfoldable pub contains : ℤ → List ℤ → Bool
contains r [] = false
contains r (x ∷ xs) = eq_int x r || contains r xs

-- lock_set.remove(r): the first occurrence.
unfoldable pub remove : ℤ → List ℤ → List ℤ
remove r [] = []
remove r (x ∷ xs) = if eq_int x r then xs else x ∷ remove r xs

-- The branches of execute_command; `none` is a failed assertion.
unfoldable pub execute : CommandType → ℤ → List ℤ → Option (List ℤ)
unfolding contains remove
execute lock r locks =
    if contains r locks
    then none
    else (let locks' = locks ++ r ∷ [] in if contains r locks' then some locks' else none)
execute unlock r locks =
    if contains r locks
    then (let locks' = remove r locks in if contains r locks' then none else some locks')
    else none
execute none_type r locks = none

unfoldable pub execute_command : Command → List ℤ → Option (List ℤ)
unfolding execute
execute_command c locks = execute c.command_type c.resource_id locks
