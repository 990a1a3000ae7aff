-- ===== src/Validate.antt =====
-- validate_lock_file of problemset2/src/lock_file.py, on the log that a proposer writes. A line of the
-- log is "instance -> cid:client - command"; the validator splits it at every "-", so a negative
-- client or resource makes more than three fields, and a value that is no command is one word.
pub mod Logs
pub mod Reading
pub mod Texts
use cse.Prelude.{ℕ, Bool, true, false, List, [], ◌∷◌, ◌++◌, ◌+◌, ◌==◌, if◌then◌else◌}
use cse.Num.{Num, absent, minus_one, nat}
use cse.Command.{CommandType, lock, unlock, none_type, Command, ℤ, pos, negsuc}
use cse.Message.{Value, number, cmd}
use cse.LockSet.{contains, remove}
use cse.Proposer.{Line}

-- The result: True, False, or a failed assertion.
pub data Verdict : Type 0 where
  valid invalid failed : Verdict

-- How many "-" the text of a part of a line has.
abbrev pub num_dashes : Num → ℕ
num_dashes minus_one = 1
num_dashes _ = 0

abbrev pub value_dashes : Value → ℕ
value_dashes (number n) = num_dashes n
value_dashes (cmd c) = elim c.resource_id [ pos n ↦ 0 | negsuc n ↦ 1 ]

-- len(linet.split("-"))
abbrev pub field_count : Line → ℕ
field_count l = 3 + (num_dashes l.client_id + value_dashes l.command)

-- The command of a line on the locks that the lines before it hold.
unfoldable pub validate_command : CommandType → ℤ → List ℤ → (List ℤ → Verdict) → Verdict
unfolding contains remove
validate_command lock r lock_set rest =
    if contains r lock_set
    then failed
    else (let more = lock_set ++ r ∷ [] in if contains r more then rest more else failed)
validate_command unlock r lock_set rest =
    if contains r lock_set
    then (let fewer = remove r lock_set in if contains r fewer then failed else rest fewer)
    else failed
validate_command none_type r lock_set rest = invalid

-- A value that is no command fails the assertion on the number of words.
unfoldable pub validate_value : Value → List ℤ → (List ℤ → Verdict) → Verdict
unfolding validate_command
validate_value (number n) lock_set rest = failed
validate_value (cmd c) lock_set rest = validate_command c.command_type c.resource_id lock_set rest

unfoldable pub validate_lines : List Line → List ℤ → Verdict
unfolding validate_value
validate_lines [] lock_set = valid
validate_lines (l ∷ ls) lock_set =
    if field_count l == 3 then validate_value l.command lock_set (validate_lines ls) else failed

unfoldable pub validate_lock_file : List Line → Verdict
unfolding validate_lines
validate_lock_file lines = validate_lines lines []
