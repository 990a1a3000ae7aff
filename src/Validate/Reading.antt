-- ===== src/Validate/Reading.antt =====
-- How lock_file.py of problemset2/src takes a line of a log apart, in validate_lock_file and in
-- validate_client_file. `none` stands for a failed assertion, or a ValueError of int.
use cse.Prelude.{◌>>=◌, ◌∷◌, List, [], Option, some, none, if◌then◌else◌}
use cse.Command.{unlock, lock, ℤ}
use cse.Text.{Text, codes, eq_text, split, is_blank, strip, int}
use cse.Validate.{validate_command, Verdict, valid, invalid, failed}

-- fields = linet.split("-"), with len(fields) == 3: fields[0] and fields[2]
abbrev pub three_fields : List Text → Option (Text × Text)
three_fields (a ∷ b ∷ c ∷ []) = some (a, c)
three_fields _ = none

-- cmd_fields = cmd.split(" "), with len(cmd_fields) == 2
abbrev pub two_fields : List Text → Option (Text × Text)
two_fields (a ∷ b ∷ []) = some (a, b)
two_fields _ = none

-- A line in parts: fields[0], cmd_type and lock_num.
pub record LogEntry : Type 0 where
  pub instance_field : Text
  pub cmd_type : Text
  pub lock_num : ℤ

unfoldable pub read_log_line : Text → Option LogEntry
unfolding strip split int
read_log_line line = do
  (first, last) ← three_fields (split b'-' (strip is_blank line))
  (cmd_type, number) ← two_fields (split b' ' (strip is_blank last))
  lock_num ← int number
  some (record { instance_field = first; cmd_type = cmd_type; lock_num = lock_num })

-- The tests of cmd_type, on the locks that the lines before hold.
unfoldable pub validate_entry : Option LogEntry → List ℤ → (List ℤ → Verdict) → Verdict
unfolding validate_command eq_text
validate_entry none lock_set rest = failed
validate_entry (some e) lock_set rest =
    if eq_text e.cmd_type (codes "lock")
    then validate_command lock e.lock_num lock_set rest
    else if eq_text e.cmd_type (codes "unlock")
    then validate_command unlock e.lock_num lock_set rest
    else invalid

unfoldable pub validate_texts : List Text → List ℤ → Verdict
unfolding validate_entry read_log_line
validate_texts [] lock_set = valid
validate_texts (line ∷ lines) lock_set =
    validate_entry (read_log_line line) lock_set (validate_texts lines)

-- validate_lock_file, on the lines of the file
unfoldable pub validate_file : List Text → Verdict
unfolding validate_texts
validate_file lines = validate_texts lines []
