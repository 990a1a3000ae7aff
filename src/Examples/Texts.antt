-- ===== src/Examples/Texts.antt =====
-- Lines of logs and of client files as texts.
use cse.Prelude.{◌≡◌, ◌↔◌, ◌⊎◌, refl, true, List, [], ◌∷◌, ◌++◌, map, some, none}
use cse.Num.{nat, minus_one}
use cse.Command.{lock, unlock, pos, negsuc}
use cse.Message.{cmd}
use cse.Proposer.{Line}
use cse.Text.{Text, codes, str, int}
use cse.Print.{log_line, file_line}
use cse.Validate.{failed, validate_lock_file}
use cse.Validate.Reading.{read_log_line, validate_file}
use cse.Validate.Texts.{read_log_line-log_line, validate_file-log_lines}
use cse.Client.Parsing.{create_command, create_command-file_line}
use cse.ClientFiles.{count_files, same_counts}
use cse.ClientFiles.Loading.{count_entries}
use cse.ClientFiles.Distribution.{occurrences, client_lines, log_entries, same_counts_iff}

abbrev line : Line
line = record {
  instance_num = 12;
  client_id = nat 9;
  command = cmd (record { command_type = lock; resource_id = pos 1337 });
}

-- A client with the id -1.
abbrev odd_line : Line
odd_line = record line { client_id = minus_one }

printed : log_line line ≡ codes "12 -> cid:9 - lock 1337" ++ 10 ∷ []
unfolding log_line
printed = refl

refused : validate_file (log_line odd_line ∷ []) ≡ failed
unfolding validate_file log_line
refused = refl

upper_case :
    create_command (codes "UNLOCK -5" ++ 10 ∷ [])
    ≡ some (record { command_type = unlock; resource_id = negsuc 4 })
unfolding create_command
upper_case = refl

-- 2^63 is a long.
too_long : create_command (codes "lock 9223372036854775808") ≡ none
unfolding create_command
too_long = refl

no_number : create_command (codes "lock x") ≡ none
unfolding create_command
no_number = refl

read_log_line-log_line_example :
    read_log_line (log_line line)
    ≡ some (record { instance_field = codes "12 "; cmd_type = codes "lock"; lock_num = pos 1337 })
unfolding cse.Text.str_nat
read_log_line-log_line_example = read_log_line-log_line line

validate_file-log_lines_example :
    validate_file (map log_line (line ∷ odd_line ∷ [])) ≡ validate_lock_file (line ∷ odd_line ∷ [])
validate_file-log_lines_example = validate_file-log_lines (line ∷ odd_line ∷ [])

create_command-file_line_example :
    create_command (file_line (record { command_type = unlock; resource_id = negsuc 4 }))
    ≡ some (record { command_type = unlock; resource_id = negsuc 4 })
create_command-file_line_example =
    create_command-file_line (record { command_type = unlock; resource_id = negsuc 4 }) tt

abbrev client_files : List (List Text)
client_files = ((codes "lock 1337" ++ 10 ∷ []) ∷ []) ∷ []

same_counts_iff_example :
    (same_counts (count_files client_files []) (count_entries (line ∷ []) []) ≡ true) ↔ (
      (k : Text)
      → (occurrences k (client_lines client_files) ≡ 0)
        ⊎ (occurrences k (client_lines client_files) ≡ occurrences k (log_entries (line ∷ []))))
same_counts_iff_example = same_counts_iff client_files (line ∷ [])
