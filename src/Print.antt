-- ===== src/Print.antt =====
-- The texts of problemset2/src: command.__str__ of command.py, the line that initialize_proposer of
-- server.py writes to its log, and the line of a client file.
pub mod Fields
use cse.Prelude.{[], ◌∷◌, ◌++◌}
use cse.Num.{Num, absent, minus_one, nat}
use cse.Command.{ℤ, CommandType, lock, unlock, none_type, Command}
use cse.Message.{Value, number, cmd}
use cse.Proposer.{Line}
use cse.Text.{Text, codes, str_nat, str}

abbrev pub type_text : CommandType → Text
type_text lock = codes "lock"
type_text unlock = codes "unlock"
type_text none_type = codes "none"

-- command.__str__
unfoldable pub command_text : Command → Text
unfolding str
command_text c = type_text c.command_type ++ b' ' ∷ str c.resource_id

-- str of a field of a message
unfoldable pub num_text : Num → Text
unfolding str_nat
num_text absent = codes "None"
num_text minus_one = codes "-1"
num_text (nat n) = str_nat n

unfoldable pub value_text : Value → Text
unfolding num_text command_text
value_text (number n) = num_text n
value_text (cmd c) = command_text c

-- "{} -> cid:{} - {}\n"
unfoldable pub log_line : Line → Text
unfolding str_nat num_text value_text
log_line l =
    str_nat l.instance_num
    ++ (codes " -> cid:"
        ++ (num_text l.client_id ++ (codes " - " ++ (value_text l.command ++ 10 ∷ []))))

-- "lock " + str(n) or "unlock " + str(n); no generator makes a line for NONE.
abbrev pub generated_text : CommandType → ℤ → Text
generated_text lock n = codes "lock " ++ str n
generated_text unlock n = codes "unlock " ++ str n
generated_text none_type n = []

-- A line of a client file: cmd + "\n".
unfoldable pub file_line : Command → Text
file_line c = generated_text c.command_type c.resource_id ++ 10 ∷ []
