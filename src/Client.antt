-- ===== src/Client.antt =====
-- The client of problemset2/src/client.py: the loop that sends the commands of a file, one for each
-- acknowledgement.
pub mod Sent
pub mod Parsing
use cse.Prelude.{Bool, ◌++◌, ℕ, List, [], ◌∷◌, ◌==◌, if◌then◌else◌}
use cse.Num.{absent, minus_one, nat}
use cse.Command.{Command}
use cse.Message.{client, client_ack, type_code, cmd, Message, message}

-- What comes back for a command: a message, or what ends the loop: data that cannot be unpickled, or a
-- failed recv, after which the `time` that receive_message does not import raises an error.
pub data Response : Type 0 where
  unreadable : Response
  response : Message → Response

-- How the loop ends: over the whole file, by the `break`, by the failed assertion on the type, or still
-- waiting in receive_message.
pub data Ending : Type 0 where
  finished aborted assertion_error waiting : Ending

-- The message of send_command.
unfoldable pub client_message : ℕ → Command → Message
unfolding message
client_message client_id c =
    message client absent absent (cmd c) (nat client_id) (nat client_id) minus_one

-- A command, and whether the socket takes its message.
pub record Sending : Type 0 where
  pub c : Command
  pub sends : Bool

-- What send_command puts on the socket: the error of a failed send is caught, and only printed.
unfoldable pub send_command : ℕ → Sending → List Message
unfolding client_message
send_command client_id s = if s.sends then client_message client_id s.c ∷ [] else []

-- send_commands_from_file, after the file is read: what it sends, and how it ends. After a failed send
-- it waits for a response all the same. A wrong client id in a response is only printed.
unfoldable pub send_commands : ℕ → List Sending → List Response → List Message × Ending
unfolding send_command
send_commands client_id [] rs = ([], finished)
send_commands client_id (s ∷ ss) [] = (send_command client_id s, waiting)
send_commands client_id (s ∷ ss) (unreadable ∷ rs) = (send_command client_id s, aborted)
send_commands client_id (s ∷ ss) (response m ∷ rs) =
    let (sent, ending) = send_commands client_id ss rs in
    if type_code m.msg_type == type_code client_ack
    then (send_command client_id s ++ sent, ending)
    else (send_command client_id s, assertion_error)
