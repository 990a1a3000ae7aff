-- ===== src/Rounds.antt =====
-- The loops of initialize_proposer in problemset2/src/server.py: connections, requests, and the
-- rounds of a proposal. `step` takes the process from one blocking read to the next.
use cse.Prelude.{
  ℕ, ◌+◌, ◌/◌, Bool, true, false, Option, some, none, List, [], ◌∷◌, ◌++◌, if◌then◌else◌, leb, ◌==◌,
  ◌&&◌,
}
use cse.Num.{absent, minus_one, nat, eq_num, lt_num, is_absent}
use cse.Command.{command_code, ℤ}
use cse.Message.{
  MessageType, prepare_ack, prepare_nack, accept_ack, client, client_ack, exit, type_code, Value,
  number, cmd, eq_value, Message, message,
}
use cse.LockSet.{contains, execute_command}
use cse.Proposer.{
  Fault, assertion_error, attribute_error, value_error, socket_error, Phase, listening, reading,
  ready, accepting_next, proposing, accepting, finished, Proposer, Output, to_client, if_dup, crash,
  resolve, retry, learn,
}

-- learnt_command.command_type == COMMAND_TYPE.LOCK
abbrev pub is_lock : Value → Bool
is_lock (cmd c) = command_code c.command_type == 0
is_lock (number n) = false

-- The learnt command is the client's own.
abbrev pub is_own : Proposer → Bool
is_own p =
    eq_num p.learnt_client p.orig_client_id && eq_value p.learnt_command (cmd p.client_command)

-- Won, but the lock is taken.
unfoldable pub is_blocked : Proposer → Bool
is_blocked p =
    is_own p && (is_lock p.learnt_command && contains p.client_command.resource_id p.lock_set)

-- At the end of a request: back to `recv`, or out of the loops.
unfoldable pub leave : Proposer → Proposer
leave p = record p { phase = if p.done then finished else listening }

unfoldable pub next_request : Proposer → Proposer
unfolding leave
next_request p = if p.client_done then leave p else record p { phase = reading }

-- An EXIT message sets both flags.
abbrev pub exiting : Proposer → Proposer
exiting p = record p { done = true; client_done = true }

module _ (above : Message → Message → Bool) where
  -- PROPOSING, after the loop has ended by a majority.
  unfoldable pub proposed : List Message → Proposer → Proposer
  unfolding learn is_blocked retry
  proposed pre_nacks p =
      let q = learn above pre_nacks p in
      if is_blocked q then retry q else record q { phase = accepting_next }

  -- The test of the loop of PROPOSING.
  unfoldable pub propose_loop : List Message → ℕ → Proposer → Proposer
  unfolding proposed
  propose_loop pre_nacks cnt p =
      if leb cnt (p.group_size / 2)
      then record p { phase = proposing pre_nacks cnt }
      else proposed pre_nacks p

  -- The branch on the type of a response of this instance.
  unfoldable pub on_response : MessageType → Message → List Message → ℕ → Proposer → Proposer
  unfolding propose_loop retry
  on_response prepare_ack msg pre_nacks cnt p = propose_loop pre_nacks (cnt + 1) p
  on_response prepare_nack msg pre_nacks cnt p = propose_loop (pre_nacks ++ msg ∷ []) (cnt + 1) p
  on_response exit msg pre_nacks cnt p = retry (exiting p)
  on_response accept_ack msg pre_nacks cnt p = propose_loop pre_nacks cnt p
  on_response _ msg pre_nacks cnt p = crash value_error p

  -- The body of the loop of PROPOSING. The failed assertion on the client id is caught with the
  -- timeout, and ends the round.
  unfoldable pub while_proposing : Message → List Message → ℕ → Proposer → Proposer
  unfolding on_response if_dup retry
  while_proposing msg pre_nacks cnt p =
      let (dup, history) = if_dup msg p.msg_history in
      let q = record p { msg_history = history } in
      if is_absent msg.client_id
      then retry p
      else if dup
      then propose_loop pre_nacks cnt p
      else if eq_num msg.instance_num (nat p.instance_num)
      then on_response msg.msg_type msg pre_nacks cnt q
      else propose_loop pre_nacks cnt q

-- What execute_command does: the new lock_set, or an exception.
pub data Executed : Type 0 where
  ran : List ℤ → Executed
  failed : Fault → Executed

-- A failed assertion of execute_command.
unfoldable pub or_failed : Option (List ℤ) → Executed
or_failed none = failed assertion_error
or_failed (some locks) = ran locks

-- A learnt value that is no command has no attribute command_type.
unfoldable pub execute_value : Value → List ℤ → Executed
unfolding execute_command or_failed
execute_value (number n) locks = failed attribute_error
execute_value (cmd c) locks = or_failed (execute_command c locks)

-- After a successful execution: the next instance, and the client's own command again.
unfoldable pub after_execute : Executed → Phase → Proposer → Proposer
after_execute (failed f) then_phase p = crash f p
after_execute (ran locks) then_phase p = record p {
  lock_set = locks;
  instance_num = p.instance_num + 1;
  learnt_command = cmd p.client_command;
  learnt_client = p.orig_client_id;
  phase = then_phase;
}

-- The resolution and the log line of the instance, and the execution of its command.
unfoldable pub conclude : Message → Phase → Proposer → Proposer
unfolding resolve execute_value after_execute
conclude msg then_phase p =
    after_execute (execute_value p.learnt_command p.lock_set) then_phase (record p {
      instance_resolutions =
          resolve p.instance_num (p.learnt_command, msg.client_id) p.instance_resolutions;
      logfile =
          p.logfile
          ++ record {
            instance_num = p.instance_num;
            client_id = p.learnt_client;
            command = p.learnt_command;
          }
            ∷ [];
    })

-- The message of the client acknowledgement.
unfoldable pub client_ack_message : Message → Proposer → Message
unfolding message
client_ack_message msg p =
    message client_ack absent (nat p.instance_num) (cmd p.client_command) (nat p.server_id)
      msg.client_id minus_one

-- ACCEPTING, after the loop has ended by a majority; `msg` is the last response.
unfoldable pub accepted : Message → Bool → Proposer → Proposer × List Output
unfolding client_ack_message conclude next_request
accepted msg client_up p =
    if is_own p
    then (if is_absent msg.client_id
        then (crash assertion_error p, [])
        else if client_up
        then (conclude msg (next_request p).phase p, to_client (client_ack_message msg p) ∷ [])
        else (crash socket_error p, []))
    else (conclude msg ready p, [])

-- The test of the loop of ACCEPTING; the proposal number grows in any case.
unfoldable pub accept_loop : Message → Bool → ℕ → Proposer → Proposer × List Output
unfolding accepted
accept_loop msg client_up cnt p =
    if leb cnt (p.group_size / 2)
    then (record p { phase = accepting cnt }, [])
    else accepted msg client_up (record p { proposer_num = p.proposer_num + p.group_size })

-- The branch on the type of a response of this instance.
unfoldable pub on_accept_response :
    MessageType → Message → Bool → ℕ → Proposer → Proposer × List Output
unfolding accept_loop
on_accept_response accept_ack msg up cnt p =
    accept_loop msg up (if eq_num msg.proposal (nat p.proposer_num) then cnt + 1 else cnt) p
on_accept_response prepare_ack msg up cnt p = accept_loop msg up cnt p
on_accept_response prepare_nack msg up cnt p = accept_loop msg up cnt p
on_accept_response exit msg up cnt p = accept_loop msg up cnt (exiting p)
on_accept_response _ msg up cnt p = (crash value_error p, [])

-- The body of the loop of ACCEPTING.
unfoldable pub while_accepting : Message → Bool → ℕ → Proposer → Proposer × List Output
unfolding on_accept_response if_dup
while_accepting msg up cnt p =
    let (dup, history) = if_dup msg p.msg_history in
    let q = record p { msg_history = history } in
    if dup
    then accept_loop msg up cnt p
    else if eq_num msg.instance_num (nat p.instance_num)
    then on_accept_response msg.msg_type msg up cnt q
    else if lt_num msg.instance_num (nat p.instance_num)
    then accept_loop msg up cnt q
    else (crash assertion_error q, [])

-- The assertions on a request after its command is known, and the start of the rounds.
unfoldable pub open_request : Value → Message → Proposer → Proposer
open_request (number n) c_msg p = crash assertion_error p
open_request (cmd c) c_msg p =
    if type_code c_msg.msg_type == type_code client
    then (if is_absent c_msg.client_id then crash assertion_error p else record p {
      client_command = c;
      orig_client_id = c_msg.client_id;
      learnt_command = cmd c;
      learnt_client = c_msg.client_id;
      phase = ready;
    })
    else crash assertion_error p

-- A request of the client: its value must be a command.
unfoldable pub start_request : Message → Proposer → Proposer
unfolding open_request
start_request c_msg p = open_request c_msg.value c_msg p
