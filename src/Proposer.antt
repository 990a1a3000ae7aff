-- ===== src/Proposer.antt =====
-- The proposer process of a Paxos member: initialize_proposer of problemset2/src/server.py.
-- Its loops read one input at a time: a client connection, a request, a message of the proposer
-- queue, or the timeout of one of these. `step` is what the process does from one input to the next.
use cse.Prelude.{ℕ, ◌+◌, ◌/◌, Bool, true, false, List, [], ◌∷◌, map, if◌then◌else◌, ltb, ◌==◌}
use cse.Num.{Num, absent, minus_one, nat, eq_num, lt_num, is_absent}
use cse.Command.{Command, ℤ}
use cse.Message.{
  MessageType, prepare, prepare_ack, prepare_nack, accept, accept_ack, Value, number, Message,
  message, seen,
}
use cse.Broadcast.{send_to_acceptors}

-- An exception that ends the process.
pub data Fault : Type 0 where
  assertion_error attribute_error value_error socket_error : Fault

-- Where the process stands: waiting for a client (`listening`) or for its next request (`reading`),
-- or in a state of the code, with the local variables of that state's loop. IDLE is `reading`.
pub data Phase : Type 0 where
  listening reading ready accepting_next finished : Phase
  proposing : (pre_nacks : List Message) (response_cnt : ℕ) → Phase
  accepting : (response_cnt : ℕ) → Phase
  crashed : Fault → Phase

-- A line of the log file: instance, client, command.
pub record Line : Type 0 where
  pub instance_num : ℕ
  pub client_id : Num
  pub command : Value

pub record Proposer : Type 0 where
  pub server_id : ℕ
  pub group_size : ℕ
  pub server_connections : List ℕ
  pub proposer_num : ℕ
  pub instance_num : ℕ
  pub msg_history : List Message
  pub lock_set : List ℤ
  pub instance_resolutions : List (ℕ × (Value × Num))
  pub logfile : List Line
  pub client_command : Command
  pub orig_client_id : Num
  pub learnt_command : Value
  pub learnt_client : Num
  pub phase : Phase
  pub done : Bool
  pub client_done : Bool

pub data Event : Type 0 where
  connected : Event
  received : Message → Event
  recv_failed : Event
  eof : Event
  got : Message → Event
  timed_out : Event

-- An input, with what the sockets do until the next one: the server connections on which a send
-- succeeds, and whether one to the client does.
pub record Input : Type 0 where
  pub event : Event
  pub alive : ℕ → Bool
  pub client_up : Bool

pub data Output : Type 0 where
  to_acceptor : ℕ → Message → Output
  to_client : Message → Output
  requeued : Message → Output

-- proposer_msg_types: the types of which duplicates are dropped.
unfoldable pub is_proposer_type : MessageType → Bool
is_proposer_type prepare_ack = true
is_proposer_type prepare_nack = true
is_proposer_type accept_ack = true
is_proposer_type _ = false

-- if_dup: whether the message is a duplicate, and the new msg_history.
unfoldable pub if_dup : Message → List Message → Bool × List Message
unfolding is_proposer_type
if_dup msg msg_history =
    if is_proposer_type msg.msg_type
    then (if seen msg msg_history then (true, msg_history) else (false, msg ∷ msg_history))
    else (false, msg_history)

abbrev pub crash : Fault → Proposer → Proposer
crash f p = record p { phase = crashed f }

-- self.instance_resolutions[i] = v
unfoldable pub resolve : ℕ → Value × Num → List (ℕ × (Value × Num)) → List (ℕ × (Value × Num))
resolve i v [] = (i, v) ∷ []
resolve i v ((j, w) ∷ rs) = if j == i then (i, v) ∷ rs else (j, w) ∷ resolve i v rs

-- The next round: state READY and a higher proposal number.
unfoldable pub retry : Proposer → Proposer
retry p = record p { phase = ready; proposer_num = p.proposer_num + p.group_size }

-- response_cnt > group_size / 2
abbrev pub is_majority : Proposer → ℕ → Bool
is_majority p cnt = ltb (p.group_size / 2) cnt

-- Send one message to the acceptors.
unfoldable pub broadcast : (ℕ → Bool) → Message → Proposer → Proposer × List Output
broadcast alive msg p =
    let (kept, sent) = send_to_acceptors alive p.server_connections in
    (record p { server_connections = kept }, map (λ c. to_acceptor c msg) sent)

-- The PREPARE of the READY state.
unfoldable pub prepare_message : Proposer → Message
unfolding message
prepare_message p =
    message prepare (nat p.proposer_num) (nat p.instance_num) (number absent) (nat p.server_id)
      p.orig_client_id minus_one

-- READY
unfoldable pub send_prepare : (ℕ → Bool) → Proposer → Proposer × List Output
unfolding broadcast prepare_message
send_prepare alive p =
    if is_absent p.orig_client_id
    then (crash assertion_error p, [])
    else broadcast alive (prepare_message p) (record p { phase = proposing [] 0 })

-- The ACCEPT of the ACCEPT state.
unfoldable pub accept_message : Proposer → Message
unfolding message
accept_message p =
    message accept (nat p.proposer_num) (nat p.instance_num) p.learnt_command (nat p.server_id)
      p.learnt_client minus_one

-- ACCEPT
unfoldable pub send_accept : (ℕ → Bool) → Proposer → Proposer × List Output
unfolding broadcast accept_message
send_accept alive p =
    if is_absent p.learnt_client
    then (crash assertion_error p, [])
    else broadcast alive (accept_message p) (record p { phase = accepting 0 })

-- `max` of pairs of a proposal and a message object. Python 2 orders objects with no comparison of
-- their own by address: `above` is that order.
module _ (above : Message → Message → Bool) where
  unfoldable pub exceeds : Message → Message → Bool
  exceeds m best =
      if eq_num m.proposal best.proposal then above m best else lt_num best.proposal m.proposal

  unfoldable pub highest : Message → List Message → Message
  unfolding exceeds
  highest best [] = best
  highest best (m ∷ ms) = highest (if exceeds m best then m else best) ms

  -- Learn the value of the chosen NACK, if there is one.
  unfoldable pub learn : List Message → Proposer → Proposer
  unfolding highest
  learn [] p = p
  learn (m ∷ ms) p =
      let best = highest m ms in
      record p { learnt_command = best.value; learnt_client = best.client_id }
