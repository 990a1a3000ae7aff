-- ===== src/Acceptor.antt =====
-- The acceptor process of a Paxos member: initialize_acceptor of problemset2/src/server.py.
-- The state holds the variables of the process, and `step` is one turn of its main loop: a
-- message that is taken off the acceptor queue, and whether the send of a reply succeeds.
pub mod Table
pub mod Effect
pub mod Promise
pub mod Report
pub mod Duplicates
pub mod View
use cse.Prelude.{
  ℕ, Bool, true, false, List, [], ◌∷◌, ◌++◌, Option, none, some, if◌then◌else◌, leb, not, ◌||◌,
}
use cse.Num.{Num, absent, minus_one, nat, rank, eq_num, lt_num}
use cse.Message.{
  MessageType, prepare, prepare_ack, prepare_nack, accept, accept_ack, exit, Value, number, Message,
  message, seen,
}

-- A value of accept_history: the promised proposal, and what was accepted last, if anything.
pub record Entry : Type 0 where
  pub prep : Num
  pub accp : Num
  pub accv : Value
  pub cid : Num

-- accept_history, keyed by the instance number.
abbrev pub History : Type 0
History = List (Num × Entry)

unfoldable pub lookup : Num → History → Option Entry
lookup k [] = none
lookup k ((j, e) ∷ h) = if eq_num j k then some e else lookup k h

unfoldable pub insert : Num → Entry → History → History
insert k e [] = (k, e) ∷ []
insert k e ((j, f) ∷ h) = if eq_num j k then (k, e) ∷ h else (j, f) ∷ insert k e h

-- An exception that nothing catches ends the process.
pub data Error : Type 0 where
  key_error attribute_error value_error : Error

pub data Status : Type 0 where
  running : Status
  stopped : Status
  crashed : Error → Status

pub record Acceptor : Type 0 where
  pub server_id : ℕ
  pub connections : List Num
  pub history : History
  pub msg_history : List Message
  pub status : Status

-- The server to which a reply goes, and the reply.
abbrev pub Reply : Type 0
Reply = Num × Message

-- A message from the queue, and whether a reply to it can be sent.
pub record Delivery : Type 0 where
  pub msg : Message
  pub sends : Bool

unfoldable pub connected : Num → List Num → Bool
connected k [] = false
connected k (j ∷ js) = eq_num j k || connected k js

-- response_proposer: a missing connection is a KeyError, and after a failed send
-- `server_connections.remove` is an AttributeError, since a dict has no such method.
unfoldable pub response_proposer : List Num → Bool → Num → Option Error
unfolding connected
response_proposer conns sends prop_id =
    if connected prop_id conns
    then (if sends then none else some attribute_error)
    else some key_error

-- After the call of response_proposer: the new entry of accept_history, or the exception.
unfoldable pub after_send :
    Acceptor → Delivery → Message → Entry → Option Error → Acceptor × List Reply
after_send a d rmsg e none =
    (record a { history = insert d.msg.instance_num e a.history }, (d.msg.origin_id, rmsg) ∷ [])
after_send a d rmsg e (some err) = (record a { status = crashed err }, [])

-- A reply, and after it the new entry of accept_history; the entry is not written if the reply
-- fails.
unfoldable pub reply_and_store : Acceptor → Delivery → Message → Entry → Acceptor × List Reply
unfolding after_send
reply_and_store a d rmsg e =
    after_send a d rmsg e (response_proposer a.connections d.sends d.msg.origin_id)

-- The answer to a PREPARE for an instance that has an entry.
unfoldable pub promise_reply : ℕ → Message → Entry → Message
unfolding message
promise_reply server_id m h =
    message (if not (eq_num h.accp minus_one) then prepare_nack else prepare_ack) m.proposal
      m.instance_num h.accv (nat server_id) h.cid h.accp

-- The answer to the first PREPARE for an instance.
unfoldable pub first_reply : ℕ → Message → Message
unfolding message
first_reply server_id m =
    message prepare_ack m.proposal m.instance_num (number m.client_id) (nat server_id) minus_one
      minus_one

unfoldable pub accept_reply : ℕ → Message → Message
unfolding message
accept_reply server_id m =
    message accept_ack m.proposal m.instance_num m.value (nat server_id) m.client_id minus_one

-- The branch for a PREPARE, by whether `p_instance in accept_history`.
unfoldable pub handle_prepare : Acceptor → Delivery → Option Entry → Acceptor × List Reply
unfolding reply_and_store promise_reply first_reply
handle_prepare a d none =
    reply_and_store a d (first_reply a.server_id d.msg)
      (record { prep = d.msg.proposal; accp = minus_one; accv = number absent; cid = absent })
handle_prepare a d (some h) =
    if lt_num h.prep d.msg.proposal
    then reply_and_store a d (promise_reply a.server_id d.msg h)
        (record h { prep = d.msg.proposal })
    else (a, [])

unfoldable pub accepted_entry : Message → Entry
accepted_entry m = record {
  prep = m.proposal;
  accp = m.proposal;
  accv = m.value;
  cid = m.client_id;
}

-- The branch for an ACCEPT.
unfoldable pub handle_accept : Acceptor → Delivery → Option Entry → Acceptor × List Reply
unfolding reply_and_store accept_reply accepted_entry
handle_accept a d none = reply_and_store a d (accept_reply a.server_id d.msg) (accepted_entry d.msg)
handle_accept a d (some h) =
    if leb (rank h.prep) (rank d.msg.proposal)
    then reply_and_store a d (accept_reply a.server_id d.msg) (accepted_entry d.msg)
    else (a, [])

-- The switch on the type of the message.
unfoldable pub dispatch : Acceptor → Delivery → MessageType → Acceptor × List Reply
unfolding handle_prepare handle_accept
dispatch a d prepare = handle_prepare a d (lookup d.msg.instance_num a.history)
dispatch a d accept = handle_accept a d (lookup d.msg.instance_num a.history)
dispatch a d exit = (record a { status = stopped }, [])
dispatch a d _ = (record a { status = crashed value_error }, [])

-- acceptor_msg_types: the types of which duplicates are dropped.
unfoldable pub is_acceptor_type : MessageType → Bool
is_acceptor_type prepare = true
is_acceptor_type accept = true
is_acceptor_type _ = false

-- The body of the main loop: drop a duplicate, remember the message, and switch on its type.
unfoldable pub receive : Acceptor → Delivery → Acceptor × List Reply
unfolding dispatch is_acceptor_type
receive a d =
    if is_acceptor_type d.msg.msg_type
    then (if seen d.msg a.msg_history
        then (a, [])
        else dispatch (record a { msg_history = d.msg ∷ a.msg_history }) d d.msg.msg_type)
    else dispatch a d d.msg.msg_type

abbrev pub is_running : Status → Bool
is_running running = true
is_running stopped = false
is_running (crashed e) = false

-- `while done == 0`: after an EXIT, or an exception, nothing more is read.
unfoldable pub step : Acceptor → Delivery → Acceptor × List Reply
unfolding receive
step a d = if is_running a.status then receive a d else (a, [])

-- The main loop over the messages of the queue, in order, with the replies.
unfoldable pub run : Acceptor → List Delivery → Acceptor × List Reply
run a [] = (a, [])
run a (d ∷ ds) = let (a', out) = step a d in let (a'', outs) = run a' ds in (a'', out ++ outs)

-- The start of the process, with the connections that could be opened.
unfoldable pub initialize_acceptor : ℕ → List Num → Acceptor
initialize_acceptor server_id connections = record {
  server_id = server_id;
  connections = connections;
  history = [];
  msg_history = [];
  status = running;
}
