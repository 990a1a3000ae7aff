-- ===== src/Message.antt =====
-- message.py: the messages between the members of the Paxos group and their clients.
pub mod Equality
use cse.Prelude.{ℕ, List, [], ◌∷◌, Bool, true, false, ◌==◌, ◌&&◌, ◌||◌}
use cse.Num.{Num, eq_num}
use cse.Command.{Command, eq_command}

pub data MessageType : Type 0 where
  prepare prepare_ack accept accept_ack client client_ack prepare_nack exit : MessageType

-- The values of MESSAGE_TYPE.
abbrev pub type_code : MessageType → ℕ
type_code prepare = 0
type_code prepare_ack = 1
type_code accept = 2
type_code accept_ack = 3
type_code client = 4
type_code client_ack = 5
type_code prepare_nack = 7
type_code exit = 8

-- `value` is a command, or None or a number (a PREPARE_ACK carries a client id there).
pub data Value : Type 0 where
  number : Num → Value
  cmd : Command → Value

abbrev pub eq_value : Value → Value → Bool
eq_value v w = elim v [
  | number a ↦ elim w [ number b ↦ eq_num a b | cmd d ↦ false ]
  | cmd c ↦ elim w [ number b ↦ false | cmd d ↦ eq_command c d ]
]

pub record Message : Type 0 where
  pub msg_type : MessageType
  pub proposal : Num
  pub instance_num : Num
  pub value : Value
  pub origin_id : Num
  pub client_id : Num
  pub r_proposal : Num

-- Equality of the message signatures that server.py keeps: tuples of all seven fields.
unfoldable pub eq_message : Message → Message → Bool
eq_message a b =
    type_code a.msg_type == type_code b.msg_type
    && (eq_value a.value b.value
        && (eq_num a.proposal b.proposal
            && (eq_num a.r_proposal b.r_proposal
                && (eq_num a.client_id b.client_id
                    && (eq_num a.instance_num b.instance_num && eq_num a.origin_id b.origin_id)))))

-- msg_signature in msg_history
unfoldable pub seen : Message → List Message → Bool
unfolding eq_message
seen m [] = false
seen m (h ∷ hs) = eq_message m h || seen m hs

-- message(msg_type, proposal, instance, value, origin_id, client_id, r_proposal)
unfoldable pub message : MessageType → Num → Num → Value → Num → Num → Num → Message
message msg_type proposal instance_num value origin_id client_id r_proposal = record {
  msg_type = msg_type;
  proposal = proposal;
  instance_num = instance_num;
  value = value;
  origin_id = origin_id;
  client_id = client_id;
  r_proposal = r_proposal;
}
