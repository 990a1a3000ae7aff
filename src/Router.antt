-- ===== src/Router.antt =====
-- connection_process of problemset2/src/server.py: what a received message puts on the queues of
-- the proposer and of the acceptor, with the simulated message errors.
pub mod Duplication
pub mod Rare
use cse.Prelude.{ltb, ℕ, Bool, List, [], ◌∷◌, ◌++◌, if◌then◌else◌}
use cse.Message.{
  MessageType, prepare, prepare_ack, prepare_nack, accept, accept_ack, client, client_ack, exit,
  Message,
}

-- The two queues, with what was put last at the end.
pub record Queues : Type 0 where
  pub proposer : List Message
  pub acceptor : List Message

-- drop_rate and dup_rate, rounded up to multiples of 2^-53, the grain of random.random(): a
-- dice is such a multiple, so that the comparisons are those of the floats.
pub record Rates : Type 0 where
  pub drop_rate : ℕ
  pub dup_rate : ℕ

unfoldable pub push_to_proposer_queue : Message → Queues → Queues
push_to_proposer_queue m q = record q { proposer = q.proposer ++ m ∷ [] }

unfoldable pub push_to_acceptor_queue : Message → Queues → Queues
push_to_acceptor_queue m q = record q { acceptor = q.acceptor ++ m ∷ [] }

-- Whether the process reads on, has ended after an EXIT, or has left its loop by an exception.
pub data Connection : Type 0 where
  reading closed broken : Connection

-- A message from the socket, the dice that is drawn for it, and whether the probe `socket.send`
-- succeeds.
pub record Arrival : Type 0 where
  pub msg : Message
  pub dice : ℕ
  pub probe : Bool

module _ (rates : Rates) where
  -- An internal message: a `continue` behind a drop skips the probe.
  unfoldable pub deliver : (Queues → Queues) → Arrival → Queues → Queues × Connection
  deliver push a q = if ltb a.dice rates.drop_rate then (q, reading) else (
    if ltb a.dice rates.dup_rate then push (push q) else push q,
    if a.probe then reading else broken,
  )

  -- The body of the loop, by the type of the message.
  unfoldable pub route : MessageType → Arrival → Queues → Queues × Connection
  unfolding push_to_proposer_queue push_to_acceptor_queue deliver
  route prepare_ack a q = deliver (push_to_proposer_queue a.msg) a q
  route prepare_nack a q = deliver (push_to_proposer_queue a.msg) a q
  route accept_ack a q = deliver (push_to_proposer_queue a.msg) a q
  route client a q = (push_to_proposer_queue a.msg q, if a.probe then reading else broken)
  route prepare a q = deliver (push_to_acceptor_queue a.msg) a q
  route accept a q = deliver (push_to_acceptor_queue a.msg) a q
  route client_ack a q = (q, broken)
  route exit a q = (push_to_acceptor_queue a.msg (push_to_proposer_queue a.msg q), closed)

  -- The loop of the process: `rest` is what it does with the later messages.
  unfoldable pub go_on : Queues × Connection → (Queues → Queues × Connection) → Queues × Connection
  go_on (q, reading) rest = rest q
  go_on (q, closed) rest = (q, closed)
  go_on (q, broken) rest = (q, broken)

  unfoldable pub run : List Arrival → Queues → Queues × Connection
  unfolding route go_on
  run [] q = (q, reading)
  run (a ∷ arrivals) q = go_on (route a.msg.msg_type a q) (run arrivals)
