-- ===== src/System.antt =====
-- A Paxos group of problemset2/src/server.py: the acceptors and the proposers of its members
-- (initialize_paxos), and all that they have sent to one another. A message that was sent can be
-- delivered at any time, to any acceptor, any number of times or never.
pub mod Answers
pub mod Grants
pub mod Majority
pub mod Claims
pub mod Offers
pub mod Turns
mod Wider
mod Safety
mod Speaking
pub mod Agreement
mod Members
pub mod Replicas
use cse.Prelude.{ℕ, Bool, true, false, List, [], ◌∷◌, ◌++◌, ◌||◌, ◌&&◌, if◌then◌else◌, ltb, ◌==◌}
use cse.Num.{Num, nat, eq_num}
use cse.Message.{Message, eq_message, seen}
use cse.Acceptor
use cse.Acceptor.{Acceptor, Reply, Delivery, initialize_acceptor}
use cse.Proposer.{
  Proposer, Event, connected, received, recv_failed, eof, got, timed_out, Input, Output,
  to_acceptor, to_client, requeued, is_proposer_type,
}
use cse.MainLoop
use cse.MainLoop.{initialize_proposer}

-- The processes of each member, what was sent to acceptors, and the replies with their receivers.
pub record System : Type 0 where
  pub acceptor : ℕ → Acceptor
  pub proposer : ℕ → Proposer
  pub requests : List Message
  pub replies : List Reply

-- One process makes a turn: the acceptor of a member with a message, or its proposer with an input.
pub data Action : Type 0 where
  acceptor_turn : (server : ℕ) → Delivery → Action
  proposer_turn : (server : ℕ) → Input → Action

-- The state of one member changes.
abbrev pub set_member : {A : Type 0} → (ℕ → A) → ℕ → A → ℕ → A
set_member f s a t = if t == s then a else f t

-- An acceptor gets a PREPARE or an ACCEPT only if one was sent.
unfoldable pub can_deliver : Message → List Message → Bool
can_deliver m requests = if Acceptor.is_acceptor_type m.msg_type then seen m requests else true

-- The reply was sent to the proposer of the member.
unfoldable pub was_sent : ℕ → Message → List Reply → Bool
was_sent server m [] = false
was_sent server m ((to, r) ∷ rs) =
    (eq_num to (nat server) && eq_message r m) || was_sent server m rs

-- A proposer gets a reply only if it was sent to it.
unfoldable pub can_read : ℕ → Event → List Reply → Bool
unfolding was_sent
can_read server (got m) replies =
    if is_proposer_type m.msg_type then was_sent server m replies else true
can_read server _ replies = true

-- The messages that go to acceptors.
unfoldable pub to_acceptors : List Output → List Message
to_acceptors [] = []
to_acceptors (to_acceptor c m ∷ os) = m ∷ to_acceptors os
to_acceptors (to_client m ∷ os) = to_acceptors os
to_acceptors (requeued m ∷ os) = to_acceptors os

module _ (above : Message → Message → Bool) (n : ℕ) where
  -- A turn of one process of a group of `n`; an action that is not possible changes nothing.
  unfoldable pub step : System → Action → System
  unfolding can_deliver can_read to_acceptors
  step y (acceptor_turn s d) =
      let (a, out) = Acceptor.step (y.acceptor s) d in
      if ltb s n && can_deliver d.msg y.requests
      then record y { acceptor = set_member y.acceptor s a; replies = out ++ y.replies }
      else y
  step y (proposer_turn s i) =
      let (p, out) = MainLoop.step above (y.proposer s) i in
      if ltb s n && can_read s i.event y.replies
      then record y {
        proposer = set_member y.proposer s p;
        requests = to_acceptors out ++ y.requests;
      }
      else y

  unfoldable pub run : System → List Action → System
  unfolding step
  run y [] = y
  run y (a ∷ actions) = run (step y a) actions

-- The start of a group of `n`, with the connections that each member could open.
unfoldable pub initialize_paxos : ℕ → (ℕ → List Num) → (ℕ → List ℕ) → System
initialize_paxos n acceptor_conns proposer_conns = record {
  acceptor = λ s. initialize_acceptor s (acceptor_conns s);
  proposer = λ s. initialize_proposer s n (proposer_conns s);
  requests = [];
  replies = [];
}
