-- ===== src/MainLoop.antt =====
-- The main loop of initialize_proposer in problemset2/src/server.py, an input at a time.
pub mod Act
mod Gathering
pub mod Quorum
pub mod Replica
pub mod Numbering
pub mod Ballots
pub mod Acks
pub mod Belief
pub mod Support
pub mod Constancy
pub mod Statements
pub mod Memory
pub mod Stage
pub mod Rising
pub mod Induction
mod Settling
mod Reactions
mod Deciding
use cse.Prelude.{ℕ, ◌+◌, Bool, false, List, [], ◌∷◌, ◌++◌, if◌then◌else◌, ◌==◌}
use cse.Num.{absent}
use cse.Command.{none_type, pos}
use cse.Message.{exit, type_code, number, Message}
use cse.Proposer.{
  Phase, listening, reading, ready, accepting_next, proposing, accepting, finished, Proposer, Event,
  connected, received, recv_failed, eof, got, timed_out, Input, Output, requeued, retry,
  send_prepare, send_accept,
}
use cse.Rounds.{leave, start_request, while_proposing, while_accepting}

-- While no client is connected: an EXIT ends the process, another message goes back on the queue.
unfoldable pub while_listening : Event → Proposer → Proposer × List Output
while_listening connected p = (record p { phase = reading; client_done = false }, [])
while_listening (got m) p =
    if type_code m.msg_type == type_code exit
    then (record p { phase = finished; done = Bool.true; client_done = Bool.true }, [])
    else (p, requeued m ∷ [])
while_listening _ p = (p, [])

-- While a client is connected and no request is open.
unfoldable pub while_reading : Event → Proposer → Proposer
unfolding leave start_request
while_reading (received c_msg) p = start_request c_msg p
while_reading recv_failed p = leave p
while_reading eof p = leave (record p { client_done = Bool.true })
while_reading _ p = p

-- After a timeout in ACCEPTING the proposal number grows twice.
unfoldable pub accept_timeout : Proposer → Proposer
unfolding retry
accept_timeout p = retry (record p { proposer_num = p.proposer_num + p.group_size })

-- An input in ACCEPTING.
unfoldable pub react_accepting : Event → Bool → ℕ → Proposer → Proposer × List Output
unfolding while_accepting accept_timeout
react_accepting (got m) client_up cnt p = while_accepting m client_up cnt p
react_accepting timed_out client_up cnt p = (accept_timeout p, [])
react_accepting _ client_up cnt p = (p, [])

-- The states READY and ACCEPT send, and go on to the next state at once.
unfoldable pub settle : (ℕ → Bool) → Phase → Proposer → Proposer × List Output
unfolding send_prepare send_accept
settle alive ready p = send_prepare alive p
settle alive accepting_next p = send_accept alive p
settle alive _ p = (p, [])

module _ (above : Message → Message → Bool) where
  -- An input in PROPOSING: a message of the queue, or the timeout.
  unfoldable pub react_proposing : Event → List Message → ℕ → Proposer → Proposer
  unfolding while_proposing retry
  react_proposing (got m) pre_nacks cnt p = while_proposing above m pre_nacks cnt p
  react_proposing timed_out pre_nacks cnt p = retry p
  react_proposing _ pre_nacks cnt p = p

  -- What the process does with an input where it blocks; other inputs do not occur there.
  unfoldable pub react : Input → Phase → Proposer → Proposer × List Output
  unfolding while_listening while_reading react_proposing react_accepting
  react input listening p = while_listening input.event p
  react input reading p = (while_reading input.event p, [])
  react input (proposing pre_nacks cnt) p = (react_proposing input.event pre_nacks cnt p, [])
  react input (accepting cnt) p = react_accepting input.event input.client_up cnt p
  react input _ p = (p, [])

  unfoldable pub step : Proposer → Input → Proposer × List Output
  unfolding react settle
  step p input =
      let (q, out) = react input p.phase p in
      let (r, sends) = settle input.alive q.phase q in (r, out ++ sends)

  -- The process over its inputs, with all that it sends.
  unfoldable pub run : Proposer → List Input → Proposer × List Output
  run p [] = (p, [])
  run p (i ∷ is) = let (q, out) = step p i in let (r, outs) = run q is in (r, out ++ outs)

-- The start of the process. Nothing reads the fields of the request before the first one.
unfoldable pub initialize_proposer : ℕ → ℕ → List ℕ → Proposer
initialize_proposer server_id group_size connections = record {
  server_id = server_id;
  group_size = group_size;
  server_connections = connections;
  proposer_num = server_id;
  instance_num = 0;
  msg_history = [];
  lock_set = [];
  instance_resolutions = [];
  logfile = [];
  client_command = record { command_type = none_type; resource_id = pos 0 };
  orig_client_id = absent;
  learnt_command = number absent;
  learnt_client = absent;
  phase = listening;
  done = false;
  client_done = false;
}
