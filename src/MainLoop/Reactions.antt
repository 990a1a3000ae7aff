-- ===== src/MainLoop/Reactions.antt =====
-- Each reaction of the proposer is a step of the abstract relation, and keeps the tests of its loops.
use cse.Prelude.{
  sym, subst, ℕ, ◌/◌, ◌≤◌, ◌≡◌, refl, Bool, true, List, [], Bool-cases, inl, inr, arith, ◌==◌,
}
use cse.Num.{is_absent}
use cse.Message.{exit, client, type_code, Value, number, cmd, Message}
use cse.Proposer.{
  Phase, Event, connected, received, recv_failed, eof, got, timed_out, listening, reading, ready,
  accepting_next, finished, proposing, accepting, crashed, Proposer, Input, retry,
}
use cse.Rounds.{leave, open_request, start_request}
use cse.MainLoop.{
  while_listening, while_reading, react_proposing, react_accepting, accept_timeout, react,
}
use cse.MainLoop.Act.{IsWaiting, IsIdle, same, InLoop, Act, stay, requeue, rest, again}
use cse.MainLoop.Gathering.{Frame-refl, retry-Act, while_proposing-Act}
use cse.MainLoop.Deciding.{while_accepting-Act}

while_listening-Act : (p : Proposer) (e : Event) → IsIdle p.phase → Act p (while_listening e p)
unfolding while_listening
while_listening-Act p connected idle = rest _ idle (Frame-refl p) refl tt
while_listening-Act p (got m) idle = elim (Bool-cases (type_code m.msg_type == type_code exit)) [
  | inl e ↦ rw e (rest _ idle (Frame-refl p) refl tt)
  | inr e ↦ rw e (requeue m)
]
while_listening-Act p (received m) idle = stay
while_listening-Act p recv_failed idle = stay
while_listening-Act p eof idle = stay
while_listening-Act p timed_out idle = stay

leave-Act :
    (p : Proposer) (cd : Bool) → IsIdle p.phase → Act p (leave (record p { client_done = cd }), [])
unfolding leave
leave-Act p cd idle = rest _ idle (Frame-refl p) refl (ground arith)

open_request-Act :
    (p : Proposer) (v : Value) (m : Message) → IsIdle p.phase → Act p (open_request v m p, [])
unfolding open_request
open_request-Act p (number n) m idle = rest _ idle (Frame-refl p) refl tt
open_request-Act p (cmd c) m idle = elim (Bool-cases (type_code m.msg_type == type_code client)) [
  | inl asks ↦ elim (Bool-cases (is_absent m.client_id)) [
    | inl gone ↦ rw (asks, gone) (rest _ idle (Frame-refl p) refl tt)
    | inr here ↦ rw (asks, here) (rest _ idle (Frame-refl p) refl tt)
  ]
  | inr other ↦ rw other (rest _ idle (Frame-refl p) refl tt)
]

while_reading-Act : (p : Proposer) (e : Event) → IsIdle p.phase → Act p (while_reading e p, [])
unfolding while_reading
while_reading-Act p (received m) idle = unfold start_request in open_request-Act p m.value m idle
while_reading-Act p recv_failed idle = leave-Act p p.client_done idle
while_reading-Act p eof idle = leave-Act p true idle
while_reading-Act p connected idle = stay
while_reading-Act p (got m) idle = stay
while_reading-Act p timed_out idle = stay

-- A timeout in ACCEPTING adds two rounds to the proposal number.
accept_timeout-Act : (p : Proposer) → IsWaiting p.phase → Act p (accept_timeout p, [])
unfolding accept_timeout
accept_timeout-Act p waiting =
    again (accept_timeout p) 2 waiting (omega arith)
      (record {
        server_id = refl;
        group_size = refl;
        connections = refl;
        grown = unfold retry in omega arith;
        instance_num = refl;
        lock_set = refl;
        resolutions = refl;
        logfile = refl;
      })
      same refl

module _ (above : Message → Message → Bool) (p : Proposer) where
  react_proposing-Act :
      (e : Event) (nacks : List Message) (cnt : ℕ)
      → p.phase ≡ proposing nacks cnt
      → Act p (react_proposing above e nacks cnt p, [])
  unfolding react_proposing
  react_proposing-Act (got m) nacks cnt at = while_proposing-Act above at m nacks cnt
  react_proposing-Act timed_out nacks cnt at =
      retry-Act p p 0 (subst IsWaiting (sym at) tt) (Frame-refl p) same
  react_proposing-Act connected nacks cnt at = stay
  react_proposing-Act (received m) nacks cnt at = stay
  react_proposing-Act recv_failed nacks cnt at = stay
  react_proposing-Act eof nacks cnt at = stay

  react_accepting-Act :
      (e : Event) (up : Bool) (cnt : ℕ)
      → p.phase ≡ accepting cnt
      → cnt ≤ p.group_size / 2
      → Act p (react_accepting e up cnt p)
  unfolding react_accepting
  react_accepting-Act (got m) up cnt at low = while_accepting-Act at m low up
  react_accepting-Act timed_out up cnt at low = accept_timeout-Act p (subst IsWaiting (sym at) tt)
  react_accepting-Act connected up cnt at low = stay
  react_accepting-Act (received m) up cnt at low = stay
  react_accepting-Act recv_failed up cnt at low = stay
  react_accepting-Act eof up cnt at low = stay

  react_at-Act :
      (i : Input) (ph : Phase) → p.phase ≡ ph → InLoop p.group_size ph → Act p (react above i ph p)
  unfolding react
  react_at-Act i listening at low = while_listening-Act p i.event (subst IsIdle (sym at) tt)
  react_at-Act i reading at low = while_reading-Act p i.event (subst IsIdle (sym at) tt)
  react_at-Act i (proposing nacks cnt) at low = react_proposing-Act i.event nacks cnt at
  react_at-Act i (accepting cnt) at low = react_accepting-Act i.event i.client_up cnt at low
  react_at-Act i ready at low = stay
  react_at-Act i accepting_next at low = stay
  react_at-Act i finished at low = stay
  react_at-Act i (crashed f) at low = stay

  pub react-Act : (i : Input) → InLoop p.group_size p.phase → Act p (react above i p.phase p)
  react-Act i low = react_at-Act i p.phase refl low
