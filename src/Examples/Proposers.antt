-- ===== src/Examples/Proposers.antt =====
-- A proposer, server 0 of a group of three, through the decision of a LOCK.
use cse.Prelude.{sym, subst, ℕ, ◌≡◌, refl, Bool, true, List, [], ◌∷◌, ◌++◌, All, Memᴰ, ◌≢◌, arith}
use cse.Num.{absent, minus_one, nat}
use cse.Command.{Command, lock, pos}
use cse.Message.{
  MessageType, prepare, accept, prepare_ack, prepare_nack, accept_ack, client, Value, number, cmd,
  Message, message,
}
use cse.Proposer.{Proposer, Input, Event, connected, received, got, Output, to_acceptor}
use cse.MainLoop
use cse.MainLoop.Acks.{IsEarned, step-IsEarned}
use cse.MainLoop.Rising.{IsBefore, run-IsBefore}
use cse.Validate.Logs.{Judged, validate_lock_file-run}
use cse.MainLoop.Replica.{IsReplica, run-IsReplica}
use cse.MainLoop.Quorum.{Grows, step-Grows}
use cse.MainLoop.Ballots.{CarriesBallot, run-CarriesBallot, run-no_collision}

-- Any order of message objects will do here.
abbrev above : Message → Message → Bool
above a b = true

abbrev three : Command
three = record { command_type = lock; resource_id = pos 3 }

abbrev request : Message
request = record {
  msg_type = client;
  proposal = absent;
  instance_num = absent;
  value = cmd three;
  origin_id = nat 9;
  client_id = nat 9;
  r_proposal = minus_one;
}

abbrev promise_of : ℕ → Message
promise_of server = record {
  msg_type = prepare_ack;
  proposal = nat 0;
  instance_num = nat 0;
  value = number (nat 9);
  origin_id = nat server;
  client_id = minus_one;
  r_proposal = minus_one;
}

abbrev vote_of : ℕ → Message
vote_of server = record {
  msg_type = accept_ack;
  proposal = nat 0;
  instance_num = nat 0;
  value = cmd three;
  origin_id = nat server;
  client_id = nat 9;
  r_proposal = minus_one;
}

abbrev on : Event → Input
on e = record { event = e; alive = λ c. true; client_up = true }

abbrev inputs : List Input
inputs =
    on connected
    ∷ on (received request)
    ∷ on (got (promise_of 1))
    ∷ on (got (promise_of 2))
    ∷ on (got (vote_of 1))
    ∷ []

abbrev before : Proposer
before = (MainLoop.run above (MainLoop.initialize_proposer 0 3 (1 ∷ 2 ∷ [])) inputs).0

abbrev after : Proposer
after = (MainLoop.step above before (on (got (vote_of 2)))).0

decision : after.lock_set ≡ pos 3 ∷ []
unfolding MainLoop.run MainLoop.step MainLoop.initialize_proposer cse.Message.seen
decision = refl

run-IsReplica_example :
    IsReplica
      (MainLoop.run above
        (MainLoop.initialize_proposer 0 3 (1 ∷ 2 ∷ []))
        (inputs ++ on (got (vote_of 2)) ∷ [])).0
run-IsReplica_example = run-IsReplica above 0 3 (1 ∷ 2 ∷ []) (inputs ++ on (got (vote_of 2)) ∷ [])

validate_lock_file-run_example :
    Judged
      (MainLoop.run above
        (MainLoop.initialize_proposer 0 3 (1 ∷ 2 ∷ []))
        (inputs ++ on (got (vote_of 2)) ∷ [])).0
unfolding MainLoop.run MainLoop.step MainLoop.initialize_proposer cse.Message.seen
validate_lock_file-run_example =
    validate_lock_file-run above 0 3 (1 ∷ 2 ∷ []) (inputs ++ on (got (vote_of 2)) ∷ []) (refl, tt)

step-Grows_example : Grows before after
step-Grows_example = step-Grows above 0 3 (1 ∷ 2 ∷ []) inputs (on (got (vote_of 2)))

-- The PREPARE of the first request against the ACCEPT that follows the promises.
run-IsBefore_example :
    let p =
      (MainLoop.run above (MainLoop.initialize_proposer 0 3 (1 ∷ 2 ∷ [])) (on connected ∷ [])).0 in
    let (q, out) = MainLoop.step above p (on (received request)) in
    All
      (λ o.
        All
          (IsBefore o)
          (MainLoop.run above q (on (got (promise_of 1)) ∷ on (got (promise_of 2)) ∷ [])).1)
      out
run-IsBefore_example =
    run-IsBefore above 0 3 (1 ∷ 2 ∷ []) (on connected ∷ []) (on (received request))
      (on (got (promise_of 1)) ∷ on (got (promise_of 2)) ∷ []) (omega arith)

step-IsEarned_example :
    All (IsEarned before after) (MainLoop.step above before (on (got (vote_of 2)))).1
step-IsEarned_example = step-IsEarned above 0 3 (1 ∷ 2 ∷ []) inputs (on (got (vote_of 2)))

run-CarriesBallot_example :
    All
      (CarriesBallot 0 3)
      (MainLoop.run above (MainLoop.initialize_proposer 0 3 (1 ∷ 2 ∷ [])) inputs).1
run-CarriesBallot_example = run-CarriesBallot 0 3 above (1 ∷ 2 ∷ []) inputs

-- Another proposer, with the same first request.
abbrev opening : List Input
opening = on connected ∷ on (received request) ∷ []

abbrev asked : ℕ → Message
asked n = record {
  msg_type = prepare;
  proposal = nat n;
  instance_num = nat 0;
  value = number absent;
  origin_id = nat n;
  client_id = nat 9;
  r_proposal = minus_one;
}

abbrev outputs : ℕ → List Output
outputs s = (MainLoop.run above (MainLoop.initialize_proposer s 3 (1 ∷ [])) opening).1

zero_asks : outputs 0 ≡ to_acceptor 1 (asked 0) ∷ []
unfolding MainLoop.run MainLoop.step MainLoop.initialize_proposer cse.Message.seen
    cse.Broadcast.send_to_acceptors
zero_asks = refl

one_asks : outputs 1 ≡ to_acceptor 1 (asked 1) ∷ []
unfolding MainLoop.run MainLoop.step MainLoop.initialize_proposer cse.Message.seen
    cse.Broadcast.send_to_acceptors
one_asks = refl

run-no_collision_example : (asked 0).proposal ≢ (asked 1).proposal
run-no_collision_example =
    run-no_collision above 3 0 1 (omega arith) (omega arith) (λ e. omega (arith, e)) (1 ∷ [])
      (1 ∷ []) opening opening
      (subst (Memᴰ (to_acceptor 1 (asked 0))) (sym zero_asks) (Memᴰ.head refl))
      (subst (Memᴰ (to_acceptor 1 (asked 1))) (sym one_asks) (Memᴰ.head refl))
