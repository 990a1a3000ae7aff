-- ===== src/Examples/Groups.antt =====
-- A group of three servers: server 0 decides a LOCK, and server 1, which asks for another one at the
-- same instance, learns it from a PREPARE_NACK.
use cse.Prelude.{
  All, map, ◌∙◌, ◌≤◌, arith, length, some, sym, Memᴰ, subst, Bool, ◌++◌, ℕ, ◌≡◌, refl, true, List,
  [], ◌∷◌,
}
use mathlib.Core.List.Memᴰ.{head}
use cse.Num.{Num, absent, minus_one, nat}
use cse.Command.{lock, pos}
use cse.Message.{
  MessageType, prepare, prepare_ack, prepare_nack, accept, accept_ack, client, Value, number, cmd,
  Message,
}
use cse.Proposer.{proposing, ready, reading, Line, Event, connected, received, got}
use cse.System
use cse.System.{System, Action, acceptor_turn, proposer_turn, initialize_paxos}
use cse.Text.{codes, str_nat}
use cse.Print.{log_line}
use cse.ClientFiles.{ServerFile, validate_client_file, same_counts, count_files}
use cse.ClientFiles.Loading.{IsCommandLine, count_entries}
use cse.ClientFiles.Replicas.{validate_client_file-run}
use cse.System.Agreement.{run-agreement}
use cse.System.Replicas.{run-prefix, run-replicated}
use cse.MainLoop.Replica.{replay}

-- Any order of message objects will do here.
abbrev above : Message → Message → Bool
above a b = true

abbrev lock_of : ℕ → Value
lock_of r = cmd (record { command_type = lock; resource_id = pos r })

abbrev request : ℕ → ℕ → Message
request name r = record {
  msg_type = client;
  proposal = absent;
  instance_num = absent;
  value = lock_of r;
  origin_id = nat name;
  client_id = nat name;
  r_proposal = minus_one;
}

-- A message about instance 0 and proposal `b`.
abbrev about : MessageType → ℕ → Value → ℕ → Num → Num → Message
about t b v from name r = record {
  msg_type = t;
  proposal = nat b;
  instance_num = nat 0;
  value = v;
  origin_id = nat from;
  client_id = name;
  r_proposal = r;
}

abbrev proposes : ℕ → Event → Action
proposes s e = proposer_turn s (record { event = e; alive = λ c. true; client_up = true })

abbrev gets : ℕ → Message → Action
gets s m = acceptor_turn s (record { msg = m; sends = true })

-- The round of server 0, for client 9.
abbrev decides : List Action
decides =
    proposes 0 connected
    ∷ proposes 0 (received (request 9 3))
    ∷ gets 0 (about prepare 0 (number absent) 0 (nat 9) minus_one)
    ∷ gets 1 (about prepare 0 (number absent) 0 (nat 9) minus_one)
    ∷ proposes 0 (got (about prepare_ack 0 (number (nat 9)) 0 minus_one minus_one))
    ∷ proposes 0 (got (about prepare_ack 0 (number (nat 9)) 1 minus_one minus_one))
    ∷ gets 0 (about accept 0 (lock_of 3) 0 (nat 9) minus_one)
    ∷ gets 1 (about accept 0 (lock_of 3) 0 (nat 9) minus_one)
    ∷ proposes 0 (got (about accept_ack 0 (lock_of 3) 0 (nat 9) minus_one))
    ∷ proposes 0 (got (about accept_ack 0 (lock_of 3) 1 (nat 9) minus_one))
    ∷ []

-- The round of server 1, for client 8.
abbrev learns : List Action
learns =
    proposes 1 connected
    ∷ proposes 1 (received (request 8 5))
    ∷ gets 1 (about prepare 1 (number absent) 1 (nat 8) minus_one)
    ∷ gets 2 (about prepare 1 (number absent) 1 (nat 8) minus_one)
    ∷ proposes 1 (got (about prepare_nack 1 (lock_of 3) 1 (nat 9) (nat 0)))
    ∷ proposes 1 (got (about prepare_ack 1 (number (nat 8)) 2 minus_one minus_one))
    ∷ gets 1 (about accept 1 (lock_of 3) 1 (nat 9) minus_one)
    ∷ gets 2 (about accept 1 (lock_of 3) 1 (nat 9) minus_one)
    ∷ proposes 1 (got (about accept_ack 1 (lock_of 3) 1 (nat 9) minus_one))
    ∷ proposes 1 (got (about accept_ack 1 (lock_of 3) 2 (nat 9) minus_one))
    ∷ []

abbrev start : System
start = initialize_paxos 3 (λ s. nat 0 ∷ nat 1 ∷ nat 2 ∷ []) (λ s. 0 ∷ 1 ∷ 2 ∷ [])

abbrev end_state : System
end_state = System.run above 3 start (decides ++ learns)

abbrev line : Line
line = record { instance_num = 0; command = lock_of 3; client_id = nat 9 }

first_log : (end_state.proposer 0).logfile ≡ line ∷ []
unfolding System.run cse.Proposer.is_proposer_type cse.Acceptor.is_acceptor_type cse.Message.seen
    cse.MainLoop.step initialize_paxos cse.MainLoop.initialize_proposer
    cse.Broadcast.send_to_acceptors cse.Acceptor.step cse.Acceptor.initialize_acceptor
    cse.Acceptor.lookup cse.Acceptor.response_proposer cse.Acceptor.insert
first_log = refl

second_log : (end_state.proposer 1).logfile ≡ line ∷ []
unfolding System.run cse.Proposer.is_proposer_type cse.Acceptor.is_acceptor_type cse.Message.seen
    cse.MainLoop.step initialize_paxos cse.MainLoop.initialize_proposer
    cse.Broadcast.send_to_acceptors cse.Acceptor.step cse.Acceptor.initialize_acceptor
    cse.Acceptor.lookup cse.Acceptor.response_proposer cse.Acceptor.insert
second_log = refl

run-agreement_example : (lock_of 3 ≡ lock_of 3) × (nat 9 ≡ nat 9)
run-agreement_example =
    run-agreement above 3 (λ s. nat 0 ∷ nat 1 ∷ nat 2 ∷ []) (λ s. 0 ∷ 1 ∷ 2 ∷ [])
      (decides ++ learns) 0 1 line line (subst (Memᴰ line) (sym first_log) (head refl))
      (subst (Memᴰ line) (sym second_log) (head refl)) refl

first_phase : (end_state.proposer 0).phase ≡ reading
unfolding System.run cse.Proposer.is_proposer_type cse.Acceptor.is_acceptor_type cse.Message.seen
    cse.MainLoop.step initialize_paxos cse.MainLoop.initialize_proposer
    cse.Broadcast.send_to_acceptors cse.Acceptor.step cse.Acceptor.initialize_acceptor
    cse.Acceptor.lookup cse.Acceptor.response_proposer cse.Acceptor.insert
first_phase = refl

second_phase : (end_state.proposer 1).phase ≡ proposing [] 0
unfolding System.run cse.Proposer.is_proposer_type cse.Acceptor.is_acceptor_type cse.Message.seen
    cse.MainLoop.step initialize_paxos cse.MainLoop.initialize_proposer
    cse.Broadcast.send_to_acceptors cse.Acceptor.step cse.Acceptor.initialize_acceptor
    cse.Acceptor.lookup cse.Acceptor.response_proposer cse.Acceptor.insert
second_phase = refl

shorter : length (end_state.proposer 0).logfile ≤ length (end_state.proposer 1).logfile
shorter = rw (first_log, second_log) (omega arith)

run-prefix_example :
    (rest : List Line) × ((end_state.proposer 1).logfile ≡ (end_state.proposer 0).logfile ++ rest)
run-prefix_example =
    run-prefix above 3 (λ s. nat 0 ∷ nat 1 ∷ nat 2 ∷ []) (λ s. 0 ∷ 1 ∷ 2 ∷ []) (decides ++ learns) 0
      1 shorter

run-replicated_example :
    (rest : List Line) × ((end_state.proposer 1).logfile ≡ (end_state.proposer 0).logfile ++ rest)
    × (replay rest (end_state.proposer 0).lock_set ≡ some (end_state.proposer 1).lock_set)
run-replicated_example =
    run-replicated above 3 (λ s. nat 0 ∷ nat 1 ∷ nat 2 ∷ []) (λ s. 0 ∷ 1 ∷ 2 ∷ [])
      (decides ++ learns) 0 1 (λ f e. ground (arith, sym first_phase ∙ e))
      (λ f e. ground (arith, sym second_phase ∙ e)) shorter

-- The logs of the two servers as files.
abbrev file_of : ℕ → ServerFile
file_of s = record { name = str_nat s; lines = map log_line (end_state.proposer s).logfile }

first_plain : All IsCommandLine (end_state.proposer 0).logfile
first_plain = subst (All IsCommandLine) (sym first_log) ((refl, tt), tt)

second_plain : All IsCommandLine (end_state.proposer 1).logfile
second_plain = subst (All IsCommandLine) (sym second_log) ((refl, tt), tt)

validate_client_file-run_example :
    (t : ℕ) × Memᴰ t (0 ∷ 1 ∷ [])
    × All
        (λ s. length (end_state.proposer s).logfile ≤ length (end_state.proposer t).logfile)
        (0 ∷ 1 ∷ [])
    × (validate_client_file
          (λ f. length f.lines)
          (((codes "lock 3" ++ 10 ∷ []) ∷ []) ∷ [])
          (map file_of (0 ∷ 1 ∷ []))
        ≡ same_counts
            (count_files (((codes "lock 3" ++ 10 ∷ []) ∷ []) ∷ []) [])
            (count_entries (end_state.proposer t).logfile []))
validate_client_file-run_example =
    validate_client_file-run above 3 (λ s. nat 0 ∷ nat 1 ∷ nat 2 ∷ []) (λ s. 0 ∷ 1 ∷ 2 ∷ [])
      (decides ++ learns) str_nat (λ f. length f.lines) (λ f. refl)
      ((codes "lock 3" ++ 10 ∷ []) ∷ []) [] 0 (1 ∷ []) (first_plain, (second_plain, tt))
