-- ===== src/Examples/Acceptors.antt =====
-- An acceptor of a group of three servers, as in problemset2/src/acceptor_test.py: two PREPAREs, an
-- ACCEPT with a duplicate, a third PREPARE, and an ACCEPT that comes too late.
use cse.Prelude.{arith, ℕ, ◌≡◌, refl, true, List, [], ◌∷◌, ◌++◌, none, map}
use cse.Num.{Num, absent, minus_one, nat}
use cse.Command.{lock, pos}
use cse.Message.{
  MessageType, prepare, accept, prepare_ack, prepare_nack, accept_ack, Value, number, cmd, Message,
  message,
}
use cse.Acceptor
use cse.Acceptor.{Acceptor, Delivery, lookup, run, initialize_acceptor}
use cse.Acceptor.Promise.{IsOrdered, run-IsOrdered}
use cse.Acceptor.View.{view, run-view}
use cse.Acceptor.Report.{Reports, initialize-Reports}
use cse.Acceptor.Duplicates.{run-duplicate}
use cse.Router
use cse.Router.Rare.{run-without_dups}
use cse.Router.Duplication.{deliveries, without_dups, run-duplicates}

abbrev lock_three : Value
lock_three = cmd (record { command_type = lock; resource_id = pos 3 })

abbrev prepare_from : ℕ → ℕ → Message
prepare_from server proposal = record {
  msg_type = prepare;
  proposal = nat proposal;
  instance_num = nat 0;
  value = number absent;
  origin_id = nat server;
  client_id = nat 9;
  r_proposal = minus_one;
}

abbrev accept_from : ℕ → ℕ → Message
accept_from server proposal = record {
  msg_type = accept;
  proposal = nat proposal;
  instance_num = nat 0;
  value = lock_three;
  origin_id = nat server;
  client_id = nat 9;
  r_proposal = minus_one;
}

abbrev sent : Message → Delivery
sent m = record { msg = m; sends = true }

abbrev acceptor : Acceptor
acceptor = initialize_acceptor 2 (nat 0 ∷ nat 1 ∷ [])

abbrev first : List Delivery
first = sent (prepare_from 0 0) ∷ sent (prepare_from 1 1) ∷ []

abbrev later : List Delivery
later = sent (prepare_from 0 3) ∷ sent (accept_from 1 1) ∷ []

abbrev traffic : List Delivery
traffic = first ++ sent (accept_from 1 1) ∷ later

-- The types of the replies, with their proposals.
abbrev summary : List (Num × Message) → List (MessageType × Num)
summary = map (λ r. (r.1.msg_type, r.1.proposal))

replies :
    summary (run acceptor traffic).1
    ≡ (prepare_ack, nat 0) ∷ (prepare_ack, nat 1) ∷ (accept_ack, nat 1) ∷ (prepare_nack, nat 3) ∷ []
unfolding run Acceptor.step initialize_acceptor cse.Message.seen lookup Acceptor.response_proposer
    Acceptor.insert
replies = refl

run-IsOrdered_example : IsOrdered (run acceptor traffic).1
run-IsOrdered_example = run-IsOrdered acceptor traffic

run-view_example :
    lookup (nat 0) (run acceptor traffic).0.history
    ≡ view (nat 0) (lookup (nat 0) acceptor.history) (run acceptor traffic).1
run-view_example = run-view (nat 0) acceptor traffic

initialize-Reports_example : Reports (λ i. none) (run acceptor traffic).1
initialize-Reports_example = initialize-Reports 2 (nat 0 ∷ nat 1 ∷ []) traffic (omega arith)

run-duplicate_example :
    run acceptor (first ++ sent (accept_from 1 1) ∷ (later ++ sent (accept_from 1 1) ∷ []))
    ≡ run acceptor (first ++ sent (accept_from 1 1) ∷ (later ++ []))
unfolding Acceptor.is_acceptor_type
run-duplicate_example =
    run-duplicate acceptor first later [] (sent (accept_from 1 1)) (sent (accept_from 1 1)) refl
      refl

-- The second message is duplicated, the third is dropped.
abbrev arrivals : List Router.Arrival
arrivals =
    record { msg = prepare_from 0 0; dice = 90; probe = true }
    ∷ record { msg = accept_from 0 0; dice = 30; probe = true }
    ∷ record { msg = prepare_from 1 1; dice = 5; probe = true }
    ∷ []

abbrev rates : Router.Rates
rates = record { drop_rate = 10; dup_rate = 40 }

abbrev no_messages : Router.Queues
no_messages = record { proposer = []; acceptor = [] }

routed :
    (Router.run rates arrivals no_messages).0.acceptor
    ≡ prepare_from 0 0 ∷ accept_from 0 0 ∷ accept_from 0 0 ∷ []
unfolding Router.run
routed = refl

run-duplicates_example :
    (run acceptor (deliveries (Router.run rates arrivals no_messages).0.acceptor)
      ≡ run acceptor (deliveries (Router.run (without_dups rates) arrivals no_messages).0.acceptor))
    × ((Router.run rates arrivals no_messages).1
        ≡ (Router.run (without_dups rates) arrivals no_messages).1)
run-duplicates_example = run-duplicates rates arrivals no_messages acceptor

abbrev equal_rates : Router.Rates
equal_rates = record { drop_rate = 40; dup_rate = 40 }

run-without_dups_example :
    Router.run equal_rates arrivals no_messages
    ≡ Router.run (without_dups equal_rates) arrivals no_messages
run-without_dups_example = run-without_dups equal_rates (omega arith) arrivals no_messages
