-- ===== src/Router/Rare.antt =====
-- The one dice of connection_process in problemset2/src/server.py, for the drop and for the duplicate.
use cse.Prelude.{◌≤◌, ◌≡◌, refl, ◌∙◌, ap, false, List, [], ◌∷◌, ltb, arith, Bool-cases, inl, inr}
use cse.Message.{
  MessageType, prepare, prepare_ack, prepare_nack, accept, accept_ack, client, client_ack, exit,
}
use cse.Router.{
  Queues, Rates, Connection, Arrival, push_to_acceptor_queue, push_to_proposer_queue, deliver,
  route, go_on, run,
}
use cse.Router.Duplication.{without_dups}

module _ (rates : Rates) (rare : rates.dup_rate ≤ rates.drop_rate) where
  deliver-without_dups :
      (push : Queues → Queues) (a : Arrival) (q : Queues)
      → deliver rates push a q ≡ deliver (without_dups rates) push a q
  unfolding deliver
  deliver-without_dups push a q = elim (Bool-cases (ltb a.dice rates.drop_rate)) [
    | inl dropped ↦ rw dropped refl
    | inr kept ↦
        let once : ltb a.dice rates.dup_rate ≡ false = ground (arith, rare) in
        let never : ltb a.dice 0 ≡ false = ground arith in rw (kept, once, never) refl
  ]

  route-without_dups :
      (t : MessageType) (a : Arrival) (q : Queues)
      → route rates t a q ≡ route (without_dups rates) t a q
  unfolding route
  route-without_dups prepare a q = deliver-without_dups (push_to_acceptor_queue a.msg) a q
  route-without_dups accept a q = deliver-without_dups (push_to_acceptor_queue a.msg) a q
  route-without_dups prepare_ack a q = deliver-without_dups (push_to_proposer_queue a.msg) a q
  route-without_dups prepare_nack a q = deliver-without_dups (push_to_proposer_queue a.msg) a q
  route-without_dups accept_ack a q = deliver-without_dups (push_to_proposer_queue a.msg) a q
  route-without_dups client a q = refl
  route-without_dups client_ack a q = refl
  route-without_dups exit a q = refl

  go_on-same :
      (r : Queues × Connection) (f g : Queues → Queues × Connection)
      → ((q : Queues) → f q ≡ g q)
      → go_on rates r f ≡ go_on (without_dups rates) r g
  unfolding go_on
  go_on-same (q, Connection.reading) f g h = h q
  go_on-same (q, Connection.closed) f g h = refl
  go_on-same (q, Connection.broken) f g h = refl

  -- With a dup_rate that is at most the drop_rate, a connection never duplicates a message: it leaves
  -- the same queues, and ends in the same way, as with dup_rate 0.
  pub run-without_dups :
      (arrivals : List Arrival) (q : Queues)
      → run rates arrivals q ≡ run (without_dups rates) arrivals q
  unfolding run
  run-without_dups [] q = refl
  run-without_dups (a ∷ arrivals) q =
      ap (λ r. go_on rates r (run rates arrivals)) (route-without_dups a.msg.msg_type a q)
      ∙ go_on-same (route (without_dups rates) a.msg.msg_type a q) (run rates arrivals)
          (run (without_dups rates) arrivals) (run-without_dups arrivals)
