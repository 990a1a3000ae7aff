-- ===== src/Router/Duplication.antt =====
-- The duplicates of connection_process do not reach the replies of initialize_acceptor (both of
-- problemset2/src/server.py).
use cse.Prelude.{
  ℕ, append-nil, append_assoc, map-append, ◌≡◌, refl, ◌∙◌, true, false, List, [], ◌∷◌, ◌++◌, map,
  Bool-cases, inl, inr, ltb, arith,
}
use cse.Message.{
  MessageType, prepare, prepare_ack, prepare_nack, accept, accept_ack, client, client_ack, exit,
  Message,
}
use cse.Acceptor
use cse.Acceptor.{Acceptor, Delivery, is_acceptor_type}
use cse.Acceptor.Duplicates.{run-duplicate}
use cse.Router.{
  Queues, Rates, Connection, reading, closed, broken, Arrival, push_to_acceptor_queue,
  push_to_proposer_queue, deliver, route, go_on, run,
}

-- The acceptor reads its queue, and its replies can be sent.
abbrev pub deliveries : List Message → List Delivery
deliveries = map (λ m. record { msg = m; sends = true })

-- The two queues have the same effect on an acceptor, whatever comes behind them.
SameEffect : List Message → List Message → Type 0
SameEffect xs ys =
    (a : Acceptor) (zs : List Delivery)
    → Acceptor.run a (deliveries xs ++ zs) ≡ Acceptor.run a (deliveries ys ++ zs)

push-SameEffect :
    (m : Message) (xs ys : List Message)
    → SameEffect xs ys
    → SameEffect (xs ++ m ∷ []) (ys ++ m ∷ [])
unfolding SameEffect
push-SameEffect m xs ys h a zs = simp (map-append, append_assoc) (h a _)

twice-SameEffect :
    (m : Message) (xs ys : List Message)
    → is_acceptor_type m.msg_type ≡ true
    → SameEffect xs ys
    → SameEffect ((xs ++ m ∷ []) ++ m ∷ []) (ys ++ m ∷ [])
unfolding SameEffect
twice-SameEffect m xs ys t h a zs =
    simp (map-append, append_assoc)
      (run-duplicate a (deliveries xs) [] zs (record { msg = m; sends = true })
          (record { msg = m; sends = true }) t refl
        ∙ h a _)

-- The outcomes for the two queues.
record Alike (r s : Queues × Connection) : Type 0 where
  connection : r.1 ≡ s.1
  acceptor : SameEffect r.0.acceptor s.0.acceptor

abbrev pub without_dups : Rates → Rates
without_dups rates = record rates { dup_rate = 0 }

never : (d : ℕ) → ltb d 0 ≡ false
never d = ground arith

module _ (rates : Rates) where
  deliver_acceptor-Alike :
      (arr : Arrival) (q s : Queues)
      → is_acceptor_type arr.msg.msg_type ≡ true
      → SameEffect q.acceptor s.acceptor
      → Alike
          (deliver rates (push_to_acceptor_queue arr.msg) arr q)
          (deliver (without_dups rates) (push_to_acceptor_queue arr.msg) arr s)
  unfolding deliver push_to_acceptor_queue
  deliver_acceptor-Alike arr q s t h = elim (Bool-cases (ltb arr.dice rates.drop_rate)) [
    | inl drop ↦ rw drop (record { connection = refl; acceptor = h })
    | inr keep ↦ elim (Bool-cases (ltb arr.dice rates.dup_rate)) [
      | inl dup ↦
          rw (keep, dup, never arr.dice)
            (record { connection = refl; acceptor = twice-SameEffect arr.msg _ _ t h })
      | inr single ↦
          rw (keep, single, never arr.dice)
            (record { connection = refl; acceptor = push-SameEffect arr.msg _ _ h })
    ]
  ]

  deliver_proposer-Alike :
      (arr : Arrival) (q s : Queues)
      → SameEffect q.acceptor s.acceptor
      → Alike
          (deliver rates (push_to_proposer_queue arr.msg) arr q)
          (deliver (without_dups rates) (push_to_proposer_queue arr.msg) arr s)
  unfolding deliver push_to_proposer_queue
  deliver_proposer-Alike arr q s h = elim (Bool-cases (ltb arr.dice rates.drop_rate)) [
    | inl drop ↦ rw drop (record { connection = refl; acceptor = h })
    | inr keep ↦ elim (Bool-cases (ltb arr.dice rates.dup_rate)) [
      | inl dup ↦ rw (keep, dup, never arr.dice) (record { connection = refl; acceptor = h })
      | inr single ↦ rw (keep, single, never arr.dice) (record { connection = refl; acceptor = h })
    ]
  ]

  route-Alike :
      (t : MessageType) (arr : Arrival) (q s : Queues)
      → arr.msg.msg_type ≡ t
      → SameEffect q.acceptor s.acceptor
      → Alike (route rates t arr q) (route (without_dups rates) t arr s)
  unfolding route is_acceptor_type
  route-Alike prepare_ack arr q s e h = deliver_proposer-Alike arr q s h
  route-Alike prepare_nack arr q s e h = deliver_proposer-Alike arr q s h
  route-Alike accept_ack arr q s e h = deliver_proposer-Alike arr q s h
  route-Alike client arr q s e h =
      unfold push_to_proposer_queue in (record { connection = refl; acceptor = h })
  route-Alike prepare arr q s e h = deliver_acceptor-Alike arr q s (rw e refl) h
  route-Alike accept arr q s e h = deliver_acceptor-Alike arr q s (rw e refl) h
  route-Alike client_ack arr q s e h = record { connection = refl; acceptor = h }
  route-Alike exit arr q s e h =
      unfold push_to_proposer_queue push_to_acceptor_queue in
      (record { connection = refl; acceptor = push-SameEffect arr.msg _ _ h })

  go_on-Alike :
      (r s : Queues × Connection)
      → Alike r s
      → (f g : Queues → Queues × Connection)
      → ((q t : Queues) → SameEffect q.acceptor t.acceptor → Alike (f q) (g t))
      → Alike (go_on rates r f) (go_on (without_dups rates) s g)
  unfolding go_on
  go_on-Alike (q, reading) (t, reading) h f g k = k q t h.acceptor
  go_on-Alike (q, closed) (t, closed) h f g k = h
  go_on-Alike (q, broken) (t, broken) h f g k = h
  go_on-Alike (q, reading) (t, closed) h f g k = cc (h.connection)
  go_on-Alike (q, reading) (t, broken) h f g k = cc (h.connection)
  go_on-Alike (q, closed) (t, reading) h f g k = cc (h.connection)
  go_on-Alike (q, closed) (t, broken) h f g k = cc (h.connection)
  go_on-Alike (q, broken) (t, reading) h f g k = cc (h.connection)
  go_on-Alike (q, broken) (t, closed) h f g k = cc (h.connection)

  run-Alike :
      (arrivals : List Arrival) (q s : Queues)
      → SameEffect q.acceptor s.acceptor
      → Alike (run rates arrivals q) (run (without_dups rates) arrivals s)
  unfolding run
  run-Alike [] q s h = record { connection = refl; acceptor = h }
  run-Alike (arr ∷ arrivals) q s h =
      go_on-Alike _ _ (route-Alike arr.msg.msg_type arr q s refl h) (run rates arrivals)
        (run (without_dups rates) arrivals) (run-Alike arrivals)

-- Whatever a connection receives, the duplicates of the simulated message errors change neither
-- the replies nor the final state of the acceptor that reads the queue, as long as its sends succeed,
-- nor what becomes of the connection: all three are the same with dup_rate 0.
pub run-duplicates :
    (rates : Rates) (arrivals : List Arrival) (q : Queues) (a : Acceptor)
    → (Acceptor.run a (deliveries (run rates arrivals q).0.acceptor)
        ≡ Acceptor.run a (deliveries (run (without_dups rates) arrivals q).0.acceptor))
      × ((run rates arrivals q).1 ≡ (run (without_dups rates) arrivals q).1)
unfolding SameEffect
run-duplicates rates arrivals q a =
    let alike = run-Alike rates arrivals q q (λ b zs. refl) in
    let same = alike.acceptor a [] in
    let replies = simp append-nil at same in (replies, alike.connection)
