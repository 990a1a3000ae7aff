-- ===== src/MainLoop/Constancy.antt =====
-- The request of a client stays open until its instance is decided: client_command and orig_client_id
-- of initialize_proposer in problemset2/src/server.py.
use cse.Prelude.{
  ℕ, ◌+◌, ◌/◌, ◌≤◌, ◌<◌, ◌≡◌, refl, subst, Bool, List, [], ◌∷◌, ◌⊎◌, inl, inr, arith, Bool-cases,
  leb,
}
use cse.Num.{Num, nat, eq_num, lt_num, is_absent}
use cse.Command.{Command}
use cse.Message.{
  MessageType, prepare, prepare_ack, prepare_nack, accept, accept_ack, client, client_ack, exit,
  Message,
}
use cse.Proposer.{
  Phase, listening, reading, ready, accepting_next, finished, proposing, accepting, crashed,
  Proposer, Input, Output, Event, connected, received, recv_failed, eof, got, timed_out, if_dup,
  retry, learn,
}
use cse.Rounds.{
  is_own, is_blocked, exiting, Executed, ran, failed, next_request, after_execute, conclude,
  accepted, accept_loop, on_accept_response, while_accepting, proposed, propose_loop, on_response,
  while_proposing,
}
use cse.MainLoop.{accept_timeout, react_accepting, react_proposing, react, step}
use cse.MainLoop.Act.{
  Act, stay, requeue, rest, fail, again, gather, promised, ignore, tally, unheard, decide,
  break_down,
}
use cse.MainLoop.Settling.{Sends, idle, dies, asks, offers, settle-Sends}
use cse.MainLoop.Reactions.{react-Act}
use cse.MainLoop.Induction.{Guarded}

-- The instance number never goes back.
Act-instance_num :
    {p : Proposer} {r : Proposer × List Output} → Act p r → p.instance_num ≤ r.0.instance_num
Act-instance_num stay = omega arith
Act-instance_num (requeue m) = omega arith
Act-instance_num (rest q i f s quiet) = omega (arith, f.instance_num)
Act-instance_num (fail q x w f r at) = omega (arith, f.instance_num)
Act-instance_num (again q k w k1 f r at) = omega (arith, f.instance_num)
Act-instance_num (gather q f s r at at' low) = omega (arith, f.instance_num)
Act-instance_num (promised q f r at at') = omega (arith, f.instance_num)
Act-instance_num (ignore q f s r at at') = omega (arith, f.instance_num)
Act-instance_num (tally q m f s c e at at' low) = omega (arith, f.instance_num)
Act-instance_num (unheard q m x f c e at many at') = omega (arith, f.instance_num)
Act-instance_num (decide q outs m locks d c at many ex locks' inst quiet told) = omega (arith, inst)
Act-instance_num (break_down q outs m x d c at many ex locks' inst at' told) = omega (arith, inst)

Sends-instance_num :
    {p : Proposer} {r : Proposer × List Output} → Sends p r → r.0.instance_num ≡ p.instance_num
Sends-instance_num (idle a b) = refl
Sends-instance_num (dies f at) = refl
Sends-instance_num (asks cs sent at) = refl
Sends-instance_num (offers cs sent at) = refl

-- A request is open, or the process has ended in the middle of one.
abbrev pub IsOpen : Phase → Type 0
IsOpen listening = ⊥
IsOpen reading = ⊥
IsOpen _ = Unit

module _ (i : ℕ) (c : Command) (o : Num) where
  -- The process is at instance `i` with the request `c` of the client `o`.
  abbrev Serves : Proposer → Type 0
  Serves p = (p.instance_num ≡ i) × (p.client_command ≡ c) × (p.orig_client_id ≡ o)

  -- If the process is still at instance `i`, the request is open there.
  abbrev pub Holds : Proposer → Type 0
  Holds p = (i < p.instance_num) ⊎ (IsOpen p.phase × Serves p)

  module _ (above : Message → Message → Bool) where
    proposed-Holds :
        (nacks : List Message) (p : Proposer) → Serves p → Holds (proposed above nacks p)
    unfolding proposed learn retry
    proposed-Holds [] p h = elim (Bool-cases (is_blocked p)) [
      | inl blocked ↦ rw blocked (inr (tt, h))
      | inr free ↦ rw free (inr (tt, h))
    ]
    proposed-Holds (m ∷ ms) p h = elim (Bool-cases (is_blocked (learn above (m ∷ ms) p))) [
      | inl blocked ↦ rw blocked (inr (tt, h))
      | inr free ↦ rw free (inr (tt, h))
    ]

    propose_loop-Holds :
        (nacks : List Message) (cnt : ℕ) (p : Proposer)
        → Serves p
        → Holds (propose_loop above nacks cnt p)
    unfolding propose_loop
    propose_loop-Holds nacks cnt p h = elim (Bool-cases (leb cnt (p.group_size / 2))) [
      | inl more ↦ rw more (inr (tt, h))
      | inr done ↦ rw done (proposed-Holds nacks p h)
    ]

    on_response-Holds :
        (t : MessageType) (m : Message) (nacks : List Message) (cnt : ℕ) (p : Proposer)
        → Serves p
        → Holds (on_response above t m nacks cnt p)
    unfolding on_response retry
    on_response-Holds prepare_ack m nacks cnt p h = propose_loop-Holds nacks _ p h
    on_response-Holds prepare_nack m nacks cnt p h = propose_loop-Holds _ _ p h
    on_response-Holds accept_ack m nacks cnt p h = propose_loop-Holds nacks cnt p h
    on_response-Holds exit m nacks cnt p h = inr (tt, h)
    on_response-Holds prepare m nacks cnt p h = inr (tt, h)
    on_response-Holds accept m nacks cnt p h = inr (tt, h)
    on_response-Holds client m nacks cnt p h = inr (tt, h)
    on_response-Holds client_ack m nacks cnt p h = inr (tt, h)

    while_proposing-Holds :
        (m : Message) (nacks : List Message) (cnt : ℕ) (p : Proposer)
        → Serves p
        → Holds (while_proposing above m nacks cnt p)
    unfolding while_proposing retry
    while_proposing-Holds m nacks cnt p h =
        let q = record p { msg_history = (if_dup m p.msg_history).1 } in
        elim (Bool-cases (is_absent m.client_id)) [
          | inl gone ↦ rw gone (inr (tt, h))
          | inr here ↦ elim (Bool-cases (if_dup m p.msg_history).0) [
            | inl dup ↦ rw (here, dup) (propose_loop-Holds nacks cnt p h)
            | inr fresh ↦ elim (Bool-cases (eq_num m.instance_num (nat p.instance_num))) [
              | inl mine ↦ rw (here, fresh, mine) (on_response-Holds m.msg_type m nacks cnt q h)
              | inr other ↦ rw (here, fresh, other) (propose_loop-Holds nacks cnt q h)
            ]
          ]
        ]

  after_execute-Holds :
      (r : Executed) (ph : Phase) (p : Proposer) → Serves p → Holds (after_execute r ph p)
  unfolding after_execute
  after_execute-Holds (failed f) ph p h = inr (tt, h)
  after_execute-Holds (ran locks) ph p h = inl (omega (arith, h.0))

  accepted-Holds : (m : Message) (up : Bool) (p : Proposer) → Serves p → Holds (accepted m up p).0
  unfolding accepted conclude
  accepted-Holds m up p h = elim (Bool-cases (is_own p)) [
    | inl own ↦ elim (Bool-cases (is_absent m.client_id)) [
      | inl gone ↦ rw (own, gone) (inr (tt, h))
      | inr here ↦ elim (Bool-cases up) [
        | inl up_now ↦ rw (own, here, up_now) (after_execute-Holds _ (next_request p).phase _ h)
        | inr down ↦ rw (own, here, down) (inr (tt, h))
      ]
    ]
    | inr other ↦ rw other (after_execute-Holds _ ready _ h)
  ]

  accept_loop-Holds :
      (m : Message) (up : Bool) (cnt : ℕ) (p : Proposer)
      → Serves p
      → Holds (accept_loop m up cnt p).0
  unfolding accept_loop
  accept_loop-Holds m up cnt p h = elim (Bool-cases (leb cnt (p.group_size / 2))) [
    | inl more ↦ rw more (inr (tt, h))
    | inr done ↦
        rw done (accepted-Holds m up (record p { proposer_num = p.proposer_num + p.group_size }) h)
  ]

  on_accept_response-Holds :
      (t : MessageType) (m : Message) (up : Bool) (cnt : ℕ) (p : Proposer)
      → Serves p
      → Holds (on_accept_response t m up cnt p).0
  unfolding on_accept_response
  on_accept_response-Holds accept_ack m up cnt p h = accept_loop-Holds m up _ p h
  on_accept_response-Holds prepare_ack m up cnt p h = accept_loop-Holds m up cnt p h
  on_accept_response-Holds prepare_nack m up cnt p h = accept_loop-Holds m up cnt p h
  on_accept_response-Holds exit m up cnt p h = accept_loop-Holds m up cnt (exiting p) h
  on_accept_response-Holds prepare m up cnt p h = inr (tt, h)
  on_accept_response-Holds accept m up cnt p h = inr (tt, h)
  on_accept_response-Holds client m up cnt p h = inr (tt, h)
  on_accept_response-Holds client_ack m up cnt p h = inr (tt, h)

  while_accepting-Holds :
      (m : Message) (up : Bool) (cnt : ℕ) (p : Proposer)
      → Serves p
      → Holds (while_accepting m up cnt p).0
  unfolding while_accepting
  while_accepting-Holds m up cnt p h =
      let q = record p { msg_history = (if_dup m p.msg_history).1 } in
      elim (Bool-cases (if_dup m p.msg_history).0) [
        | inl dup ↦ rw dup (accept_loop-Holds m up cnt p h)
        | inr fresh ↦ elim (Bool-cases (eq_num m.instance_num (nat p.instance_num))) [
          | inl mine ↦ rw (fresh, mine) (on_accept_response-Holds m.msg_type m up cnt q h)
          | inr other ↦ elim (Bool-cases (lt_num m.instance_num (nat p.instance_num))) [
            | inl low ↦ rw (fresh, other, low) (accept_loop-Holds m up cnt q h)
            | inr high ↦ rw (fresh, other, high) (inr (tt, h))
          ]
        ]
      ]

  react_accepting-Holds :
      (e : Event) (up : Bool) (cnt : ℕ) (p : Proposer)
      → IsOpen p.phase
      → Serves p
      → Holds (react_accepting e up cnt p).0
  unfolding react_accepting accept_timeout retry
  react_accepting-Holds (got m) up cnt p op h = while_accepting-Holds m up cnt p h
  react_accepting-Holds timed_out up cnt p op h = inr (tt, h)
  react_accepting-Holds connected up cnt p op h = inr (op, h)
  react_accepting-Holds (received m) up cnt p op h = inr (op, h)
  react_accepting-Holds recv_failed up cnt p op h = inr (op, h)
  react_accepting-Holds eof up cnt p op h = inr (op, h)

  module _ (above : Message → Message → Bool) where
    react_proposing-Holds :
        (e : Event) (nacks : List Message) (cnt : ℕ) (p : Proposer)
        → IsOpen p.phase
        → Serves p
        → Holds (react_proposing above e nacks cnt p)
    unfolding react_proposing retry
    react_proposing-Holds (got m) nacks cnt p op h = while_proposing-Holds above m nacks cnt p h
    react_proposing-Holds timed_out nacks cnt p op h = inr (tt, h)
    react_proposing-Holds connected nacks cnt p op h = inr (op, h)
    react_proposing-Holds (received m) nacks cnt p op h = inr (op, h)
    react_proposing-Holds recv_failed nacks cnt p op h = inr (op, h)
    react_proposing-Holds eof nacks cnt p op h = inr (op, h)

    react_at-Holds :
        (n : Input) (ph : Phase) (p : Proposer)
        → p.phase ≡ ph
        → IsOpen p.phase
        → Serves p
        → Holds (react above n ph p).0
    unfolding react
    react_at-Holds n listening p at op h = absurd (subst IsOpen at op)
    react_at-Holds n reading p at op h = absurd (subst IsOpen at op)
    react_at-Holds n (proposing nacks cnt) p at op h =
        react_proposing-Holds n.event nacks cnt p op h
    react_at-Holds n (accepting cnt) p at op h =
        react_accepting-Holds n.event n.client_up cnt p op h
    react_at-Holds n ready p at op h = inr (op, h)
    react_at-Holds n accepting_next p at op h = inr (op, h)
    react_at-Holds n finished p at op h = inr (op, h)
    react_at-Holds n (crashed f) p at op h = inr (op, h)

    Sends-Holds : {p : Proposer} {r : Proposer × List Output} → Sends p r → Holds p → Holds r.0
    Sends-Holds (idle a b) h = h
    Sends-Holds (dies f at) (inl h) = inl h
    Sends-Holds (dies f at) (inr h) = inr (tt, h.1)
    Sends-Holds (asks cs sent at) (inl h) = inl h
    Sends-Holds (asks cs sent at) (inr h) = inr (tt, h.1)
    Sends-Holds (offers cs sent at) (inl h) = inl h
    Sends-Holds (offers cs sent at) (inr h) = inr (tt, h.1)

    react-Holds :
        (p : Proposer) (n : Input) → Guarded p → Holds p → Holds (react above n p.phase p).0
    react-Holds p n g (inl h) = inl (omega (arith, h, Act-instance_num (react-Act above p n g)))
    react-Holds p n g (inr h) = react_at-Holds n p.phase p refl h.0 h.1

    pub step-Holds : (p : Proposer) (n : Input) → Guarded p → Holds p → Holds (step above p n).0
    unfolding step
    step-Holds p n g h =
        Sends-Holds (settle-Sends n.alive (react above n p.phase p).0) (react-Holds p n g h)
