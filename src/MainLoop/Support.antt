-- ===== src/MainLoop/Support.antt =====
-- The invariant of Belief in every state of initialize_proposer of problemset2/src/server.py, through
-- a step of the main loop.
use cse.Prelude.{
  ℕ, ◌+◌, ◌/◌, ◌≡◌, refl, subst, Bool, true, List, inl, inr, arith, Bool-cases, leb, ◌==◌,
}
use cse.Num.{Num, nat, eq_num, lt_num, is_absent}
use cse.Message.{
  MessageType, prepare, prepare_ack, prepare_nack, accept, accept_ack, client, client_ack, exit,
  type_code, Value, number, cmd, Message,
}
use cse.Proposer.{
  Phase, listening, reading, ready, accepting_next, finished, proposing, accepting, crashed,
  Proposer, Input, Output, Event, connected, received, recv_failed, eof, got, timed_out, if_dup,
  retry,
}
use cse.Rounds.{
  is_own, leave, next_request, exiting, Executed, ran, failed, after_execute, conclude, accepted,
  accept_loop, on_accept_response, while_accepting, open_request, start_request,
}
use cse.MainLoop.{
  while_listening, while_reading, accept_timeout, react_accepting, react_proposing, react, step,
}
use cse.MainLoop.Act.{Remembers, IsResting}
use cse.MainLoop.Gathering.{if_dup-Remembers}
use cse.MainLoop.Deciding.{next_request-IsResting}
use cse.MainLoop.Settling.{Sends, idle, dies, asks, offers, settle-Sends}
use cse.MainLoop.Belief.{
  IsOwn, Backed, Backed-Knows, JustifiedAt, Justified, IsTrue, usables-Remembers,
  while_proposing-Justified,
}

module _ (Offer : ℕ → Value → Num → Type 0) where
  -- A message of the queue reports only offers.
  abbrev pub IsTrueEvent : Event → Type 0
  IsTrueEvent (got m) = IsTrue Offer m
  IsTrueEvent connected = Unit
  IsTrueEvent (received m) = Unit
  IsTrueEvent recv_failed = Unit
  IsTrueEvent eof = Unit
  IsTrueEvent timed_out = Unit

  resting-Justified : (ph : Phase) (p : Proposer) → IsResting ph → IsOwn p → JustifiedAt Offer ph p
  resting-Justified ready p h own = inl own
  resting-Justified listening p h own = tt
  resting-Justified reading p h own = tt
  resting-Justified finished p h own = tt
  resting-Justified (crashed f) p h own = tt
  resting-Justified accepting_next p h own = absurd h
  resting-Justified (proposing nacks cnt) p h own = absurd h
  resting-Justified (accepting cnt) p h own = absurd h

  after_execute-Justified :
      (r : Executed) (ph : Phase) (p : Proposer)
      → IsResting ph
      → Justified Offer (after_execute r ph p)
  unfolding after_execute
  after_execute-Justified (failed f) ph p quiet = tt
  after_execute-Justified (ran locks) ph p quiet = resting-Justified ph _ quiet (refl, refl)

  accepted-Justified :
      (m : Message) (up : Bool) (p : Proposer) → Justified Offer (accepted m up p).0
  unfolding accepted conclude
  accepted-Justified m up p = elim (Bool-cases (is_own p)) [
    | inl own ↦ elim (Bool-cases (is_absent m.client_id)) [
      | inl gone ↦ rw (own, gone) tt
      | inr here ↦ elim (Bool-cases up) [
        | inl up_now ↦
            rw (own, here, up_now)
              (after_execute-Justified _ (next_request p).phase _ (next_request-IsResting p))
        | inr down ↦ rw (own, here, down) tt
      ]
    ]
    | inr other ↦ rw other (after_execute-Justified _ ready _ tt)
  ]

  accept_loop-Justified :
      (m : Message) (up : Bool) (cnt : ℕ) (p : Proposer)
      → Backed Offer p
      → Justified Offer (accept_loop m up cnt p).0
  unfolding accept_loop
  accept_loop-Justified m up cnt p b = elim (Bool-cases (leb cnt (p.group_size / 2))) [
    | inl more ↦ rw more b
    | inr done ↦
        rw done
          (accepted-Justified m up (record p { proposer_num = p.proposer_num + p.group_size }))
  ]

  on_accept_response-Justified :
      (t : MessageType) (m : Message) (up : Bool) (cnt : ℕ) (p : Proposer)
      → Backed Offer p
      → Justified Offer (on_accept_response t m up cnt p).0
  unfolding on_accept_response
  on_accept_response-Justified accept_ack m up cnt p b = accept_loop-Justified m up _ p b
  on_accept_response-Justified prepare_ack m up cnt p b = accept_loop-Justified m up cnt p b
  on_accept_response-Justified prepare_nack m up cnt p b = accept_loop-Justified m up cnt p b
  on_accept_response-Justified exit m up cnt p b = accept_loop-Justified m up cnt (exiting p) b
  on_accept_response-Justified prepare m up cnt p b = tt
  on_accept_response-Justified accept m up cnt p b = tt
  on_accept_response-Justified client m up cnt p b = tt
  on_accept_response-Justified client_ack m up cnt p b = tt

  -- More messages in the history do not hurt.
  Backed-history :
      (p : Proposer) (hs : List Message)
      → Remembers p.msg_history hs
      → Backed Offer p
      → Backed Offer (record p { msg_history = hs })
  Backed-history p hs r (inl h) = inl (h.0, omega (arith, h.1, usables-Remembers p.instance_num r))
  Backed-history p hs r (inr h) = inr h

  while_accepting-Justified :
      (m : Message) (up : Bool) (cnt : ℕ) (p : Proposer)
      → Backed Offer p
      → Justified Offer (while_accepting m up cnt p).0
  unfolding while_accepting
  while_accepting-Justified m up cnt p b =
      let q = record p { msg_history = (if_dup m p.msg_history).1 } in
      let c = Backed-history p (if_dup m p.msg_history).1 (if_dup-Remembers m p.msg_history) b in
      elim (Bool-cases (if_dup m p.msg_history).0) [
        | inl dup ↦ rw dup (accept_loop-Justified m up cnt p b)
        | inr fresh ↦ elim (Bool-cases (eq_num m.instance_num (nat p.instance_num))) [
          | inl mine ↦ rw (fresh, mine) (on_accept_response-Justified m.msg_type m up cnt q c)
          | inr other ↦ elim (Bool-cases (lt_num m.instance_num (nat p.instance_num))) [
            | inl low ↦ rw (fresh, other, low) (accept_loop-Justified m up cnt q c)
            | inr high ↦ rw (fresh, other, high) tt
          ]
        ]
      ]

  leave-Justified : (p : Proposer) → Justified Offer (leave p)
  unfolding leave
  leave-Justified p = elim (Bool-cases p.done) [ inl over ↦ rw over tt | inr on ↦ rw on tt ]

  open_request-Justified :
      (v : Value) (m : Message) (p : Proposer) → Justified Offer (open_request v m p)
  unfolding open_request
  open_request-Justified (number n) m p = tt
  open_request-Justified (cmd c) m p =
      elim (Bool-cases (type_code m.msg_type == type_code client)) [
        | inl good ↦ elim (Bool-cases (is_absent m.client_id)) [
          | inl gone ↦ rw (good, gone) tt
          | inr here ↦ rw (good, here) (inl (refl, refl))
        ]
        | inr bad ↦ rw bad tt
      ]

  while_reading-Justified :
      (e : Event) (p : Proposer) → Justified Offer p → Justified Offer (while_reading e p)
  unfolding while_reading start_request
  while_reading-Justified (received m) p j = open_request-Justified m.value m p
  while_reading-Justified recv_failed p j = leave-Justified p
  while_reading-Justified eof p j = leave-Justified (record p { client_done = true })
  while_reading-Justified connected p j = j
  while_reading-Justified (got m) p j = j
  while_reading-Justified timed_out p j = j

  while_listening-Justified :
      (e : Event) (p : Proposer) → Justified Offer p → Justified Offer (while_listening e p).0
  unfolding while_listening
  while_listening-Justified connected p j = tt
  while_listening-Justified (got m) p j =
      elim (Bool-cases (type_code m.msg_type == type_code exit)) [
        | inl ends ↦ rw ends tt
        | inr other ↦ rw other j
      ]
  while_listening-Justified (received m) p j = j
  while_listening-Justified recv_failed p j = j
  while_listening-Justified eof p j = j
  while_listening-Justified timed_out p j = j

  react_accepting-Justified :
      (e : Event) (up : Bool) (cnt : ℕ) (p : Proposer)
      → Backed Offer p
      → Justified Offer p
      → Justified Offer (react_accepting e up cnt p).0
  unfolding react_accepting accept_timeout retry
  react_accepting-Justified (got m) up cnt p b j = while_accepting-Justified m up cnt p b
  react_accepting-Justified timed_out up cnt p b j = Backed-Knows Offer p b
  react_accepting-Justified connected up cnt p b j = j
  react_accepting-Justified (received m) up cnt p b j = j
  react_accepting-Justified recv_failed up cnt p b j = j
  react_accepting-Justified eof up cnt p b j = j

  module _ (above : Message → Message → Bool) where
    react_proposing-Justified :
        (e : Event) (nacks : List Message) (cnt : ℕ) (p : Proposer)
        → IsTrueEvent e
        → JustifiedAt Offer (proposing nacks cnt) p
        → Justified Offer p
        → Justified Offer (react_proposing above e nacks cnt p)
    unfolding react_proposing retry
    react_proposing-Justified (got m) nacks cnt p t h j =
        while_proposing-Justified Offer above m nacks cnt p t h.0 h.1 h.2
    react_proposing-Justified timed_out nacks cnt p t h j = h.0
    react_proposing-Justified connected nacks cnt p t h j = j
    react_proposing-Justified (received m) nacks cnt p t h j = j
    react_proposing-Justified recv_failed nacks cnt p t h j = j
    react_proposing-Justified eof nacks cnt p t h j = j

    pub react_at-Justified :
        (i : Input) (ph : Phase) (p : Proposer)
        → p.phase ≡ ph
        → IsTrueEvent i.event
        → Justified Offer p
        → Justified Offer (react above i ph p).0
    unfolding react
    react_at-Justified i listening p at t j = while_listening-Justified i.event p j
    react_at-Justified i reading p at t j = while_reading-Justified i.event p j
    react_at-Justified i (proposing nacks cnt) p at t j =
        react_proposing-Justified i.event nacks cnt p t (subst (λ ph. JustifiedAt Offer ph p) at j)
          j
    react_at-Justified i (accepting cnt) p at t j =
        react_accepting-Justified i.event i.client_up cnt p
          (subst (λ ph. JustifiedAt Offer ph p) at j) j
    react_at-Justified i ready p at t j = j
    react_at-Justified i accepting_next p at t j = j
    react_at-Justified i finished p at t j = j
    react_at-Justified i (crashed f) p at t j = j

    Sends-Justified :
        {p : Proposer} {r : Proposer × List Output}
        → Sends p r
        → Justified Offer p
        → Justified Offer r.0
    Sends-Justified (idle a b) j = j
    Sends-Justified (dies f at) j = tt
    Sends-Justified {p} (asks cs sent at) j =
        (subst (λ ph. JustifiedAt Offer ph p) at j, tt, omega arith)
    Sends-Justified {p} (offers cs sent at) j = subst (λ ph. JustifiedAt Offer ph p) at j

    -- A step keeps the invariant, if the message that it reads is true.
    pub step-Justified :
        (p : Proposer) (i : Input)
        → IsTrueEvent i.event
        → Justified Offer p
        → Justified Offer (step above p i).0
    unfolding step
    step-Justified p i t j =
        Sends-Justified (settle-Sends i.alive (react above i p.phase p).0)
          (react_at-Justified i p.phase p refl t j)
