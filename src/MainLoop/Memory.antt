-- ===== src/MainLoop/Memory.antt =====
-- What initialize_proposer of problemset2/src/server.py remembers: its message history grows by the
-- message that it reads, and by nothing else.
use cse.Prelude.{
  ◌⊎◌, ◌/◌, ℕ, ◌+◌, ◌≡◌, refl, sym, subst, Bool, true, List, [], ◌∷◌, ◌++◌, inl, inr, arith,
  Bool-cases, leb, ◌==◌,
}
use cse.Num.{nat, eq_num, lt_num, is_absent}
use cse.Message.{
  MessageType, prepare, prepare_ack, prepare_nack, accept, accept_ack, client, client_ack, exit,
  type_code, Value, number, cmd, Message, seen,
}
use cse.Proposer.{
  Phase, listening, reading, ready, accepting_next, finished, proposing, accepting, crashed,
  Proposer, Input, Event, connected, received, recv_failed, eof, got, timed_out, if_dup,
  is_proposer_type, retry, learn,
}
use cse.Rounds.{
  is_own, leave, exiting, Executed, ran, failed, next_request, after_execute, conclude, accepted,
  accept_loop, on_accept_response, while_accepting, proposed, propose_loop, on_response,
  while_proposing, open_request, start_request,
}
use cse.MainLoop.{
  while_listening, while_reading, accept_timeout, react_accepting, react_proposing, react, step,
}
use cse.MainLoop.Settling.{settle-Sends, Sends-history}

module _ (above : Message → Message → Bool) where
  proposed-history :
      (nacks : List Message) (p : Proposer) → (proposed above nacks p).msg_history ≡ p.msg_history
  unfolding proposed learn retry
  proposed-history [] p = ground arith
  proposed-history (m ∷ ms) p = ground arith

  propose_loop-history :
      (nacks : List Message) (cnt : ℕ) (p : Proposer)
      → (propose_loop above nacks cnt p).msg_history ≡ p.msg_history
  unfolding propose_loop
  propose_loop-history nacks cnt p = ground (arith, proposed-history nacks p)

  on_response-history :
      (t : MessageType) (m : Message) (nacks : List Message) (cnt : ℕ) (p : Proposer)
      → (on_response above t m nacks cnt p).msg_history ≡ p.msg_history
  unfolding on_response retry
  on_response-history prepare_ack m nacks cnt p = propose_loop-history nacks (cnt + 1) p
  on_response-history prepare_nack m nacks cnt p =
      propose_loop-history (nacks ++ m ∷ []) (cnt + 1) p
  on_response-history accept_ack m nacks cnt p = propose_loop-history nacks cnt p
  on_response-history exit m nacks cnt p = refl
  on_response-history prepare m nacks cnt p = refl
  on_response-history accept m nacks cnt p = refl
  on_response-history client m nacks cnt p = refl
  on_response-history client_ack m nacks cnt p = refl

after_execute-history :
    (r : Executed) (ph : Phase) (p : Proposer) → (after_execute r ph p).msg_history ≡ p.msg_history
unfolding after_execute
after_execute-history (ran locks) ph p = refl
after_execute-history (failed f) ph p = refl

accepted-history :
    (m : Message) (up : Bool) (p : Proposer) → (accepted m up p).0.msg_history ≡ p.msg_history
unfolding accepted conclude
accepted-history m up p = elim (Bool-cases (is_own p)) [
  | inl own ↦ elim (Bool-cases (is_absent m.client_id)) [
    | inl gone ↦ rw (own, gone) refl
    | inr here ↦ elim (Bool-cases up) [
      | inl up_now ↦ rw (own, here, up_now) (after_execute-history _ (next_request p).phase _)
      | inr down ↦ rw (own, here, down) refl
    ]
  ]
  | inr other ↦ rw other (after_execute-history _ ready _)
]

accept_loop-history :
    (m : Message) (up : Bool) (cnt : ℕ) (p : Proposer)
    → (accept_loop m up cnt p).0.msg_history ≡ p.msg_history
unfolding accept_loop
accept_loop-history m up cnt p = elim (Bool-cases (leb cnt (p.group_size / 2))) [
  | inl more ↦ rw more refl
  | inr done ↦
      rw done (accepted-history m up (record p { proposer_num = p.proposer_num + p.group_size }))
]

on_accept_response-history :
    (t : MessageType) (m : Message) (up : Bool) (cnt : ℕ) (p : Proposer)
    → (on_accept_response t m up cnt p).0.msg_history ≡ p.msg_history
unfolding on_accept_response
on_accept_response-history accept_ack m up cnt p = accept_loop-history m up _ p
on_accept_response-history prepare_ack m up cnt p = accept_loop-history m up cnt p
on_accept_response-history prepare_nack m up cnt p = accept_loop-history m up cnt p
on_accept_response-history exit m up cnt p = accept_loop-history m up cnt (exiting p)
on_accept_response-history prepare m up cnt p = refl
on_accept_response-history accept m up cnt p = refl
on_accept_response-history client m up cnt p = refl
on_accept_response-history client_ack m up cnt p = refl

-- The history afterwards: the old one, or with the message that was read.
abbrev pub Recalls : Event → List Message → List Message → Type 0
Recalls e old hs =
    (hs ≡ old)
    ⊎ ((m : Message) × (e ≡ got m) × (is_proposer_type m.msg_type ≡ true) × (hs ≡ m ∷ old))

if_dup-Recalls : (m : Message) (old : List Message) → Recalls (got m) old (if_dup m old).1
unfolding if_dup
if_dup-Recalls m old = elim (Bool-cases (is_proposer_type m.msg_type)) [
  | inl t ↦ elim (Bool-cases (seen m old)) [
    | inl dup ↦ rw (t, dup) (inl refl)
    | inr fresh ↦ let e : (if_dup m old).1 ≡ m ∷ old = rw (t, fresh) refl in inr (m, refl, t, e)
  ]
  | inr t ↦ rw t (inl refl)
]

Recalls-eq : (e : Event) (old hs ks : List Message) → ks ≡ hs → Recalls e old hs → Recalls e old ks
Recalls-eq e old hs ks same h = subst (Recalls e old) (sym same) h

while_proposing-Recalls :
    (above : Message → Message → Bool) (m : Message) (nacks : List Message) (cnt : ℕ) (p : Proposer)
    → Recalls (got m) p.msg_history (while_proposing above m nacks cnt p).msg_history
unfolding while_proposing retry
while_proposing-Recalls above m nacks cnt p =
    let h = (if_dup m p.msg_history).1 in
    let q = record p { msg_history = h } in
    let r = if_dup-Recalls m p.msg_history in
    elim (Bool-cases (is_absent m.client_id)) [
      | inl gone ↦ rw gone (inl refl)
      | inr here ↦ elim (Bool-cases (if_dup m p.msg_history).0) [
        | inl dup ↦ rw (here, dup) (inl (propose_loop-history above nacks cnt p))
        | inr fresh ↦ elim (Bool-cases (eq_num m.instance_num (nat p.instance_num))) [
          | inl mine ↦
              rw (here, fresh, mine)
                (Recalls-eq (got m) p.msg_history h _
                  (on_response-history above m.msg_type m nacks cnt q) r)
          | inr other ↦
              rw (here, fresh, other)
                (Recalls-eq (got m) p.msg_history h _ (propose_loop-history above nacks cnt q) r)
        ]
      ]
    ]

while_accepting-Recalls :
    (m : Message) (up : Bool) (cnt : ℕ) (p : Proposer)
    → Recalls (got m) p.msg_history (while_accepting m up cnt p).0.msg_history
unfolding while_accepting
while_accepting-Recalls m up cnt p =
    let h = (if_dup m p.msg_history).1 in
    let q = record p { msg_history = h } in
    let r = if_dup-Recalls m p.msg_history in
    elim (Bool-cases (if_dup m p.msg_history).0) [
      | inl dup ↦ rw dup (inl (accept_loop-history m up cnt p))
      | inr fresh ↦ elim (Bool-cases (eq_num m.instance_num (nat p.instance_num))) [
        | inl mine ↦
            rw (fresh, mine)
              (Recalls-eq (got m) p.msg_history h _
                (on_accept_response-history m.msg_type m up cnt q) r)
        | inr other ↦ elim (Bool-cases (lt_num m.instance_num (nat p.instance_num))) [
          | inl low ↦
              rw (fresh, other, low)
                (Recalls-eq (got m) p.msg_history h _ (accept_loop-history m up cnt q) r)
          | inr high ↦ rw (fresh, other, high) r
        ]
      ]
    ]

leave-history : (p : Proposer) → (leave p).msg_history ≡ p.msg_history
unfolding leave
leave-history p = refl

open_request-history :
    (v : Value) (m : Message) (p : Proposer) → (open_request v m p).msg_history ≡ p.msg_history
unfolding open_request
open_request-history (number n) m p = refl
open_request-history (cmd c) m p = elim (Bool-cases (type_code m.msg_type == type_code client)) [
  | inl good ↦ elim (Bool-cases (is_absent m.client_id)) [
    | inl gone ↦ rw (good, gone) refl
    | inr here ↦ rw (good, here) refl
  ]
  | inr bad ↦ rw bad refl
]

while_reading-history : (e : Event) (p : Proposer) → (while_reading e p).msg_history ≡ p.msg_history
unfolding while_reading start_request
while_reading-history (received m) p = open_request-history m.value m p
while_reading-history recv_failed p = leave-history p
while_reading-history eof p = leave-history (record p { client_done = true })
while_reading-history connected p = refl
while_reading-history (got m) p = refl
while_reading-history timed_out p = refl

while_listening-history :
    (e : Event) (p : Proposer) → (while_listening e p).0.msg_history ≡ p.msg_history
unfolding while_listening
while_listening-history (got m) p = elim (Bool-cases (type_code m.msg_type == type_code exit)) [
  | inl ends ↦ rw ends refl
  | inr other ↦ rw other refl
]
while_listening-history connected p = refl
while_listening-history (received m) p = refl
while_listening-history recv_failed p = refl
while_listening-history eof p = refl
while_listening-history timed_out p = refl

react_proposing-Recalls :
    (above : Message → Message → Bool) (e : Event) (nacks : List Message) (cnt : ℕ) (p : Proposer)
    → Recalls e p.msg_history (react_proposing above e nacks cnt p).msg_history
unfolding react_proposing retry
react_proposing-Recalls above (got m) nacks cnt p = while_proposing-Recalls above m nacks cnt p
react_proposing-Recalls above timed_out nacks cnt p = inl refl
react_proposing-Recalls above connected nacks cnt p = inl refl
react_proposing-Recalls above (received m) nacks cnt p = inl refl
react_proposing-Recalls above recv_failed nacks cnt p = inl refl
react_proposing-Recalls above eof nacks cnt p = inl refl

react_accepting-Recalls :
    (e : Event) (up : Bool) (cnt : ℕ) (p : Proposer)
    → Recalls e p.msg_history (react_accepting e up cnt p).0.msg_history
unfolding react_accepting accept_timeout retry
react_accepting-Recalls (got m) up cnt p = while_accepting-Recalls m up cnt p
react_accepting-Recalls timed_out up cnt p = inl refl
react_accepting-Recalls connected up cnt p = inl refl
react_accepting-Recalls (received m) up cnt p = inl refl
react_accepting-Recalls recv_failed up cnt p = inl refl
react_accepting-Recalls eof up cnt p = inl refl

react-Recalls :
    (above : Message → Message → Bool) (i : Input) (ph : Phase) (p : Proposer)
    → Recalls i.event p.msg_history (react above i ph p).0.msg_history
unfolding react
react-Recalls above i listening p = inl (while_listening-history i.event p)
react-Recalls above i reading p = inl (while_reading-history i.event p)
react-Recalls above i (proposing nacks cnt) p = react_proposing-Recalls above i.event nacks cnt p
react-Recalls above i (accepting cnt) p = react_accepting-Recalls i.event i.client_up cnt p
react-Recalls above i ready p = inl refl
react-Recalls above i accepting_next p = inl refl
react-Recalls above i finished p = inl refl
react-Recalls above i (crashed f) p = inl refl

-- A step adds at most the message that it reads to the history.
pub step-Recalls :
    (above : Message → Message → Bool) (p : Proposer) (i : Input)
    → Recalls i.event p.msg_history (step above p i).0.msg_history
unfolding step
step-Recalls above p i =
    Recalls-eq i.event p.msg_history _ _
      (Sends-history (settle-Sends i.alive (react above i p.phase p).0))
      (react-Recalls above i p.phase p)
