-- ===== src/MainLoop/Gathering.antt =====
-- The reactions in PROPOSING are steps of the abstract relation.
use cse.Prelude.{
  ℕ, suc, ◌/◌, ◌≤◌, ◌≡◌, refl, sym, subst, Bool, true, List, [], ◌∷◌, arith, leb, leb→le,
  Bool-cases, inl, inr,
}
use cse.Num.{nat, eq_num, is_absent}
use cse.Message.{
  MessageType, prepare, prepare_ack, prepare_nack, accept, accept_ack, client, client_ack, exit,
  Message, seen,
}
use cse.Proposer.{
  crashed, value_error, proposing, accepting_next, Proposer, retry, learn, is_proposer_type, if_dup,
}
use cse.Rounds.{is_blocked, proposed, propose_loop, on_response, while_proposing}
use cse.MainLoop.Act.{
  IsWaiting, Frame, SameRequest, Remembers, same, new, Act, again, gather, promised, fail,
}

pub Frame-refl : (p : Proposer) → Frame p p 0
Frame-refl p = record {
  server_id = refl;
  group_size = refl;
  connections = refl;
  grown = omega arith;
  instance_num = refl;
  lock_set = refl;
  resolutions = refl;
  logfile = refl;
}

pub Frame-retry : (p q : Proposer) (k : ℕ) → Frame p q k → Frame p (retry q) (suc k)
unfolding retry
Frame-retry p q k f = record {
  server_id = f.server_id;
  group_size = f.group_size;
  connections = f.connections;
  grown = grind (arith, f.grown, f.group_size);
  instance_num = f.instance_num;
  lock_set = f.lock_set;
  resolutions = f.resolutions;
  logfile = f.logfile;
}

-- What if_dup makes of the message history.
pub if_dup-Remembers : (m : Message) (hs : List Message) → Remembers hs (if_dup m hs).1
unfolding if_dup
if_dup-Remembers m hs = elim (Bool-cases (is_proposer_type m.msg_type)) [
  | inl t ↦ elim (Bool-cases (seen m hs)) [
    | inl old ↦ rw (t, old) same
    | inr fresh ↦ rw (t, fresh) (new m fresh)
  ]
  | inr t ↦ rw t same
]

pub retry-Act :
    (p q : Proposer) (k : ℕ)
    → IsWaiting p.phase
    → Frame p q k
    → Remembers p.msg_history q.msg_history
    → Act p (retry q, [])
unfolding retry
retry-Act p q k w f h = again _ (suc k) w (omega arith) (unfold retry in Frame-retry p q k f) h refl

-- The state `q` of the process within a turn of a loop that began at `p`.
pub record Within (p q : Proposer) : Type 0 where
  pub frame : Frame p q 0
  pub request : SameRequest p q
  pub history : Remembers p.msg_history q.msg_history

-- A turn changes the message history, and at an EXIT the flags.
pub Within-update :
    (p : Proposer) (h : List Message) (d cd : Bool)
    → Remembers p.msg_history h
    → Within p (record p { msg_history = h; done = d; client_done = cd })
Within-update p h d cd r = record {
  frame = Frame-refl p;
  request = record {
    client_command = refl;
    orig_client_id = refl;
    learnt_command = refl;
    learnt_client = refl;
  };
  history = r;
}

module _ (above : Message → Message → Bool) where
  learn-Frame :
      (nacks : List Message) (p q : Proposer) → Frame p q 0 → Frame p (learn above nacks q) 0
  unfolding learn
  learn-Frame [] p q f = f
  learn-Frame (m ∷ ms) p q f = f

  msg_history-learn :
      (nacks : List Message) (q : Proposer) → (learn above nacks q).msg_history ≡ q.msg_history
  unfolding learn
  msg_history-learn [] q = refl
  msg_history-learn (m ∷ ms) q = refl

  module _ {p : Proposer} {nacks0 : List Message} {cnt0 : ℕ}
      (at : p.phase ≡ proposing nacks0 cnt0) where
    proposed-Act :
        (nacks : List Message) {q : Proposer} → Within p q → Act p (proposed above nacks q, [])
    unfolding proposed
    proposed-Act nacks {q} w =
        let f = learn-Frame nacks p q w.frame in
        let h = subst (Remembers p.msg_history) (sym (msg_history-learn nacks q)) w.history in
        elim (Bool-cases (is_blocked (learn above nacks q))) [
          | inl b ↦ rw b (retry-Act p (learn above nacks q) 0 (subst IsWaiting (sym at) tt) f h)
          | inr b ↦
              rw b (promised (record (learn above nacks q) { phase = accepting_next }) f h at refl)
        ]

    propose_loop-Act :
        (nacks : List Message) (cnt : ℕ) {q : Proposer}
        → Within p q
        → Act p (propose_loop above nacks cnt q, [])
    unfolding propose_loop
    propose_loop-Act nacks cnt {q} w = elim (Bool-cases (leb cnt (q.group_size / 2))) [
      | inl t ↦ rw t (
          gather (record q { phase = proposing nacks cnt }) w.frame w.request w.history at refl
            (subst (λ n. cnt ≤ n / 2) w.frame.group_size (leb→le cnt _ t)))
      | inr t ↦ rw t (proposed-Act nacks w)
    ]

    on_response-Act :
        (t : MessageType) (m : Message) (nacks : List Message) (cnt : ℕ) (h : List Message)
        → Remembers p.msg_history h
        → Act p (on_response above t m nacks cnt (record p { msg_history = h }), [])
    unfolding on_response
    on_response-Act prepare_ack m nacks cnt h r = propose_loop-Act _ _ (Within-update p h _ _ r)
    on_response-Act prepare_nack m nacks cnt h r = propose_loop-Act _ _ (Within-update p h _ _ r)
    on_response-Act accept_ack m nacks cnt h r = propose_loop-Act _ _ (Within-update p h _ _ r)
    on_response-Act exit m nacks cnt h r =
        retry-Act p (record p { msg_history = h; done = true; client_done = true }) 0
          (subst IsWaiting (sym at) tt) (Frame-refl p) r
    on_response-Act prepare m nacks cnt h r =
        fail (record p { msg_history = h; phase = crashed value_error }) value_error
          (subst IsWaiting (sym at) tt) (Frame-refl p) r refl
    on_response-Act accept m nacks cnt h r =
        fail (record p { msg_history = h; phase = crashed value_error }) value_error
          (subst IsWaiting (sym at) tt) (Frame-refl p) r refl
    on_response-Act client m nacks cnt h r =
        fail (record p { msg_history = h; phase = crashed value_error }) value_error
          (subst IsWaiting (sym at) tt) (Frame-refl p) r refl
    on_response-Act client_ack m nacks cnt h r =
        fail (record p { msg_history = h; phase = crashed value_error }) value_error
          (subst IsWaiting (sym at) tt) (Frame-refl p) r refl

    pub while_proposing-Act :
        (m : Message) (nacks : List Message) (cnt : ℕ)
        → Act p (while_proposing above m nacks cnt p, [])
    unfolding while_proposing
    while_proposing-Act m nacks cnt =
        let r = if_dup-Remembers m p.msg_history in
        elim (Bool-cases (is_absent m.client_id)) [
          | inl none ↦ rw none (retry-Act p p 0 (subst IsWaiting (sym at) tt) (Frame-refl p) same)
          | inr some ↦ elim (Bool-cases (if_dup m p.msg_history).0) [
            | inl dup ↦ rw (some, dup) (propose_loop-Act nacks cnt (Within-update p _ _ _ same))
            | inr fresh ↦ elim (Bool-cases (eq_num m.instance_num (nat p.instance_num))) [
              | inl here ↦ rw (some, fresh, here) (on_response-Act m.msg_type m nacks cnt _ r)
              | inr left ↦
                  rw (some, fresh, left) (propose_loop-Act nacks cnt (Within-update p _ _ _ r))
            ]
          ]
        ]
