-- ===== src/MainLoop/Deciding.antt =====
-- The reactions in ACCEPTING are steps of the abstract relation.
use cse.Prelude.{
  ℕ, ◌+◌, ◌/◌, ◌≤◌, ◌<◌, ◌≡◌, refl, sym, subst, Bool, true, false, List, [], ◌∷◌, ◌++◌, arith, leb,
  leb→le, Bool-cases, inl, inr, if◌then◌else◌,
}
use cse.Num.{nat, eq_num, eq_num_iff, lt_num, is_absent}
use cse.Message.{
  MessageType, prepare, prepare_ack, prepare_nack, accept, accept_ack, client, client_ack, exit,
  Message, seen,
}
use cse.Proposer.{
  Phase, ready, accepting, crashed, Fault, assertion_error, socket_error, value_error, Proposer,
  Output, if_dup, is_proposer_type, resolve,
}
use cse.Rounds.{
  is_own, next_request, Executed, ran, failed, execute_value, after_execute, conclude,
  client_ack_message, accepted, accept_loop, on_accept_response, while_accepting,
}
use cse.MainLoop.Act.{
  IsWaiting, Remembers, same, new, IsResting, Counts, Decided, Told, unmentioned, acknowledged, Act,
  fail, ignore, tally, unheard, decide, break_down, line_of,
}
use cse.MainLoop.Gathering.{Frame-refl, if_dup-Remembers}

pub next_request-IsResting : (p : Proposer) → IsResting (next_request p).phase
unfolding next_request
next_request-IsResting p = ground arith

-- After a failed test of the loop the count is above half of the group.
over_half : (cnt n : ℕ) → leb cnt (n / 2) ≡ false → n / 2 < cnt
over_half cnt n h = ground arith

le→leb : (a b : ℕ) → a ≤ b → leb a b ≡ true
le→leb a b h = ground arith

-- A message of the proposer's types that is no duplicate is new, and is remembered.
pub if_dup-fresh :
    (m : Message) (hs : List Message)
    → (if_dup m hs).0 ≡ false
    → is_proposer_type m.msg_type ≡ true
    → (seen m hs ≡ false) × ((if_dup m hs).1 ≡ m ∷ hs)
unfolding if_dup
if_dup-fresh m hs h t = ground arith

-- The state after the message and the growth of the proposal number.
abbrev after : Proposer → Message → Proposer
after p m = record p {
  msg_history = m ∷ p.msg_history;
  proposer_num = p.proposer_num + p.group_size;
}

-- The state in which the command is executed.
abbrev logged : Proposer → Message → Proposer
logged p m = record (after p m) {
  instance_resolutions =
      resolve p.instance_num (p.learnt_command, m.client_id) p.instance_resolutions;
  logfile = p.logfile ++ line_of p ∷ [];
}

module _ {p : Proposer} {cnt : ℕ} (at : p.phase ≡ accepting cnt) (m : Message) where
  module _ (counts : Counts p m) (many : p.group_size / 2 < cnt + 1) where
    after_execute-Act :
        (r : Executed) (ph : Phase) (outs : List Output)
        → execute_value p.learnt_command p.lock_set ≡ r
        → IsResting ph
        → Told p m outs
        → Act p (after_execute r ph (logged p m), outs)
    unfolding after_execute
    after_execute-Act (ran locks) ph outs e quiet told =
        decide _ outs m locks decided counts at many e refl refl quiet told
      where
        decided : Decided p (after_execute (ran locks) ph (logged p m)) m
        decided = record {
          server_id = refl;
          group_size = refl;
          grown = refl;
          history = refl;
          logfile = refl;
          resolutions = refl;
        }
    after_execute-Act (failed f) ph outs e quiet told =
        break_down _ outs m f decided counts at many e refl refl refl told
      where
        decided : Decided p (after_execute (failed f) ph (logged p m)) m
        decided = record {
          server_id = refl;
          group_size = refl;
          grown = refl;
          history = refl;
          logfile = refl;
          resolutions = refl;
        }

    failing : (f : Fault) → Act p (record (after p m) { phase = crashed f }, [])
    failing f =
        unheard _ m f
          (record {
            server_id = refl;
            group_size = refl;
            connections = refl;
            grown = omega arith;
            instance_num = refl;
            lock_set = refl;
            resolutions = refl;
            logfile = refl;
          })
          counts refl at many refl

    accepted-Act : (up : Bool) → Act p (accepted m up (after p m))
    unfolding accepted conclude client_ack_message
    accepted-Act up = elim (Bool-cases (is_own p)) [
      | inl own ↦ elim (Bool-cases (is_absent m.client_id)) [
        | inl gone ↦ rw (own, gone) (failing assertion_error)
        | inr here ↦ elim (Bool-cases up) [
          | inl yes_up ↦
              rw (own, here, yes_up)
                (after_execute-Act _ _ _ refl (next_request-IsResting (after p m))
                  (acknowledged own))
          | inr down ↦ rw (own, here, down) (failing socket_error)
        ]
      ]
      | inr other ↦ rw other (after_execute-Act _ ready [] refl tt (unmentioned other))
    ]

  -- The loop after an ACCEPT_ACK that counts.
  counted-Act :
      Counts p m
      → (up : Bool)
      → Act p (accept_loop m up (cnt + 1) (record p { msg_history = m ∷ p.msg_history }))
  unfolding accept_loop
  counted-Act counts up = elim (Bool-cases (leb (cnt + 1) (p.group_size / 2))) [
    | inl more ↦ rw more (
        tally _ m (Frame-refl p)
          (record {
            client_command = refl;
            orig_client_id = refl;
            learnt_command = refl;
            learnt_client = refl;
          })
          counts refl at refl (leb→le _ _ more))
    | inr enough ↦ rw enough (accepted-Act counts (over_half _ _ enough) up)
  ]

  module _ (low : cnt ≤ p.group_size / 2) (up : Bool) where
    -- The loop after a message that does not count.
    ignored-Act :
        (h : List Message) (d cd : Bool)
        → Remembers p.msg_history h
        → Act p (accept_loop m up cnt (record p { msg_history = h; done = d; client_done = cd }))
    unfolding accept_loop
    ignored-Act h d cd r = rw (le→leb _ _ low) (
        ignore _ (Frame-refl p)
          (record {
            client_command = refl;
            orig_client_id = refl;
            learnt_command = refl;
            learnt_client = refl;
          })
          r at refl)

    -- An ACCEPT_ACK of this instance counts if it is of the current proposal.
    ack-Act :
        seen m p.msg_history ≡ false
        → m.msg_type ≡ accept_ack
        → eq_num m.instance_num (nat p.instance_num) ≡ true
        → Act p (
            accept_loop m up
              (if eq_num m.proposal (nat p.proposer_num) then cnt + 1 else cnt)
              (record p { msg_history = m ∷ p.msg_history }))
    ack-Act fresh t here = elim (Bool-cases (eq_num m.proposal (nat p.proposer_num))) [
      | inl mine ↦ rw mine (
          counted-Act
            (record {
              unseen = fresh;
              kind = t;
              about = (eq_num_iff _ _).0 here;
              proposal = (eq_num_iff _ _).0 mine;
            })
            up)
      | inr stale ↦ rw stale (ignored-Act _ p.done p.client_done (new m fresh))
    ]

    crash-Act :
        (f : Fault) (h : List Message)
        → Remembers p.msg_history h
        → Act p (record p { msg_history = h; phase = crashed f }, [])
    crash-Act f h r = fail _ f (subst IsWaiting (sym at) tt) (Frame-refl p) r refl

    on_accept_response-Act :
        (t : MessageType) (h : List Message)
        → m.msg_type ≡ t
        → Remembers p.msg_history h
        → ((is_proposer_type t ≡ true) → (seen m p.msg_history ≡ false) × (h ≡ m ∷ p.msg_history))
        → eq_num m.instance_num (nat p.instance_num) ≡ true
        → Act p (on_accept_response t m up cnt (record p { msg_history = h }))
    unfolding on_accept_response is_proposer_type
    on_accept_response-Act accept_ack h t r fresh here =
        let (unseen, e) = fresh refl in
        subst
          (λ h. Act p (
            accept_loop m up (if eq_num m.proposal (nat p.proposer_num) then cnt + 1 else cnt)
              (record p { msg_history = h })))
          (sym e) (ack-Act unseen t here)
    on_accept_response-Act prepare_ack h t r fresh here = ignored-Act h _ _ r
    on_accept_response-Act prepare_nack h t r fresh here = ignored-Act h _ _ r
    on_accept_response-Act exit h t r fresh here = ignored-Act h true true r
    on_accept_response-Act prepare h t r fresh here = crash-Act value_error h r
    on_accept_response-Act accept h t r fresh here = crash-Act value_error h r
    on_accept_response-Act client h t r fresh here = crash-Act value_error h r
    on_accept_response-Act client_ack h t r fresh here = crash-Act value_error h r

    pub while_accepting-Act : Act p (while_accepting m up cnt p)
    unfolding while_accepting
    while_accepting-Act =
        let r = if_dup-Remembers m p.msg_history in
        elim (Bool-cases (if_dup m p.msg_history).0) [
          | inl dup ↦ rw dup (ignored-Act _ _ _ same)
          | inr fresh ↦ elim (Bool-cases (eq_num m.instance_num (nat p.instance_num))) [
            | inl here ↦
                rw (fresh, here)
                  (on_accept_response-Act m.msg_type _ refl r (if_dup-fresh m p.msg_history fresh)
                    here)
            | inr left ↦ elim (Bool-cases (lt_num m.instance_num (nat p.instance_num))) [
              | inl old ↦ rw (fresh, left, old) (ignored-Act _ _ _ r)
              | inr ahead ↦ rw (fresh, left, ahead) (crash-Act assertion_error _ r)
            ]
          ]
        ]
