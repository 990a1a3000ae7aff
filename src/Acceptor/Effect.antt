-- ===== src/Acceptor/Effect.antt =====
-- A turn of the acceptor's loop as a relation: it is silent, or it sends one of four answers.
use cse.Prelude.{
  ◌≡◌, refl, sym, Option, some, none, List, [], ◌∷◌, leb, leb→le, ltb→lt, ◌≤◌, ◌<◌, Bool-cases, inl,
  inr,
}
use cse.Num.{absent, minus_one, rank, lt_num}
use cse.Message.{
  MessageType, prepare, prepare_ack, prepare_nack, accept, accept_ack, client, client_ack, exit,
  number, Message, seen,
}
use cse.Acceptor.{
  Entry, Acceptor, Reply, Delivery, Error, lookup, insert, after_send, reply_and_store,
  promise_reply, first_reply, accept_reply, accepted_entry, handle_prepare, handle_accept, dispatch,
  is_acceptor_type, receive, is_running, step,
}

-- The reply `r` to `m` and the new entry `e`, where the entry of the instance was `o`.
pub data Answer (a : Acceptor) (m : Message) : Option Entry → Message → Entry → Type 0 where
  first_promise :
      m.msg_type ≡ prepare
      → Answer a m none
          (first_reply a.server_id m)
          (record { prep = m.proposal; accp = minus_one; accv = number absent; cid = absent })
  later_promise :
      (h : Entry)
      → m.msg_type ≡ prepare
      → rank h.prep < rank m.proposal
      → Answer a m (some h) (promise_reply a.server_id m h) (record h { prep = m.proposal })
  first_accept :
      m.msg_type ≡ accept → Answer a m none (accept_reply a.server_id m) (accepted_entry m)
  later_accept :
      (h : Entry)
      → m.msg_type ≡ accept
      → rank h.prep ≤ rank m.proposal
      → Answer a m (some h) (accept_reply a.server_id m) (accepted_entry m)

pub data Effect (a : Acceptor) (d : Delivery) : Acceptor × List Reply → Type 0 where
  silent : (b : Acceptor) → b.history ≡ a.history → b.server_id ≡ a.server_id → Effect a d (b, [])
  answers :
      (b : Acceptor) (r : Message) (e : Entry)
      → b.history ≡ insert d.msg.instance_num e a.history
      → b.server_id ≡ a.server_id
      → Answer a d.msg (lookup d.msg.instance_num a.history) r e
      → Effect a d (b, (d.msg.origin_id, r) ∷ [])

-- The turn has its effect, also from a state with another message history.
module _ (a : Acceptor) (d : Delivery) (ms : List Message) where
  abbrev b : Acceptor
  b = record a { msg_history = ms }

  after_send-Effect :
      (r : Message) (e : Entry)
      → Answer a d.msg (lookup d.msg.instance_num a.history) r e
      → (o : Option Error) → Effect a d (after_send b d r e o)
  unfolding after_send
  after_send-Effect r e ans none = answers _ r e refl refl ans
  after_send-Effect r e ans (some err) = silent _ refl refl

  reply_and_store-Effect :
      (r : Message) (e : Entry)
      → Answer a d.msg (lookup d.msg.instance_num a.history) r e
      → Effect a d (reply_and_store b d r e)
  unfolding reply_and_store
  reply_and_store-Effect r e ans = after_send-Effect r e ans _

  handle_prepare-Effect :
      (o : Option Entry)
      → o ≡ lookup d.msg.instance_num a.history
      → d.msg.msg_type ≡ prepare
      → Effect a d (handle_prepare b d o)
  unfolding handle_prepare
  handle_prepare-Effect none e t = reply_and_store-Effect _ _ (rw (← e) (first_promise t))
  handle_prepare-Effect (some h) e t = elim (Bool-cases (lt_num h.prep d.msg.proposal)) [
    | inl higher ↦
        rw higher (reply_and_store-Effect _ _ (rw (← e) (later_promise h t (ltb→lt _ _ higher))))
    | inr lower ↦ rw lower (silent _ refl refl)
  ]

  handle_accept-Effect :
      (o : Option Entry)
      → o ≡ lookup d.msg.instance_num a.history
      → d.msg.msg_type ≡ accept
      → Effect a d (handle_accept b d o)
  unfolding handle_accept
  handle_accept-Effect none e t = reply_and_store-Effect _ _ (rw (← e) (first_accept t))
  handle_accept-Effect (some h) e t = elim (Bool-cases (leb (rank h.prep) (rank d.msg.proposal))) [
    | inl high ↦
        rw high (reply_and_store-Effect _ _ (rw (← e) (later_accept h t (leb→le _ _ high))))
    | inr lower ↦ rw lower (silent _ refl refl)
  ]

  dispatch-Effect : (t : MessageType) → t ≡ d.msg.msg_type → Effect a d (dispatch b d t)
  unfolding dispatch
  dispatch-Effect prepare e = handle_prepare-Effect _ refl (sym e)
  dispatch-Effect accept e = handle_accept-Effect _ refl (sym e)
  dispatch-Effect prepare_ack e = silent _ refl refl
  dispatch-Effect prepare_nack e = silent _ refl refl
  dispatch-Effect accept_ack e = silent _ refl refl
  dispatch-Effect client e = silent _ refl refl
  dispatch-Effect client_ack e = silent _ refl refl
  dispatch-Effect exit e = silent _ refl refl

receive-Effect : (a : Acceptor) (d : Delivery) → Effect a d (receive a d)
unfolding receive
receive-Effect a d = elim (Bool-cases (is_acceptor_type d.msg.msg_type)) [
  | inl t ↦ elim (Bool-cases (seen d.msg a.msg_history)) [
    | inl old ↦ rw (t, old) (silent a refl refl)
    | inr new ↦ rw (t, new) (dispatch-Effect a d (d.msg ∷ a.msg_history) d.msg.msg_type refl)
  ]
  | inr t ↦ rw t (dispatch-Effect a d a.msg_history d.msg.msg_type refl)
]

pub step-Effect : (a : Acceptor) (d : Delivery) → Effect a d (step a d)
unfolding step
step-Effect a d = elim (Bool-cases (is_running a.status)) [
  | inl up ↦ rw up (receive-Effect a d)
  | inr down ↦ rw down (silent a refl refl)
]
