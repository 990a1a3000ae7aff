-- ===== src/Acceptor/Duplicates.antt =====
-- Duplicated messages: the msg_history of initialize_acceptor in problemset2/src/server.py.
use cse.Prelude.{
  ◌≡◌, refl, sym, subst, true, false, Bool-cases, ◌⊎◌, inl, inr, Option, some, none, List, [], ◌∷◌,
  ◌++◌, arith,
}
use cse.Message.{
  MessageType, prepare, prepare_ack, prepare_nack, accept, accept_ack, client, client_ack, exit,
  Message, seen,
}
use cse.Message.Equality.{seen_self}
use cse.Acceptor.{
  Entry, Error, Acceptor, Delivery, after_send, reply_and_store, handle_prepare, handle_accept,
  dispatch, is_acceptor_type, receive, is_running, step, run,
}

-- Nothing but the top of the loop writes msg_history.
after_send-msg_history :
    (a : Acceptor) (d : Delivery) (r : Message) (e : Entry) (o : Option Error)
    → (after_send a d r e o).0.msg_history ≡ a.msg_history
unfolding after_send
after_send-msg_history a d r e none = refl
after_send-msg_history a d r e (some err) = refl

handle_prepare-msg_history :
    (a : Acceptor) (d : Delivery) (o : Option Entry)
    → (handle_prepare a d o).0.msg_history ≡ a.msg_history
unfolding handle_prepare reply_and_store
handle_prepare-msg_history a d none = after_send-msg_history a d _ _ _
handle_prepare-msg_history a d (some h) = ground arith

handle_accept-msg_history :
    (a : Acceptor) (d : Delivery) (o : Option Entry)
    → (handle_accept a d o).0.msg_history ≡ a.msg_history
unfolding handle_accept reply_and_store
handle_accept-msg_history a d none = after_send-msg_history a d _ _ _
handle_accept-msg_history a d (some h) = ground arith

dispatch-msg_history :
    (a : Acceptor) (d : Delivery) (t : MessageType) → (dispatch a d t).0.msg_history ≡ a.msg_history
unfolding dispatch
dispatch-msg_history a d prepare = handle_prepare-msg_history a d _
dispatch-msg_history a d accept = handle_accept-msg_history a d _
dispatch-msg_history a d prepare_ack = refl
dispatch-msg_history a d prepare_nack = refl
dispatch-msg_history a d accept_ack = refl
dispatch-msg_history a d client = refl
dispatch-msg_history a d client_ack = refl
dispatch-msg_history a d exit = refl

-- The process reads nothing more, or it would drop `m`.
abbrev Drops : Message → Acceptor → Type 0
Drops m a = (is_running a.status ≡ false) ⊎ (seen m a.msg_history ≡ true)

seen-later : (m x : Message) (hs : List Message) → seen m hs ≡ true → seen m (x ∷ hs) ≡ true
unfolding seen
seen-later m x hs h = ground arith

receive-keeps_seen :
    (m : Message) (a : Acceptor) (d : Delivery)
    → seen m a.msg_history ≡ true
    → seen m (receive a d).0.msg_history ≡ true
unfolding receive
receive-keeps_seen m a d h = elim (Bool-cases (is_acceptor_type d.msg.msg_type)) [
  | inl t ↦ elim (Bool-cases (seen d.msg a.msg_history)) [
    | inl old ↦ rw (t, old) h
    | inr new ↦
        rw (t, new, dispatch-msg_history _ d d.msg.msg_type) (seen-later m d.msg a.msg_history h)
  ]
  | inr t ↦ rw (t, dispatch-msg_history a d d.msg.msg_type) h
]

step-Drops : (m : Message) (a : Acceptor) (d : Delivery) → Drops m a → Drops m (step a d).0
unfolding step
step-Drops m a d (inl down) = rw down (inl down)
step-Drops m a d (inr old) = elim (Bool-cases (is_running a.status)) [
  | inl up ↦ rw up (inr (receive-keeps_seen m a d old))
  | inr down ↦ rw down (inl down)
]

-- A message of these types is dropped when it comes again.
step-Drops_self :
    (a : Acceptor) (d : Delivery)
    → is_acceptor_type d.msg.msg_type ≡ true
    → Drops d.msg (step a d).0
unfolding step receive
step-Drops_self a d t = elim (Bool-cases (is_running a.status)) [
  | inl up ↦ elim (Bool-cases (seen d.msg a.msg_history)) [
    | inl old ↦ rw (up, t, old) (inr old)
    | inr new ↦
        rw (up, t, new)
          (inr (rw (dispatch-msg_history _ d d.msg.msg_type) (seen_self d.msg a.msg_history)))
  ]
  | inr down ↦ rw down (inl down)
]

step-dropped :
    (a : Acceptor) (d : Delivery)
    → is_acceptor_type d.msg.msg_type ≡ true
    → Drops d.msg a
    → step a d ≡ (a, [])
unfolding step receive
step-dropped a d t (inl down) = rw down
step-dropped a d t (inr old) = ground arith

run-Drops : (m : Message) (ds : List Delivery) (a : Acceptor) → Drops m a → Drops m (run a ds).0
unfolding run
run-Drops m [] a h = h
run-Drops m (d ∷ ds) a h = run-Drops m ds (step a d).0 (step-Drops m a d h)

-- A later copy of a message that would be dropped changes nothing.
run-dropped :
    (ys zs : List Delivery) (a : Acceptor) (d : Delivery)
    → is_acceptor_type d.msg.msg_type ≡ true
    → Drops d.msg a
    → run a (ys ++ d ∷ zs) ≡ run a (ys ++ zs)
unfolding run
run-dropped [] zs a d t h = rw (step-dropped a d t h)
run-dropped (y ∷ ys) zs a d t h = rw (run-dropped ys zs (step a y).0 d t (step-Drops d.msg a y h))

-- The effect of the network's duplicates: a second copy of a PREPARE or an ACCEPT, anywhere later
-- in the queue, changes neither the final state of the acceptor nor its replies.
pub run-duplicate :
    (a : Acceptor) (xs ys zs : List Delivery) (d d' : Delivery)
    → is_acceptor_type d.msg.msg_type ≡ true
    → d'.msg ≡ d.msg
    → run a (xs ++ d ∷ (ys ++ d' ∷ zs)) ≡ run a (xs ++ d ∷ (ys ++ zs))
unfolding run
run-duplicate a [] ys zs d d' t e =
    let again = subst (λ m. Drops m (step a d).0) (sym e) (step-Drops_self a d t) in
    let kind = subst (λ m. is_acceptor_type m.msg_type ≡ true) (sym e) t in
    rw (run-dropped ys zs (step a d).0 d' kind again)
run-duplicate a (x ∷ xs) ys zs d d' t e = rw (run-duplicate (step a x).0 xs ys zs d d' t e)
