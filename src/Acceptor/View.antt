-- ===== src/Acceptor/View.antt =====
-- What an acceptor has told the proposers determines what it remembers: initialize_acceptor of
-- problemset2/src/server.py against an abstract acceptor that reads the replies.
use cse.Prelude.{
  ◌≡◌, refl, sym, subst, true, false, Bool-cases, inl, inr, Option, some, none, List, [], ◌∷◌, ◌++◌,
  arith, if◌then◌else◌,
}
use cse.Num.{Num, absent, minus_one, eq_num, eq_num_iff}
use cse.Message.{MessageType, prepare_ack, prepare_nack, accept_ack, number, Message, message}
use cse.Acceptor.{
  Entry, Acceptor, Reply, Delivery, lookup, promise_reply, first_reply, accept_reply,
  accepted_entry, step, run,
}
use cse.Acceptor.Table.{lookup-insert}
use cse.Acceptor.Effect.{
  Answer, first_promise, later_promise, first_accept, later_accept, Effect, silent, answers,
  step-Effect,
}

-- The entry of an instance after a promise of `p`.
abbrev pub promise : Num → Option Entry → Entry
promise p none = record { prep = p; accp = minus_one; accv = number absent; cid = absent }
promise p (some h) = record h { prep = p }

-- The entry of an instance after a reply about it.
abbrev pub after_reply : MessageType → Message → Option Entry → Option Entry
after_reply prepare_ack r o = some (promise r.proposal o)
after_reply prepare_nack r o = some (promise r.proposal o)
after_reply accept_ack r o =
    some (record { prep = r.proposal; accp = r.proposal; accv = r.value; cid = r.client_id })
after_reply _ r o = o

-- The abstract acceptor of instance `i`: it reads the replies that were sent.
abbrev pub view : Num → Option Entry → List Reply → Option Entry
view i o [] = o
view i o ((to, r) ∷ outs) =
    view i (if eq_num r.instance_num i then after_reply r.msg_type r o else o) outs

pub view-append :
    (i : Num) (xs ys : List Reply) (o : Option Entry)
    → view i o (xs ++ ys) ≡ view i (view i o xs) ys
view-append i [] ys o = refl
view-append i ((to, r) ∷ xs) ys o = view-append i xs ys _

-- An answer is about the instance of the message, and tells the new entry.
Answer-view :
    {a : Acceptor} {m r : Message} {o : Option Entry} {e : Entry}
    → Answer a m o r e
    → (r.instance_num ≡ m.instance_num) × (after_reply r.msg_type r o ≡ some e)
unfolding promise_reply first_reply accept_reply accepted_entry message
Answer-view (first_promise t) = (refl, refl)
Answer-view (later_promise h t lt) = (refl, ground arith)
Answer-view (first_accept t) = (refl, refl)
Answer-view (later_accept h t le) = (refl, refl)

Effect-view :
    (i : Num) {a : Acceptor} {d : Delivery} {r : Acceptor × List Reply}
    → Effect a d r
    → lookup i r.0.history ≡ view i (lookup i a.history) r.1
Effect-view i (silent b same _) = rw same refl
Effect-view i {a} {d} (answers b r e new _ ans) =
    let (about, told) = Answer-view ans in
    elim (Bool-cases (eq_num r.instance_num i)) [
      | inl t ↦
          let here = subst (λ x. eq_num x i ≡ true) about t in
          let same = (eq_num_iff d.msg.instance_num i).0 here in
          rw (new, lookup-insert i d.msg.instance_num e a.history, here, t, ← same) (sym told)
      | inr t ↦
          let other = subst (λ x. eq_num x i ≡ false) about t in
          rw (new, lookup-insert i d.msg.instance_num e a.history, other, t) refl
    ]

-- After any deliveries the entry of an instance is what the abstract acceptor makes of the entry
-- before and of the replies that were sent since, also if the process has crashed or stopped.
pub run-view :
    (i : Num) (a : Acceptor) (ds : List Delivery)
    → lookup i (run a ds).0.history ≡ view i (lookup i a.history) (run a ds).1
unfolding run
run-view i a [] = refl
run-view i a (d ∷ ds) =
    rw (view-append i (step a d).1, ← Effect-view i (step-Effect a d)) (run-view i (step a d).0 ds)
