-- ===== src/Acceptor/Report.antt =====
-- What a promise reports of earlier acceptances: the answers to a PREPARE in initialize_acceptor of
-- problemset2/src/server.py.
use cse.Prelude.{
  ℕ, ◌≤◌, ◌≡◌, refl, sym, subst, false, Bool-cases, inl, inr, Option, some, none, List, [], ◌∷◌,
  ◌++◌, arith, All, if◌then◌else◌,
}
use cse.Num.{Num, minus_one, rank, eq_num, eq_num_iff}
use cse.Message.{MessageType, prepare_ack, prepare_nack, accept_ack, Value, Message, message}
use cse.Acceptor.{
  Entry, Acceptor, Reply, Delivery, lookup, promise_reply, first_reply, accept_reply,
  accepted_entry, step, run, initialize_acceptor,
}
use cse.Acceptor.Table.{lookup-insert}
use cse.Acceptor.Effect.{
  Answer, first_promise, later_promise, first_accept, later_accept, Effect, silent, answers,
  step-Effect,
}

-- An accepted proposal: its number, its value and the client.
pub record Accepted : Type 0 where
  pub number : Num
  pub value : Value
  pub client : Num

-- For each instance, the proposal that was accepted last.
abbrev pub Memory : Type 0
Memory = Num → Option Accepted

abbrev pub note : MessageType → Message → Memory → Memory
note accept_ack r mem i =
    if eq_num r.instance_num i
    then some (record { number = r.proposal; value = r.value; client = r.client_id })
    else mem i
note _ r mem i = mem i

-- A PREPARE_NACK carries the last acceptance; a PREPARE_ACK says that there was none.
abbrev pub Tells : MessageType → Message → Memory → Type 0
Tells prepare_nack r mem =
    mem r.instance_num
    ≡ some (record { number = r.r_proposal; value = r.value; client = r.client_id })
Tells prepare_ack r mem = mem r.instance_num ≡ none
Tells _ r mem = Unit

abbrev pub Reports : Memory → List Reply → Type 0
Reports mem [] = Unit
Reports mem ((to, r) ∷ outs) = Tells r.msg_type r mem × Reports (note r.msg_type r mem) outs

-- The proposal number of the message is a number, neither None nor -1.
abbrev pub IsNumbered : Delivery → Type 0
IsNumbered d = 2 ≤ rank d.msg.proposal

-- What an entry says to have been accepted.
abbrev recorded : Option Entry → Option Accepted
recorded none = none
recorded (some h) =
    if eq_num h.accp minus_one
    then none
    else some (record { number = h.accp; value = h.accv; client = h.cid })

Answer-Tells :
    {a : Acceptor} {m r : Message} {o : Option Entry} {e : Entry} (mem : Memory)
    → Answer a m o r e
    → recorded o ≡ mem m.instance_num
    → Tells r.msg_type r mem
unfolding promise_reply first_reply accept_reply accepted_entry message
Answer-Tells mem (first_promise t) h = sym h
Answer-Tells mem (later_promise e t lt) h = elim (Bool-cases (eq_num e.accp minus_one)) [
  | inl fresh ↦ rw fresh (sym (rw fresh at h))
  | inr old ↦ rw old (sym (rw old at h))
]
Answer-Tells mem (first_accept t) h = tt
Answer-Tells mem (later_accept e t le) h = tt

-- The new entry says what the memory says after the reply.
Answer-notes :
    {a : Acceptor} {m r : Message} {o : Option Entry} {e : Entry} (mem : Memory)
    → Answer a m o r e
    → 2 ≤ rank m.proposal
    → recorded o ≡ mem m.instance_num
    → (r.instance_num ≡ m.instance_num) × (recorded (some e) ≡ note r.msg_type r mem m.instance_num)
unfolding promise_reply first_reply accept_reply accepted_entry message
Answer-notes mem (first_promise t) n h = (refl, h)
Answer-notes mem (later_promise e t lt) n h = elim (Bool-cases (eq_num e.accp minus_one)) [
  | inl fresh ↦ rw fresh (refl, rw fresh at h)
  | inr old ↦ rw old (refl, rw old at h)
]
Answer-notes mem (first_accept t) n h = (refl, ground arith)
Answer-notes mem (later_accept e t le) n h = (refl, ground arith)

-- The memory is what the entries say.
abbrev IsMemory : Memory → Acceptor → Type 0
IsMemory mem a = (i : Num) → recorded (lookup i a.history) ≡ mem i

-- A note of a reply is about its own instance only.
note_other :
    (t : MessageType) (r : Message) (mem : Memory) (i : Num)
    → eq_num r.instance_num i ≡ false
    → note t r mem i ≡ mem i
note_other accept_ack r mem i h = rw h
note_other _ r mem i h = refl

abbrev noted : Memory → List Reply → Memory
noted mem [] = mem
noted mem ((to, r) ∷ outs) = noted (note r.msg_type r mem) outs

Reports-append :
    (xs ys : List Reply) (mem : Memory)
    → Reports mem xs
    → Reports (noted mem xs) ys
    → Reports mem (xs ++ ys)
Reports-append [] ys mem hx hy = hy
Reports-append ((to, r) ∷ xs) ys mem hx hy = (hx.0, Reports-append xs ys _ hx.1 hy)

Effect-Reports :
    {a : Acceptor} {d : Delivery} {r : Acceptor × List Reply} (mem : Memory)
    → Effect a d r
    → IsNumbered d
    → IsMemory mem a
    → Reports mem r.1 × IsMemory (noted mem r.1) r.0
Effect-Reports mem (silent b same _) n h = (tt, λ i. rw same (h i))
Effect-Reports {a} {d} mem (answers b r e new _ ans) n h =
    let (about, now) = Answer-notes mem ans n (h d.msg.instance_num) in
    let told = Answer-Tells mem ans (h d.msg.instance_num) in
    (
      (told, tt),
      λ i. elim (Bool-cases (eq_num d.msg.instance_num i)) [
        | inl t ↦
            let same = (eq_num_iff d.msg.instance_num i).0 t in
            rw (new, lookup-insert i d.msg.instance_num e a.history, t, ← same) now
        | inr t ↦
            let other = subst (λ x. eq_num x i ≡ false) (sym about) t in
            rw
              (
                new,
                lookup-insert i d.msg.instance_num e a.history,
                t,
                note_other r.msg_type r mem i other,
              )
              (h i)
      ],
    )

run-Reports :
    (ds : List Delivery) (a : Acceptor) (mem : Memory)
    → All IsNumbered ds
    → IsMemory mem a
    → Reports mem (run a ds).1
unfolding run
run-Reports [] a mem n h = tt
run-Reports (d ∷ ds) a mem n h =
    let (said, kept) = Effect-Reports mem (step-Effect a d) n.0 h in
    Reports-append (step a d).1 _ mem said (run-Reports ds (step a d).0 _ n.1 kept)

-- From the start of the process, over any deliveries whose proposals are numbers: each
-- PREPARE_NACK carries the number, the value and the client of the last ACCEPT_ACK that the acceptor
-- sent about the instance, and each PREPARE_ACK means that it had sent none.
pub initialize-Reports :
    (server_id : ℕ) (conns : List Num) (ds : List Delivery)
    → All IsNumbered ds
    → Reports (λ i. none) (run (initialize_acceptor server_id conns) ds).1
unfolding initialize_acceptor lookup
initialize-Reports server_id conns ds n = run-Reports ds _ (λ i. none) n (λ i. refl)
