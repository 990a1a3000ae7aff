-- ===== src/Acceptor/Promise.antt =====
-- The promises of an acceptor (initialize_acceptor of problemset2/src/server.py): the proposal
-- numbers of its replies about an instance never fall.
use cse.Prelude.{
  ℕ, suc, ◌+◌, ◌≤◌, ◌≡◌, refl, sym, ◌∙◌, subst, Option, some, none, List, [], ◌∷◌, ◌++◌, arith, All,
  All-append, All-map,
}
use cse.Num.{Num, rank, eq_num_iff}
use cse.Message.{MessageType, accept_ack, Message, message}
use cse.Acceptor.{
  Entry, Acceptor, Reply, Delivery, lookup, promise_reply, first_reply, accept_reply,
  accepted_entry, step, run,
}
use cse.Acceptor.Table.{lookup-insert}
use cse.Acceptor.Effect.{
  Answer, first_promise, later_promise, first_accept, later_accept, Effect, silent, answers,
  step-Effect,
}

-- One more than the rank of the promised proposal; 0 where nothing is promised.
abbrev pub level : Option Entry → ℕ
level none = 0
level (some h) = suc (rank h.prep)

-- A promise must be above the promises before it, an acceptance may be level with them.
abbrev pub gap : MessageType → ℕ
gap accept_ack = 0
gap _ = 1

-- The reply `x` respects a level of the instance `i`.
abbrev Respects : Num → ℕ → Reply → Type 0
Respects i n x = x.1.instance_num ≡ i → n + gap x.1.msg_type ≤ suc (rank x.1.proposal)

-- The reply `y` may come after the reply `x`.
abbrev pub Follows : Reply → Reply → Type 0
Follows x y =
    y.1.instance_num ≡ x.1.instance_num → rank x.1.proposal + gap y.1.msg_type ≤ rank y.1.proposal

abbrev pub IsOrdered : List Reply → Type 0
IsOrdered [] = Unit
IsOrdered (x ∷ xs) = All (Follows x) xs × IsOrdered xs

-- An answer is about the instance, respects its level, and sets it to its own proposal.
Answer-level :
    {a : Acceptor} {m r : Message} {o : Option Entry} {e : Entry}
    → Answer a m o r e
    → (r.instance_num ≡ m.instance_num)
      × (level o + gap r.msg_type ≤ suc (rank r.proposal))
      × (level (some e) ≡ suc (rank r.proposal))
unfolding promise_reply first_reply accept_reply accepted_entry message
Answer-level (first_promise t) = (refl, ground arith, refl)
Answer-level (later_promise h t lt) = (refl, ground arith, refl)
Answer-level (first_accept t) = (refl, ground arith, refl)
Answer-level (later_accept h t le) = (refl, ground arith, refl)

-- The level of instance `i`.
abbrev at : Num → Acceptor → ℕ
at i a = level (lookup i a.history)

record Turn (a : Acceptor) (r : Acceptor × List Reply) : Type 0 where
  rises : (i : Num) → at i a ≤ at i r.0
  respects : (i : Num) → All (Respects i (at i a)) r.1
  ordered : IsOrdered r.1
  holds : All (λ x. at x.1.instance_num r.0 ≡ suc (rank x.1.proposal)) r.1

Effect-Turn : {a : Acceptor} {d : Delivery} {r : Acceptor × List Reply} → Effect a d r → Turn a r
Effect-Turn {a} (silent b same _) = record {
  rises = λ i. rw same (omega arith);
  respects = λ i. tt;
  ordered = tt;
  holds = tt;
}
Effect-Turn {a} {d} (answers b r e new _ ans) =
    let (about, low, now) = Answer-level ans in
    record {
      rises = λ i.
          rw (new, lookup-insert i d.msg.instance_num e a.history)
            (ground (arith, eq_num_iff d.msg.instance_num i));
      respects = λ i. (
        λ same. subst (λ k. at k a + gap r.msg_type ≤ suc (rank r.proposal)) (sym about ∙ same) low,
        tt,
      );
      ordered = (tt, tt);
      holds = (
        rw
            (
              new,
              lookup-insert r.instance_num d.msg.instance_num e a.history,
              (eq_num_iff d.msg.instance_num r.instance_num).1 (sym about),
            )
            now,
        tt,
      );
    }

step-Turn : (a : Acceptor) (d : Delivery) → Turn a (step a d)
step-Turn a d = Effect-Turn (step-Effect a d)

Respects-le :
    (i : Num) (m n : ℕ) → m ≤ n → (xs : List Reply) → All (Respects i n) xs → All (Respects i m) xs
Respects-le i m n h xs = All-map (Respects i n) (Respects i m) (λ x r e. omega (arith, r e)) xs

-- The promised level of an instance never falls, whatever is delivered.
run-rises : (i : Num) (a : Acceptor) (ds : List Delivery) → at i a ≤ at i (run a ds).0
unfolding run
run-rises i a [] = omega arith
run-rises i a (d ∷ ds) = omega (arith, (step-Turn a d).rises i, run-rises i (step a d).0 ds)

-- Every later reply respects the level of its instance.
run-Respects :
    (i : Num) (a : Acceptor) (ds : List Delivery) → All (Respects i (at i a)) (run a ds).1
unfolding run
run-Respects i a [] = tt
run-Respects i a (d ∷ ds) =
    All-append (Respects i (at i a)) (step a d).1 _ ((step-Turn a d).respects i)
      (Respects-le i _ _ ((step-Turn a d).rises i) _ (run-Respects i (step a d).0 ds))

IsOrdered-append :
    (xs ys : List Reply)
    → IsOrdered xs
    → IsOrdered ys
    → All (λ x. All (Follows x) ys) xs
    → IsOrdered (xs ++ ys)
IsOrdered-append [] ys ox oy f = oy
IsOrdered-append (x ∷ xs) ys ox oy f =
    (All-append (Follows x) xs ys ox.0 f.0, IsOrdered-append xs ys ox.1 oy f.1)

-- What holds at its level is followed by whatever respects the level.
Respects-Follows :
    (b : Acceptor) (ds : List Delivery) (x : Reply)
    → at x.1.instance_num b ≡ suc (rank x.1.proposal)
    → All (Follows x) (run b ds).1
Respects-Follows b ds x h =
    All-map (Respects x.1.instance_num (at x.1.instance_num b)) (Follows x)
      (λ y r e. omega (arith, r e)) (run b ds).1 (run-Respects x.1.instance_num b ds)

-- Of two replies of an acceptor about one instance, in any run, the later one has a proposal number
-- that is not lower, and that is higher unless the later one is an ACCEPT_ACK: after a promise
-- nothing lower is accepted or promised, and no number is promised twice.
pub run-IsOrdered : (a : Acceptor) (ds : List Delivery) → IsOrdered (run a ds).1
unfolding run
run-IsOrdered a [] = tt
run-IsOrdered a (d ∷ ds) =
    let turn = step-Turn a d in
    let b = (step a d).0 in
    IsOrdered-append (step a d).1 (run b ds).1 turn.ordered (run-IsOrdered b ds)
      (All-map _ _ (λ x h. Respects-Follows b ds x h) (step a d).1 turn.holds)
