-- ===== src/MainLoop/Rising.antt =====
-- The order of the rounds of a proposer (proposer_num of initialize_proposer in
-- problemset2/src/server.py): every send goes beyond all sends before it.
use cse.MainLoop.Stage.{progress, stage, Reached, reached}
use cse.Prelude.{ℕ, ◌+◌, ◌*◌, ◌≤◌, ◌<◌, ap, Bool, List, All, All-append, All-map, All-map_of, arith}
use cse.Num.{rank}
use cse.Message.{MessageType, accept, Message, message}
use cse.Proposer.{
  Proposer, Input, Output, to_acceptor, to_client, requeued, prepare_message, accept_message,
}
use cse.MainLoop.{step, run, react, initialize_proposer}
use cse.MainLoop.Act.{
  Act, stay, requeue, rest, fail, again, gather, promised, ignore, tally, unheard, decide,
  break_down, Told, unmentioned, acknowledged,
}
use cse.MainLoop.Settling.{Sends, idle, dies, asks, offers, settle-Sends}
use cse.MainLoop.Reactions.{react-Act}
use cse.MainLoop.Induction.{
  step-keeps, Emits, Guarded, Guarded-Invariant, run-keeps, run-emits, step-Guarded,
}

abbrev half : MessageType → ℕ
half accept = 1
half _ = 0

-- The place of a PREPARE or an ACCEPT in the order of the rounds: by the proposal number, with the
-- ACCEPT of a number behind its PREPARE.
abbrev pub place : Message → ℕ
place m = 2 * rank m.proposal + half m.msg_type

-- What the first message to an acceptor has to do with a second one.
abbrev pub IsBefore : Output → Output → Type 0
IsBefore (to_acceptor c m) (to_acceptor d k) = place m < place k
IsBefore (to_acceptor c m) (to_client k) = Unit
IsBefore (to_acceptor c m) (requeued k) = Unit
IsBefore (to_client m) o = Unit
IsBefore (requeued m) o = Unit

-- What does not go to an acceptor.
abbrev pub IsQuiet : Output → Type 0
IsQuiet (to_acceptor c m) = ⊥
IsQuiet (to_client m) = Unit
IsQuiet (requeued m) = Unit

Told-IsQuiet : {p : Proposer} {m : Message} {outs : List Output} → Told p m outs → All IsQuiet outs
Told-IsQuiet (unmentioned other) = tt
Told-IsQuiet (acknowledged own) = (tt, tt)

pub Act-IsQuiet : {p : Proposer} {r : Proposer × List Output} → Act p r → All IsQuiet r.1
Act-IsQuiet stay = tt
Act-IsQuiet (requeue m) = (tt, tt)
Act-IsQuiet (rest q i f s quiet) = tt
Act-IsQuiet (fail q x w f r at) = tt
Act-IsQuiet (again q k w k1 f r at) = tt
Act-IsQuiet (gather q f s r at at' low) = tt
Act-IsQuiet (promised q f r at at') = tt
Act-IsQuiet (ignore q f s r at at') = tt
Act-IsQuiet (tally q m f s c e at at' low) = tt
Act-IsQuiet (unheard q m x f c e at many at') = tt
Act-IsQuiet (decide q outs m locks d c at many ex locks' inst quiet told) = Told-IsQuiet told
Act-IsQuiet (break_down q outs m x d c at many ex locks' inst at' told) = Told-IsQuiet told

module _ (n : ℕ) where
  -- A message to an acceptor is not before `n`, or is before it.
  abbrev IsFrom : Output → Type 0
  IsFrom (to_acceptor c m) = n ≤ place m
  IsFrom (to_client m) = Unit
  IsFrom (requeued m) = Unit

  abbrev IsUpTo : Output → Type 0
  IsUpTo (to_acceptor c m) = place m < n
  IsUpTo (to_client m) = Unit
  IsUpTo (requeued m) = Unit

  quiet-IsFrom : (o : Output) → IsQuiet o → IsFrom o
  quiet-IsFrom (to_acceptor c m) h = absurd h
  quiet-IsFrom (to_client m) h = tt
  quiet-IsFrom (requeued m) h = tt

  quiet-IsUpTo : (o : Output) → IsQuiet o → IsUpTo o
  quiet-IsUpTo (to_acceptor c m) h = absurd h
  quiet-IsUpTo (to_client m) h = tt
  quiet-IsUpTo (requeued m) h = tt

  Sends-IsFrom :
      {p : Proposer} {r : Proposer × List Output} → Sends p r → Reached n p → All IsFrom r.1
  unfolding prepare_message accept_message message
  Sends-IsFrom (idle a b) h = tt
  Sends-IsFrom (dies f at) h = tt
  Sends-IsFrom {p} (asks cs sent at) h =
      All-map_of IsFrom (λ c. to_acceptor c (prepare_message p))
        (λ c. omega (arith, h.1, ap progress at)) sent
  Sends-IsFrom {p} (offers cs sent at) h =
      All-map_of IsFrom (λ c. to_acceptor c (accept_message p))
        (λ c. omega (arith, h.1, ap progress at)) sent

  from : Emits (Reached n) IsFrom
  from = record {
    act = λ {p} {r} a h. All-map IsQuiet IsFrom quiet-IsFrom r.1 (Act-IsQuiet a);
    sends = Sends-IsFrom;
  }

  up_to-IsBefore : (o k : Output) → IsUpTo o → IsFrom k → IsBefore o k
  up_to-IsBefore (to_acceptor c m) (to_acceptor d k) h g = omega (arith, h, g)
  up_to-IsBefore (to_acceptor c m) (to_client k) h g = tt
  up_to-IsBefore (to_acceptor c m) (requeued k) h g = tt
  up_to-IsBefore (to_client m) o h g = tt
  up_to-IsBefore (requeued m) o h g = tt

  all-IsBefore :
      (xs ys : List Output) → All IsUpTo xs → All IsFrom ys → All (λ o. All (IsBefore o) ys) xs
  all-IsBefore xs ys h g =
      All-map IsUpTo (λ o. All (IsBefore o) ys)
        (λ o u. All-map IsFrom (IsBefore o) (λ k. up_to-IsBefore o k u) ys g) xs h

-- The sends of a step are behind the place that the process reaches by it.
Sends-IsUpTo :
    {p : Proposer} {r : Proposer × List Output} → Sends p r → All (IsUpTo (stage r.0)) r.1
unfolding prepare_message accept_message message
Sends-IsUpTo (idle a b) = tt
Sends-IsUpTo (dies f at) = tt
Sends-IsUpTo {p} (asks cs sent at) =
    All-map_of (IsUpTo (2 * (p.proposer_num + 2) + 1)) (λ c. to_acceptor c (prepare_message p))
      (λ c. omega arith) sent
Sends-IsUpTo {p} (offers cs sent at) =
    All-map_of (IsUpTo (2 * (p.proposer_num + 2) + 2)) (λ c. to_acceptor c (accept_message p))
      (λ c. omega arith) sent

module _ (above : Message → Message → Bool) where
  step-IsUpTo :
      (p : Proposer) (i : Input)
      → Guarded p
      → All (IsUpTo (stage (step above p i).0)) (step above p i).1
  unfolding step
  step-IsUpTo p i g =
      let n = stage (step above p i).0 in
      All-append (IsUpTo n) (react above i p.phase p).1 _
        (All-map IsQuiet (IsUpTo n) (quiet-IsUpTo n) (react above i p.phase p).1
          (Act-IsQuiet (react-Act above p i g)))
        (Sends-IsUpTo (settle-Sends i.alive (react above i p.phase p).0))

  step_at-IsBefore :
      (p : Proposer) (i : Input) (later : List Input)
      → Guarded p
      → 1 ≤ p.group_size
      → All (λ o. All (IsBefore o) (run above (step above p i).0 later).1) (step above p i).1
  step_at-IsBefore p i later g size =
      let q = (step above p i).0 in
      let size' : 1 ≤ q.group_size = (step-keeps above (reached 0) p i g (size, omega arith)).0 in
      all-IsBefore (stage q) (step above p i).1 (run above q later).1 (step-IsUpTo p i g) (
        run-emits above (reached (stage q)) (from (stage q)) later q (step-Guarded above p i g)
          (size', omega arith))

  -- In every run of a server of a group that is not empty, each PREPARE or ACCEPT of a step comes
  -- before each PREPARE or ACCEPT of any later step, in the order by proposal number that has the
  -- PREPARE of a number before its ACCEPT.
  pub run-IsBefore :
      (server_id group_size : ℕ) (conns : List ℕ) (is : List Input) (i : Input) (later : List Input)
      → 1 ≤ group_size
      → let p = (run above (initialize_proposer server_id group_size conns) is).0 in
        All (λ o. All (IsBefore o) (run above (step above p i).0 later).1) (step above p i).1
  unfolding initialize_proposer
  run-IsBefore server_id group_size conns is i later size =
      step_at-IsBefore _ i later (run-keeps above Guarded-Invariant is _ tt tt)
        (run-keeps above (reached 0) is _ tt (size, omega arith)).0
