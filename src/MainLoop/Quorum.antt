-- ===== src/MainLoop/Quorum.antt =====
-- Decisions rest on majorities: the counting of ACCEPT_ACKs in initialize_proposer of
-- problemset2/src/server.py.
use cse.MainLoop.Reactions.{react-Act}
use cse.MainLoop.Induction.{Invariant, Guarded-Invariant, Guarded, run-keeps}
use cse.MainLoop.Settling.{
  settle-Sends, offers, asks, Sends-history, dies, idle, Sends-logfile, Sends,
}
use cse.MainLoop.{react, step, run, proposing, Input, initialize_proposer}
use cse.Prelude.{
  le_trans, ◌∙◌, sym, ◌+◌, subst, ℕ, suc, ◌/◌, ◌≤◌, ◌<◌, ◌≡◌, refl, List, [], ◌∷◌, ◌++◌, Bool,
  false, ◌&&◌, ◌==◌, arith, if◌then◌else◌,
}
use cse.Num.{nat, eq_num, eq_num_iff}
use cse.Message.{Message, accept_ack, type_code, seen}
use cse.Proposer.{
  accepting_next, finished, ready, reading, listening, crashed, Output, Phase, accepting, Proposer,
}
use cse.MainLoop.Act.{
  stay, break_down, decide, unheard, tally, ignore, promised, gather, again, fail, rest, requeue,
  Act, Frame, IsResting, same, new, Remembers, Counts, line_of,
}

-- An ACCEPT_ACK for proposal `b` of instance `i`.
abbrev pub is_ack : ℕ → ℕ → Message → Bool
is_ack i b m =
    type_code m.msg_type == type_code accept_ack
    && (eq_num m.instance_num (nat i) && eq_num m.proposal (nat b))

-- How many messages of the history are such.
pub acks : ℕ → ℕ → List Message → ℕ
acks i b [] = 0
acks i b (m ∷ ms) = if is_ack i b m then suc (acks i b ms) else acks i b ms

-- No message stands in the history twice.
abbrev pub IsFresh : List Message → Type 0
IsFresh [] = Unit
IsFresh (m ∷ ms) = (seen m ms ≡ false) × IsFresh ms

-- The count of the loop is at most the number of acknowledgements received.
abbrev pub Covers : ℕ → ℕ → List Message → Phase → Type 0
Covers i b ms (accepting cnt) = cnt ≤ acks i b ms
Covers i b ms _ = Unit

pub record Tallied (p : Proposer) : Type 0 where
  pub fresh : IsFresh p.msg_history
  pub covers : Covers p.instance_num p.proposer_num p.msg_history p.phase

Remembers-IsFresh : {old new : List Message} → Remembers old new → IsFresh old → IsFresh new
Remembers-IsFresh same h = h
Remembers-IsFresh (new m unseen) h = (unseen, h)

acks-Remembers :
    (i b : ℕ) {old new : List Message} → Remembers old new → acks i b old ≤ acks i b new
unfolding acks
acks-Remembers i b same = omega arith
acks-Remembers i b (new m unseen) = ground arith

-- One more acknowledgement.
acks-Counts :
    (p : Proposer) (m : Message)
    → Counts p m
    → acks p.instance_num p.proposer_num (m ∷ p.msg_history)
      ≡ suc (acks p.instance_num p.proposer_num p.msg_history)
unfolding acks
acks-Counts p m c = rw (
  c.kind,
  c.about,
  c.proposal,
  (eq_num_iff (nat p.instance_num) _).1 refl,
  (eq_num_iff (nat p.proposer_num) _).1 refl,
)

-- What a step of the proposer does to the log: nothing, or one line that a majority has accepted.
pub data Grows (p q : Proposer) : Type 0 where
  kept : q.logfile ≡ p.logfile → Grows p q
  decided :
      q.logfile ≡ p.logfile ++ line_of p ∷ []
      → IsFresh q.msg_history
      → p.group_size / 2 < acks p.instance_num p.proposer_num q.msg_history
      → Grows p q

module _ (i b : ℕ) (ms : List Message) where
  resting-Covers : (ph : Phase) → IsResting ph → Covers i b ms ph
  resting-Covers listening h = tt
  resting-Covers reading h = tt
  resting-Covers ready h = tt
  resting-Covers finished h = tt
  resting-Covers (crashed f) h = tt
  resting-Covers accepting_next h = absurd h
  resting-Covers (proposing nacks cnt) h = absurd h
  resting-Covers (accepting cnt) h = absurd h

-- A count that the new history covers.
counted :
    (p q : Proposer) (k : ℕ)
    → Frame p q 0
    → IsFresh q.msg_history
    → q.phase ≡ accepting k
    → k ≤ acks p.instance_num p.proposer_num q.msg_history
    → Tallied q
counted p q k f fr at low = record {
  fresh = fr;
  covers =
      subst (Covers q.instance_num q.proposer_num q.msg_history) (sym at)
        (rw (f.instance_num, grown) low);
}
  where
    grown : q.proposer_num ≡ p.proposer_num
    grown = omega (arith, f.grown)

module _ {p : Proposer} where
  -- In a phase that counts nothing.
  uncounted :
      (q : Proposer) {ph : Phase}
      → Remembers p.msg_history q.msg_history
      → q.phase ≡ ph
      → ((i b : ℕ) (ms : List Message) → Covers i b ms ph)
      → Tallied p
      → Tallied q
  uncounted q r at c h = record {
    fresh = Remembers-IsFresh r h.fresh;
    covers = subst (Covers q.instance_num q.proposer_num q.msg_history) (sym at) (c _ _ _);
  }

  covered :
      {cnt : ℕ}
      → p.phase ≡ accepting cnt
      → Tallied p
      → cnt ≤ acks p.instance_num p.proposer_num p.msg_history
  covered at h = subst (Covers p.instance_num p.proposer_num p.msg_history) at h.covers

  IsFresh-new :
      (q : Proposer) (m : Message)
      → Counts p m
      → q.msg_history ≡ m ∷ p.msg_history
      → Tallied p
      → IsFresh q.msg_history
  IsFresh-new q m c e h = subst IsFresh (sym e) (c.unseen, h.fresh)

  tallied :
      (q : Proposer) {cnt : ℕ} (m : Message)
      → Counts p m
      → q.msg_history ≡ m ∷ p.msg_history
      → p.phase ≡ accepting cnt
      → Tallied p
      → cnt + 1 ≤ acks p.instance_num p.proposer_num q.msg_history
  tallied q m c e at h = rw e (omega (arith, acks-Counts p m c, covered at h))

  Act-Tallied : {r : Proposer × List Output} → Act p r → Tallied p → Tallied r.0
  Act-Tallied stay h = h
  Act-Tallied (requeue m) h = h
  Act-Tallied (rest q i f e quiet) h = record {
    fresh = subst IsFresh (sym e) h.fresh;
    covers = resting-Covers _ _ _ q.phase quiet;
  }
  Act-Tallied (fail q x w f r at) h = uncounted q r at (λ _ _ _. tt) h
  Act-Tallied (again q k w k1 f r at) h = uncounted q r at (λ _ _ _. tt) h
  Act-Tallied (gather q f s r at at' low) h = uncounted q r at' (λ _ _ _. tt) h
  Act-Tallied (promised q f r at at') h = uncounted q r at' (λ _ _ _. tt) h
  Act-Tallied (ignore q f s r at at') h =
      counted p q _ f (Remembers-IsFresh r h.fresh) at'
        (le_trans (covered at h) (acks-Remembers _ _ r))
  Act-Tallied (tally q {cnt} m f s c e at at' low) h =
      counted p q (cnt + 1) f (IsFresh-new q m c e h) at' (tallied q m c e at h)
  Act-Tallied (unheard q m x f c e at many at') h =
      uncounted q (subst (Remembers p.msg_history) (sym e) (new m c.unseen)) at' (λ _ _ _. tt) h
  Act-Tallied (decide q outs m locks d c at many ex locks' inst quiet told) h = record {
    fresh = IsFresh-new q m c d.history h;
    covers = resting-Covers _ _ _ q.phase quiet;
  }
  Act-Tallied (break_down q outs m x d c at many ex locks' inst at' told) h =
      uncounted q (subst (Remembers p.msg_history) (sym d.history) (new m c.unseen)) at'
        (λ _ _ _. tt) h

  Act-Grows : {r : Proposer × List Output} → Act p r → Tallied p → Grows p r.0
  Act-Grows stay h = kept refl
  Act-Grows (requeue m) h = kept refl
  Act-Grows (rest q i f e quiet) h = kept f.logfile
  Act-Grows (fail q x w f r at) h = kept f.logfile
  Act-Grows (again q k w k1 f r at) h = kept f.logfile
  Act-Grows (gather q f s r at at' low) h = kept f.logfile
  Act-Grows (promised q f r at at') h = kept f.logfile
  Act-Grows (ignore q f s r at at') h = kept f.logfile
  Act-Grows (tally q m f s c e at at' low) h = kept f.logfile
  Act-Grows (unheard q m x f c e at many at') h = kept f.logfile
  Act-Grows (decide q outs m locks d c at many ex locks' inst quiet told) h =
      decided d.logfile (IsFresh-new q m c d.history h)
        (omega (arith, many, tallied q m c d.history at h))
  Act-Grows (break_down q outs m x d c at many ex locks' inst at' told) h =
      decided d.logfile (IsFresh-new q m c d.history h)
        (omega (arith, many, tallied q m c d.history at h))

Sends-Tallied : {p : Proposer} {r : Proposer × List Output} → Sends p r → Tallied p → Tallied r.0
Sends-Tallied (idle a b) h = h
Sends-Tallied (dies f at) h = record { fresh = h.fresh; covers = tt }
Sends-Tallied (asks cs sent at) h = record { fresh = h.fresh; covers = tt }
Sends-Tallied (offers cs sent at) h = record { fresh = h.fresh; covers = omega arith }

pub Tallied-Invariant : Invariant Tallied
Tallied-Invariant = record { act = Act-Tallied; sends = Sends-Tallied }

-- The sends of a step change neither the log nor the history.
Sends-Grows : {p q : Proposer} {r : Proposer × List Output} → Sends q r → Grows p q → Grows p r.0
Sends-Grows s (kept e) = kept (Sends-logfile s ∙ e)
Sends-Grows s (decided e fr many) =
    decided (Sends-logfile s ∙ e) (subst IsFresh (sym (Sends-history s)) fr)
      (rw (Sends-history s) many)

step_at-Grows :
    (above : Message → Message → Bool) (p : Proposer) (i : Input)
    → Guarded p
    → Tallied p
    → Grows p (step above p i).0
unfolding step
step_at-Grows above p i g h =
    Sends-Grows (settle-Sends i.alive (react above i p.phase p).0)
      (Act-Grows (react-Act above p i g) h)

-- In every run, a step writes at most one line to the log, with the instance, the client and the
-- command that were learnt, and it does so only if more than half of the group size of distinct
-- ACCEPT_ACKs for the current proposal of this instance have been received.
pub step-Grows :
    (above : Message → Message → Bool) (server_id group_size : ℕ) (conns : List ℕ) (is : List Input)
    (i : Input)
    → let p = (run above (initialize_proposer server_id group_size conns) is).0 in
      Grows p (step above p i).0
unfolding initialize_proposer
step-Grows above server_id group_size conns is i =
    step_at-Grows above _ i (run-keeps above Guarded-Invariant is _ tt tt)
      (run-keeps above Tallied-Invariant is _ tt (record { fresh = tt; covers = tt }))
