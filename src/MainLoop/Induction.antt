-- ===== src/MainLoop/Induction.antt =====
-- Induction over the steps of a proposer: an invariant of the abstract steps holds in every run.
use cse.Prelude.{ℕ, ◌+◌, ◌/◌, ◌≤◌, sym, subst, Bool, List, [], ◌∷◌, All, All-append, arith}
use cse.Message.{Message}
use cse.Proposer.{
  Phase, listening, reading, ready, finished, accepting_next, proposing, accepting, crashed,
  Proposer, Input, Output,
}
use cse.MainLoop.{step, run, react}
use cse.MainLoop.Act.{
  Act, stay, requeue, rest, fail, again, gather, promised, ignore, tally, unheard, decide,
  break_down, InLoop, IsResting,
}
use cse.MainLoop.Settling.{Sends, idle, dies, asks, offers, settle-Sends}
use cse.MainLoop.Reactions.{react-Act}

pub record Invariant (P : Proposer → Type 0) : Type 0 where
  pub act : {p : Proposer} {r : Proposer × List Output} → Act p r → P p → P r.0
  pub sends : {p : Proposer} {r : Proposer × List Output} → Sends p r → P p → P r.0

-- What is sent by a process in which `P` holds satisfies `Q`.
pub record Emits (P : Proposer → Type 0) (Q : Output → Type 0) : Type 0 where
  pub act : {p : Proposer} {r : Proposer × List Output} → Act p r → P p → All Q r.1
  pub sends : {p : Proposer} {r : Proposer × List Output} → Sends p r → P p → All Q r.1

resting-InLoop : (n : ℕ) (ph : Phase) → IsResting ph → InLoop n ph
resting-InLoop n listening h = tt
resting-InLoop n reading h = tt
resting-InLoop n ready h = tt
resting-InLoop n finished h = tt
resting-InLoop n (crashed f) h = tt
resting-InLoop n accepting_next h = absurd h
resting-InLoop n (proposing nacks cnt) h = absurd h
resting-InLoop n (accepting cnt) h = absurd h

abbrev pub Guarded : Proposer → Type 0
Guarded p = InLoop p.group_size p.phase

module _ {p : Proposer} where
  Act-Guarded : {r : Proposer × List Output} → Act p r → Guarded p → Guarded r.0
  Act-Guarded stay h = h
  Act-Guarded (requeue m) h = h
  Act-Guarded (rest q i f s quiet) h = resting-InLoop _ q.phase quiet
  Act-Guarded (fail q f w fr r at) h = subst (InLoop q.group_size) (sym at) tt
  Act-Guarded (again q k w k1 f r at) h = subst (InLoop q.group_size) (sym at) tt
  Act-Guarded (gather q {cnt' = cnt'} f s r at at' low) h =
      subst (InLoop q.group_size) (sym at') (subst (λ n. cnt' ≤ n / 2) (sym f.group_size) low)
  Act-Guarded (promised q f r at at') h = subst (InLoop q.group_size) (sym at') tt
  Act-Guarded (ignore q {cnt} f s r at at') h =
      subst (InLoop q.group_size) (sym at')
        (subst (λ n. cnt ≤ n / 2) (sym f.group_size) (subst (InLoop p.group_size) at h))
  Act-Guarded (tally q {cnt} m f s c e at at' low) h =
      subst (InLoop q.group_size) (sym at') (subst (λ n. cnt + 1 ≤ n / 2) (sym f.group_size) low)
  Act-Guarded (unheard q m f fr c e at many at') h = subst (InLoop q.group_size) (sym at') tt
  Act-Guarded (decide q outs m locks d c at many ex locks' inst quiet told) h =
      resting-InLoop _ q.phase quiet
  Act-Guarded (break_down q outs m f d c at many ex locks' inst at' told) h =
      subst (InLoop q.group_size) (sym at') tt

  Sends-Guarded : {r : Proposer × List Output} → Sends p r → Guarded p → Guarded r.0
  Sends-Guarded (idle a b) h = h
  Sends-Guarded (dies f at) h = tt
  Sends-Guarded (asks cs sent at) h = omega arith
  Sends-Guarded (offers cs sent at) h = omega arith

pub Guarded-Invariant : Invariant Guarded
Guarded-Invariant = record { act = Act-Guarded; sends = Sends-Guarded }

module _ (above : Message → Message → Bool) {P : Proposer → Type 0} (inv : Invariant P) where
  -- One step keeps an invariant, where the tests of the loops have passed.
  pub step-keeps : (p : Proposer) (i : Input) → Guarded p → P p → P (step above p i).0
  unfolding step
  step-keeps p i g h =
      inv.sends (settle-Sends i.alive (react above i p.phase p).0)
        (inv.act (react-Act above p i g) h)

  pub step-emits :
      {Q : Output → Type 0}
      → Emits P Q
      → (p : Proposer) (i : Input) → Guarded p
      → P p
      → All Q (step above p i).1
  unfolding step
  step-emits {Q} em p i g h =
      All-append Q (react above i p.phase p).1 _ (em.act (react-Act above p i g) h)
        (em.sends (settle-Sends i.alive _) (inv.act (react-Act above p i g) h))

pub step-Guarded :
    (above : Message → Message → Bool) (p : Proposer) (i : Input)
    → Guarded p
    → Guarded (step above p i).0
step-Guarded above p i g = step-keeps above Guarded-Invariant p i g g

module _ (above : Message → Message → Bool) {P : Proposer → Type 0} (inv : Invariant P) where
  pub run-keeps : (is : List Input) (p : Proposer) → Guarded p → P p → P (run above p is).0
  unfolding run
  run-keeps [] p g h = h
  run-keeps (i ∷ is) p g h =
      run-keeps is (step above p i).0 (step-Guarded above p i g) (step-keeps above inv p i g h)

  pub run-emits :
      {Q : Output → Type 0}
      → Emits P Q
      → (is : List Input) (p : Proposer) → Guarded p
      → P p
      → All Q (run above p is).1
  unfolding run
  run-emits em [] p g h = tt
  run-emits {Q} em (i ∷ is) p g h =
      All-append Q (step above p i).1 _ (step-emits above inv em p i g h) (
        run-emits em is (step above p i).0 (step-Guarded above p i g)
          (step-keeps above inv p i g h))
