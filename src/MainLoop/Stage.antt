-- ===== src/MainLoop/Stage.antt =====
-- How far a proposer is in its rounds: proposer_num and state of initialize_proposer in
-- problemset2/src/server.py never go back.
use cse.Prelude.{ℕ, ◌+◌, ◌*◌, ◌≤◌, ◌≡◌, refl, ap, List, arith}
use cse.Proposer.{
  Phase, listening, reading, ready, finished, accepting_next, proposing, accepting, crashed,
  Proposer, Output,
}
use cse.MainLoop.Act.{
  Act, stay, requeue, rest, fail, again, gather, promised, ignore, tally, unheard, decide,
  break_down, IsIdle,
}
use cse.MainLoop.Settling.{Sends, idle, dies, asks, offers}
use cse.MainLoop.Induction.{Invariant}

-- How far the process is in the round of its proposal number.
abbrev pub progress : Phase → ℕ
progress listening = 0
progress reading = 0
progress ready = 0
progress accepting_next = 1
progress (proposing nacks cnt) = 1
progress (accepting cnt) = 2
progress finished = 2
progress (crashed f) = 2

-- The least place that the process can still send at.
abbrev pub stage : Proposer → ℕ
stage p = 2 * (p.proposer_num + 2) + progress p.phase

progress_bound : (ph : Phase) → progress ph ≤ 2
progress_bound ph = ground arith

progress-idle : (ph : Phase) → IsIdle ph → progress ph ≡ 0
progress-idle listening h = refl
progress-idle reading h = refl
progress-idle ready h = absurd h
progress-idle accepting_next h = absurd h
progress-idle (proposing nacks cnt) h = absurd h
progress-idle (accepting cnt) h = absurd h
progress-idle finished h = absurd h
progress-idle (crashed f) h = absurd h

module _ (n : ℕ) where
  -- The process has reached the place `n`.
  abbrev pub Reached : Proposer → Type 0
  Reached p = (1 ≤ p.group_size) × (n ≤ stage p)

  -- A number that has grown by a whole round is enough in any phase.
  next_round :
      (p q : Proposer) (k : ℕ)
      → 1 ≤ k
      → q.group_size ≡ p.group_size
      → q.proposer_num ≡ p.proposer_num + k * p.group_size
      → Reached p
      → Reached q
  next_round p q k k1 size grown h =
      let more : 1 ≤ k * p.group_size = grind (arith, h.0, k1) in
      (omega (arith, size, h.0), omega (arith, grown, more, h.1, progress_bound p.phase))

  Act-Reached : {p : Proposer} {r : Proposer × List Output} → Act p r → Reached p → Reached r.0
  Act-Reached stay h = h
  Act-Reached (requeue m) h = h
  Act-Reached {p} (rest q i f s quiet) h =
      (omega (arith, f.group_size, h.0), omega (arith, f.grown, h.1, progress-idle p.phase i))
  Act-Reached {p} (fail q x w f r at) h = (
    omega (arith, f.group_size, h.0),
    omega (arith, f.grown, h.1, progress_bound p.phase, ap progress at),
  )
  Act-Reached {p} (again q k w k1 f r at) h = next_round p q k k1 f.group_size f.grown h
  Act-Reached (gather q f s r at at' low) h = (
    omega (arith, f.group_size, h.0),
    omega (arith, f.grown, h.1, ap progress at, ap progress at'),
  )
  Act-Reached (promised q f r at at') h = (
    omega (arith, f.group_size, h.0),
    omega (arith, f.grown, h.1, ap progress at, ap progress at'),
  )
  Act-Reached (ignore q f s r at at') h = (
    omega (arith, f.group_size, h.0),
    omega (arith, f.grown, h.1, ap progress at, ap progress at'),
  )
  Act-Reached (tally q m f s c e at at' low) h = (
    omega (arith, f.group_size, h.0),
    omega (arith, f.grown, h.1, ap progress at, ap progress at'),
  )
  Act-Reached {p} (unheard q m x f c e at many at') h =
      next_round p q 1 (omega arith) f.group_size f.grown h
  Act-Reached {p} (decide q outs m locks d c at many ex locks' inst quiet told) h =
      next_round p q 1 (omega arith) d.group_size (omega (arith, d.grown)) h
  Act-Reached {p} (break_down q outs m x d c at many ex locks' inst at' told) h =
      next_round p q 1 (omega arith) d.group_size (omega (arith, d.grown)) h

  Sends-Reached : {p : Proposer} {r : Proposer × List Output} → Sends p r → Reached p → Reached r.0
  Sends-Reached (idle a b) h = h
  Sends-Reached {p} (dies f at) h = (h.0, omega (arith, h.1, progress_bound p.phase))
  Sends-Reached (asks cs sent at) h = (h.0, omega (arith, h.1, ap progress at))
  Sends-Reached (offers cs sent at) h = (h.0, omega (arith, h.1, ap progress at))

  pub reached : Invariant Reached
  reached = record { act = Act-Reached; sends = Sends-Reached }
