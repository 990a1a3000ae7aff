-- ===== src/System/Members.antt =====
-- What every step of a proposer of problemset2/src/server.py keeps, every run of a group keeps, for
-- each of its members.
use cse.Prelude.{Bool, ℕ, List, [], ◌∷◌, Bool-cases, inl, inr, ltb, ◌&&◌}
use cse.Num.{Num}
use cse.Message.{Message}
use cse.Proposer.{Proposer}
use cse.MainLoop.{initialize_proposer}
use cse.MainLoop.Induction.{Invariant, Guarded, step-Guarded, step-keeps}
use cse.System.{
  System, Action, acceptor_turn, proposer_turn, step, run, initialize_paxos, can_deliver, can_read,
}
use cse.System.Speaking.{each-set_member}

module _ (above : Message → Message → Bool) (n : ℕ) {P : Proposer → Type 0}
    (inv : Invariant P) where
  abbrev AllKeep : System → Type 0
  AllKeep y = (s : ℕ) → Guarded (y.proposer s) × P (y.proposer s)

  step-AllKeep : (y : System) (a : Action) → AllKeep y → AllKeep (step above n y a)
  unfolding step
  step-AllKeep y (acceptor_turn s d) h =
      elim (Bool-cases (ltb s n && can_deliver d.msg y.requests)) [
        | inl go ↦ rw go h
        | inr stop ↦ rw stop h
      ]
  step-AllKeep y (proposer_turn s i) h =
      elim (Bool-cases (ltb s n && can_read s i.event y.replies)) [
        | inl go ↦ rw go (
            each-set_member (λ t p. Guarded p × P p) y.proposer s _
              (
                step-Guarded above (y.proposer s) i (h s).0,
                step-keeps above inv (y.proposer s) i (h s).0 (h s).1,
              )
              h)
        | inr stop ↦ rw stop h
      ]

  run-AllKeep : (actions : List Action) (y : System) → AllKeep y → AllKeep (run above n y actions)
  unfolding run
  run-AllKeep [] y h = h
  run-AllKeep (a ∷ actions) y h = run-AllKeep actions (step above n y a) (step-AllKeep y a h)

  pub run-each :
      (acceptor_conns : ℕ → List Num) (proposer_conns : ℕ → List ℕ) (actions : List Action)
      → ((s : ℕ) → P (initialize_proposer s n (proposer_conns s)))
      → (s : ℕ)
      → P ((run above n (initialize_paxos n acceptor_conns proposer_conns) actions).proposer s)
  unfolding initialize_paxos initialize_proposer
  run-each acceptor_conns proposer_conns actions start s =
      (run-AllKeep actions (initialize_paxos n acceptor_conns proposer_conns) (λ t. (tt, start t))
        s).1
