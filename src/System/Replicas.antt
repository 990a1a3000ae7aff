-- ===== src/System/Replicas.antt =====
-- The members of a group of problemset2/src/server.py are replicas of one state machine: the log of one
-- is a prefix of the log of another, and its locks are where the other has been.
use cse.Prelude.{
  Bool, ◌∙◌, ℕ, suc, ◌≤◌, ◌≡◌, ◌≢◌, refl, sym, subst, ap, List, [], ◌∷◌, ◌++◌, inl, inr, length,
  Memᴰ, arith, some,
}
use mathlib.Core.List.Memᴰ.{head, tail}
use cse.Num.{Num}
use cse.Command.{ℤ}
use cse.Message.{Message}
use cse.Proposer.{Line, crashed, Fault, Proposer}
use cse.Rounds.{Executed, ran, failed, execute_value}
use cse.MainLoop.{initialize_proposer}
use cse.MainLoop.Replica.{replay, resume, InStep, IsReplica}
use cse.MainLoop.Numbering.{IsNumbered, IsNumberedReplica, IsNumberedReplica-Invariant}
use cse.System.{Action, run, initialize_paxos}
use cse.System.Agreement.{run-agreement}
use cse.System.Members.{run-each}

-- Lines that agree by their numbers.
abbrev Agree : List Line → List Line → Type 0
Agree xs bs =
    (l k : Line)
    → Memᴰ l xs
    → Memᴰ k bs
    → l.instance_num ≡ k.instance_num
    → (l.command ≡ k.command) × (l.client_id ≡ k.client_id)

same_line :
    (l k : Line)
    → l.instance_num ≡ k.instance_num
    → l.command ≡ k.command
    → l.client_id ≡ k.client_id
    → l ≡ k
same_line l k i c d = λ j. record { instance_num = i j; client_id = d j; command = c j }

Agree-prefix :
    (n : ℕ) (xs bs : List Line)
    → IsNumbered n xs
    → IsNumbered n bs
    → Agree xs bs
    → length xs ≤ length bs
    → (rest : List Line) × (bs ≡ xs ++ rest)
Agree-prefix n [] bs h k agree le = (bs, refl)
Agree-prefix n (a ∷ xs) [] h k agree le = absurd (omega (arith, le))
Agree-prefix n (a ∷ xs) (b ∷ bs) h k agree le =
    let (rest, e) =
      Agree-prefix (suc n) xs bs h.1 k.1 (λ x y m m'. agree x y (tail m) (tail m'))
        (omega (arith, le)) in
    let number = k.0 ∙ sym h.0 in
    let (c, d) = agree a b (head refl) (head refl) (sym number) in
    let one : b ≡ a = same_line b a number (sym c) (sym d) in (rest, λ j. one j ∷ e j)

resume_on :
    (r : Executed) (xs rest : List Line) {mid end : List ℤ}
    → ((k : List ℤ)
        → replay xs k ≡ some mid
        → replay (xs ++ rest) k ≡ some end
        → replay rest mid ≡ some end)
    → resume r (replay xs) ≡ some mid
    → resume r (replay (xs ++ rest)) ≡ some end
    → replay rest mid ≡ some end
resume_on (ran k) xs rest ih h e = ih k h e
resume_on (failed f) xs rest ih h e = cc

-- The rest of a log goes on from where its front ends.
replay_on :
    (xs rest : List Line) (locks : List ℤ) {mid end : List ℤ}
    → replay xs locks ≡ some mid
    → replay (xs ++ rest) locks ≡ some end
    → replay rest mid ≡ some end
replay_on [] rest locks {mid} {end} h e =
    let same : locks ≡ mid = cc in subst (λ x. replay rest x ≡ some end) same e
replay_on (a ∷ xs) rest locks h e =
    resume_on (execute_value a.command locks) xs rest (λ k. replay_on xs rest k) h e

-- The process has not ended by an exception.
abbrev pub IsUp : Proposer → Type 0
IsUp p = (f : Fault) → p.phase ≢ crashed f

up_InStep : (p : Proposer) → IsUp p → IsReplica p → InStep p
up_InStep p up (inl h) = h
up_InStep p up (inr h) = absurd (up h.fault h.ended)

module _ (above : Message → Message → Bool) (n : ℕ) (acceptor_conns : ℕ → List Num)
    (proposer_conns : ℕ → List ℕ) (actions : List Action) where
  -- A member after the run.
  abbrev pub member : ℕ → Proposer
  member s = (run above n (initialize_paxos n acceptor_conns proposer_conns) actions).proposer s

  pub member-IsNumberedReplica : (s : ℕ) → IsNumberedReplica (member s)
  unfolding initialize_proposer
  member-IsNumberedReplica =
      run-each above n IsNumberedReplica-Invariant acceptor_conns proposer_conns actions
        (λ s. (inl (record { replayed = refl; distinct = tt; counted = refl; recorded = tt }), tt))

  -- In every run of a group, the log of one member is the beginning of the log of any other that is as
  -- long or longer.
  pub run-prefix :
      (s t : ℕ)
      → length (member s).logfile ≤ length (member t).logfile
      → (rest : List Line) × ((member t).logfile ≡ (member s).logfile ++ rest)
  run-prefix s t le =
      Agree-prefix 0 (member s).logfile (member t).logfile (member-IsNumberedReplica s).1
        (member-IsNumberedReplica t).1
        (run-agreement above n acceptor_conns proposer_conns actions s t) le

  -- In every run of a group, take two members that have not ended by an exception: the log of the one
  -- that is as long or longer goes on from the other's log, and the commands that it has more make the
  -- lock_set of the other into its own.
  pub run-replicated :
      (s t : ℕ)
      → IsUp (member s)
      → IsUp (member t)
      → length (member s).logfile ≤ length (member t).logfile
      → (rest : List Line) × ((member t).logfile ≡ (member s).logfile ++ rest)
        × (replay rest (member s).lock_set ≡ some (member t).lock_set)
  run-replicated s t up up' le =
      let (rest, e) = run-prefix s t le in
      let here = up_InStep (member s) up (member-IsNumberedReplica s).0 in
      let there = up_InStep (member t) up' (member-IsNumberedReplica t).0 in
      (
        rest,
        e,
        replay_on (member s).logfile rest [] here.replayed
            (ap (λ ls. replay ls []) (sym e) ∙ there.replayed),
      )
