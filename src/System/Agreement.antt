-- ===== src/System/Agreement.antt =====
-- Agreement: the members of a group of problemset2/src/server.py never decide different commands for
-- one instance.
use cse.Prelude.{
  arith, Bool, ℕ, ◌≡◌, refl, List, [], ◌∷◌, Memᴰ, Bool-cases, inl, inr, ltb, and_split, ◌&&◌,
}
use cse.Num.{Num}
use cse.Message.{Message}
use cse.Acceptor.{initialize_acceptor, lookup}
use cse.Proposer.{Line}
use cse.MainLoop.{initialize_proposer}
use cse.System.{
  System, Action, acceptor_turn, proposer_turn, step, run, initialize_paxos, can_deliver, can_read,
}
use cse.System.Claims.{offered, logged}
use cse.System.Safety.{IsSafe, acceptor_turn-IsSafe}
use cse.System.Speaking.{proposer_turn-IsSafe}

module _ (above : Message → Message → Bool) (n : ℕ) where
  step-IsSafe : (y : System) (a : Action) → IsSafe n y → IsSafe n (step above n y a)
  unfolding step
  step-IsSafe y (acceptor_turn s d) h =
      elim (Bool-cases (ltb s n && can_deliver d.msg y.requests)) [
        | inl go ↦
            let (lt, can) = and_split (ltb s n) _ go in
            rw go (acceptor_turn-IsSafe y s d (ground (arith, lt)) can h)
        | inr stop ↦ rw stop h
      ]
  step-IsSafe y (proposer_turn s i) h =
      elim (Bool-cases (ltb s n && can_read s i.event y.replies)) [
        | inl go ↦
            let (lt, can) = and_split (ltb s n) _ go in
            rw go (proposer_turn-IsSafe above y s i h can)
        | inr stop ↦ rw stop h
      ]

  run-IsSafe : (actions : List Action) (y : System) → IsSafe n y → IsSafe n (run above n y actions)
  unfolding run
  run-IsSafe [] y h = h
  run-IsSafe (a ∷ actions) y h = run-IsSafe actions (step above n y a) (step-IsSafe y a h)

  initialize_paxos-IsSafe :
      (acceptor_conns : ℕ → List Num) (proposer_conns : ℕ → List ℕ)
      → IsSafe n (initialize_paxos n acceptor_conns proposer_conns)
  unfolding initialize_paxos initialize_acceptor initialize_proposer lookup
  initialize_paxos-IsSafe acceptor_conns proposer_conns = record {
    ballots = λ s. record { size = refl; number = (0, omega arith) };
    guarded = λ s. tt;
    tallied = λ s. record { fresh = tt; covers = tt };
    heard = λ s m k. elim k [ ];
    justified = λ s. tt;
    numbered = λ m k. elim k [ ];
    grants = record {
      ids = λ s. refl;
      entries = λ s k. tt;
      reports = λ r k. elim k [ ];
      origins = λ r k. elim k [ ];
      unique = λ r t k. elim k [ ];
    };
    agree = λ i v w c d x. elim x [
      | offered m k _ _ _ _ ↦ elim k [ ]
      | logged s l k _ _ _ ↦ elim k [ ]
    ];
    supported =
        λ i v c x. elim x [ offered m k _ _ _ _ ↦ elim k [ ] | logged s l k _ _ _ ↦ elim k [ ] ];
  }

  -- In every run of a group, whatever its processes receive and whenever: two lines of the logs of two
  -- members about the same instance have the same command and the same client.
  pub run-agreement :
      (acceptor_conns : ℕ → List Num) (proposer_conns : ℕ → List ℕ) (actions : List Action)
      (s t : ℕ) (l k : Line)
      → Memᴰ l
          ((run above n (initialize_paxos n acceptor_conns proposer_conns) actions).proposer
            s).logfile
      → Memᴰ k
          ((run above n (initialize_paxos n acceptor_conns proposer_conns) actions).proposer
            t).logfile
      → l.instance_num ≡ k.instance_num
      → (l.command ≡ k.command) × (l.client_id ≡ k.client_id)
  run-agreement acceptor_conns proposer_conns actions s t l k hl hk same =
      let y = run above n (initialize_paxos n acceptor_conns proposer_conns) actions in
      let safe =
        run-IsSafe actions (initialize_paxos n acceptor_conns proposer_conns)
          (initialize_paxos-IsSafe acceptor_conns proposer_conns) in
      safe.agree k.instance_num l.command k.command l.client_id k.client_id
        (logged s l hl same refl refl) (logged t k hk refl refl refl)
