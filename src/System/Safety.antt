-- ===== src/System/Safety.antt =====
-- The invariant of a group of problemset2/src/server.py, and why a turn of an acceptor keeps it.
use cse.Prelude.{
  ℕ, ◌<◌, ◌≤◌, ◌≡◌, refl, sym, subst, true, List, [], ◌∷◌, ◌++◌, ◌&&◌, inl, inr, Memᴰ, arith,
  Bool-cases, if◌then◌else◌, and_split,
}
use mathlib.Core.List.Memᴰ.{head, tail, append_right}
use cse.Num.{Num, nat, rank, eq_num, eq_num_iff}
use cse.Message.{Message, Value, eq_message, seen}
use cse.Message.Equality.{eq_message_iff, mem-of_seen}
use cse.Acceptor
use cse.Acceptor.{Acceptor, Reply, Delivery, initialize_acceptor}
use cse.Acceptor.Effect.{step-Effect}
use cse.Proposer.{got, is_proposer_type}
use cse.MainLoop.Induction.{Guarded}
use cse.MainLoop.Quorum.{Tallied}
use cse.MainLoop.Ballots.{HasBallot}
use cse.MainLoop.Belief.{Justified}
use cse.System.{System, set_member, can_deliver, was_sent, can_read}
use cse.System.Answers.{IsRequest}
use cse.System.Grants.{Grants, Effect-Grants}
use cse.System.Majority.{Heard}
use cse.System.Claims.{Claim, offered, IsSupported}

-- The invariant of a group of `n`.
pub record IsSafe (n : ℕ) (y : System) : Type 0 where
  pub ballots : (s : ℕ) → HasBallot s n (y.proposer s)
  pub guarded : (s : ℕ) → Guarded (y.proposer s)
  pub tallied : (s : ℕ) → Tallied (y.proposer s)
  pub heard : (s : ℕ) → Heard s (y.proposer s).msg_history y.replies
  pub justified : (s : ℕ) → Justified (Claim y.requests y.proposer) (y.proposer s)
  pub numbered : (m : Message) → Memᴰ m y.requests → 2 ≤ rank m.proposal
  pub grants : Grants (Claim y.requests y.proposer) n y.acceptor y.replies
  pub agree :
      (i : ℕ) (v w : Value) (c d : Num)
      → Claim y.requests y.proposer i v c
      → Claim y.requests y.proposer i w d
      → (v ≡ w) × (c ≡ d)
  pub supported :
      (i : ℕ) (v : Value) (c : Num)
      → Claim y.requests y.proposer i v c
      → IsSupported n y.proposer i v c

-- A request that was sent carries a number, and an ACCEPT is an offer.
deliverable :
    {n : ℕ} (y : System) (m : Message)
    → IsSafe n y
    → can_deliver m y.requests ≡ true
    → Acceptor.is_acceptor_type m.msg_type ≡ true
    → IsRequest (Claim y.requests y.proposer) m
unfolding can_deliver
deliverable y m h can t =
    let was : Memᴰ m y.requests =
      mem-of_seen m y.requests
        (subst (λ b. (if b then seen m y.requests else true) ≡ true) t can) in
    record { numbered = h.numbered m was; offers = λ a i at. offered m was a at refl refl }

pub acceptor_turn-IsSafe :
    {n : ℕ} (y : System) (s : ℕ) (d : Delivery)
    → s < n
    → can_deliver d.msg y.requests ≡ true
    → IsSafe n y
    → IsSafe n (record y {
      acceptor = set_member y.acceptor s (Acceptor.step (y.acceptor s) d).0;
      replies = (Acceptor.step (y.acceptor s) d).1 ++ y.replies;
    })
acceptor_turn-IsSafe y s d lt can h = record {
  ballots = h.ballots;
  guarded = h.guarded;
  tallied = h.tallied;
  heard = λ t m k. append_right (Acceptor.step (y.acceptor s) d).1 (h.heard t m k);
  justified = h.justified;
  numbered = h.numbered;
  grants =
      Effect-Grants (Claim y.requests y.proposer) h.grants s lt (step-Effect (y.acceptor s) d)
        (deliverable y d.msg h can);
  agree = h.agree;
  supported = h.supported;
}

was_sent-mem : (s : ℕ) (m : Message) (rs : List Reply) → was_sent s m rs ≡ true → Memᴰ (nat s, m) rs
unfolding was_sent
was_sent-mem s m [] h = absurd (ground (arith, h))
was_sent-mem s m ((to, r) ∷ rs) h = elim (Bool-cases (eq_num to (nat s) && eq_message r m)) [
  | inl same ↦
      let (a, b) = and_split (eq_num to (nat s)) _ same in
      head (λ i. (sym ((eq_num_iff to (nat s)).0 a) i, sym ((eq_message_iff r m).0 b) i))
  | inr other ↦ tail (was_sent-mem s m rs (ground (arith, other)))
]

-- A reply that is read was sent.
pub readable :
    (s : ℕ) (m : Message) (rs : List Reply)
    → can_read s (got m) rs ≡ true
    → is_proposer_type m.msg_type ≡ true
    → Memᴰ (nat s, m) rs
unfolding can_read
readable s m rs can t =
    was_sent-mem s m rs (subst (λ b. (if b then was_sent s m rs else true) ≡ true) t can)
