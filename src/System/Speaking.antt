-- ===== src/System/Speaking.antt =====
-- A turn of a proposer of problemset2/src/server.py keeps the invariant of its group.
use cse.Prelude.{
  Bool, ℕ, ◌≤◌, ◌≡◌, refl, sym, ap, subst, true, List, [], ◌∷◌, ◌++◌, inl, inr, Memᴰ, All-mem,
  arith, Bool-cases, length, ◌==◌, ==_iff,
}
use mathlib.Core.List.Memᴰ.{head, tail, append_left, append_cases}
use cse.Num.{Num, nat, rank}
use cse.Message.{accept, Message, Value}
use cse.Acceptor.{Reply}
use cse.Proposer.{
  Proposer, Line, Event, connected, received, recv_failed, eof, got, timed_out, Input, Output,
  to_acceptor, to_client, requeued, is_proposer_type,
}
use cse.MainLoop
use cse.MainLoop.Act.{line_of}
use cse.MainLoop.Induction.{Guarded, step-Guarded, step-keeps}
use cse.MainLoop.Quorum.{Tallied, Tallied-Invariant}
use cse.MainLoop.Ballots.{HasBallot, HasBallot-Invariant}
use cse.MainLoop.Belief.{usables, Justified}
use cse.MainLoop.Support.{IsTrueEvent, step-Justified}
use cse.MainLoop.Constancy.{step-Holds}
use cse.MainLoop.Statements.{IsSound, IsBackedBy, Logs, nothing, its_line, step-IsSound, step-Logs}
use cse.MainLoop.Memory.{Recalls, step-Recalls}
use cse.System.{System, set_member, can_read, to_acceptors}
use cse.System.Majority.{Heard}
use cse.System.Claims.{Claim, Claim-set_member}
use cse.System.Offers.{Turn}
use cse.System.Turns.{Claim-agree, Claim-IsSupported}
use cse.System.Wider.{Justified-map, Grants-map}
use cse.System.Safety.{IsSafe, readable}

-- What holds of each member holds after a step of one.
pub each-set_member :
    (P : ℕ → Proposer → Type 0) (f : ℕ → Proposer) (s : ℕ) (q : Proposer)
    → P s q
    → ((t : ℕ) → P t (f t))
    → (t : ℕ) → P t (set_member f s q t)
each-set_member P f s q now old t = elim (Bool-cases (t == s)) [
  | inl here ↦ rw here (subst (λ u. P u q) (sym ((==_iff t s).0 here)) now)
  | inr there ↦ rw there (old t)
]

-- A message to an acceptor is one of the outputs.
to_acceptors-mem :
    (m : Message) (os : List Output)
    → Memᴰ m (to_acceptors os)
    → (c : ℕ) × Memᴰ (to_acceptor c m) os
unfolding to_acceptors
to_acceptors-mem m [] h = elim h [ ]
to_acceptors-mem m (to_acceptor c k ∷ os) (head e) = (c, head (ap (to_acceptor c) e))
to_acceptors-mem m (to_acceptor c k ∷ os) (tail h) =
    let (d, l) = to_acceptors-mem m os h in (d, tail l)
to_acceptors-mem m (to_client k ∷ os) h = let (d, l) = to_acceptors-mem m os h in (d, tail l)
to_acceptors-mem m (requeued k ∷ os) h = let (d, l) = to_acceptors-mem m os h in (d, tail l)

-- What a proposer reads is a true report.
event-IsTrue :
    {n : ℕ} (y : System) (s : ℕ) (e : Event)
    → IsSafe n y
    → can_read s e y.replies ≡ true
    → IsTrueEvent (Claim y.requests y.proposer) e
event-IsTrue y s (got m) h can = λ j t at.
    h.grants.reports (nat s, m) (readable s m y.replies can (unfold is_proposer_type in rw t refl))
      t j at
event-IsTrue y s connected h can = tt
event-IsTrue y s (received m) h can = tt
event-IsTrue y s recv_failed h can = tt
event-IsTrue y s eof h can = tt
event-IsTrue y s timed_out h can = tt

-- What is remembered had been sent.
Recalls-Heard :
    (s : ℕ) (e : Event) (old hs : List Message) (rs : List Reply)
    → can_read s e rs ≡ true
    → Recalls e old hs
    → Heard s old rs
    → Heard s hs rs
Recalls-Heard s e old hs rs can (inl same) h m k = h m (subst (Memᴰ m) same k)
Recalls-Heard s e old hs rs can (inr (x, is_x, t, more)) h m k = one (subst (Memᴰ m) more k)
  where
    one : Memᴰ m (x ∷ old) → Memᴰ (nat s, m) rs
    one (head same) =
        subst (λ z. Memᴰ (nat s, z) rs) (sym same)
          (readable s x rs (subst (λ z. can_read s z rs ≡ true) is_x can) t)
    one (tail l) = h m l

Recalls-usables :
    (i : ℕ) (e : Event) (old hs : List Message)
    → Recalls e old hs
    → length (usables i old) ≤ length (usables i hs)
unfolding usables
Recalls-usables i e old hs (inl same) = rw same (omega arith)
Recalls-usables i e old hs (inr (x, is_x, t, more)) = rw more (ground arith)

Logs-keeps :
    {p : Proposer} {new : List Line} → Logs p new → (l : Line) → Memᴰ l p.logfile → Memᴰ l new
Logs-keeps (nothing same) l h = subst (Memᴰ l) (sym same) h
Logs-keeps {p} (its_line cnt at more) l h =
    subst (Memᴰ l) (sym more) (append_left (line_of p ∷ []) h)

module _ (above : Message → Message → Bool) {n : ℕ} (y : System) (s : ℕ) (i : Input)
    (h : IsSafe n y) (can : can_read s i.event y.replies ≡ true) where
  abbrev p : Proposer
  p = y.proposer s

  abbrev q : Proposer
  q = (MainLoop.step above p i).0

  abbrev new : List Message
  new = to_acceptors (MainLoop.step above p i).1

  true_event : IsTrueEvent (Claim y.requests y.proposer) i.event
  true_event = event-IsTrue y s i.event h can

  sound :
      (m : Message)
      → Memᴰ m new
      → (b : ℕ) × (m.proposal ≡ nat b)
        × (m.msg_type ≡ accept → IsBackedBy (Claim y.requests y.proposer) q m)
  sound m k =
      let (c, l) = to_acceptors-mem m (MainLoop.step above p i).1 k in
      let a =
        All-mem (IsSound (Claim y.requests y.proposer) q) (MainLoop.step above p i).1
          (step-IsSound (Claim y.requests y.proposer) above p i (h.guarded s) true_event
            (h.justified s))
          l in
      (a.0.0, a.0.1, a.1)

  ballot_now : HasBallot s n q
  ballot_now = step-keeps above (HasBallot-Invariant s n) p i (h.guarded s) (h.ballots s)

  Tallied-now : Tallied q
  Tallied-now = step-keeps above Tallied-Invariant p i (h.guarded s) (h.tallied s)

  Heard-now : Heard s q.msg_history y.replies
  Heard-now =
      Recalls-Heard s i.event p.msg_history q.msg_history y.replies can (step-Recalls above p i)
        (h.heard s)

  this_turn : Turn y.proposer s q y.requests new h.grants
  this_turn = record {
    size = (h.ballots s).size;
    size_after = ballot_now.size;
    heard = h.heard;
    heard_after = Heard-now;
    fresh = λ t. (h.tallied t).fresh;
    fresh_after = Tallied-now.fresh;
    justified = h.justified s;
    agree = h.agree;
    supported = h.supported;
    stable = λ j k d x. step-Holds j k d above p i (h.guarded s) x;
    grows = λ j. Recalls-usables j i.event p.msg_history q.msg_history (step-Recalls above p i);
    sent = λ m k t. (sound m k).2 t;
    logs = step-Logs above p i (h.guarded s);
  }

  wider :
      (j : ℕ) (v : Value) (c : Num)
      → Claim y.requests y.proposer j v c
      → Claim (new ++ y.requests) (set_member y.proposer s q) j v c
  wider =
      Claim-set_member y.proposer s q y.requests new
        (Logs-keeps (step-Logs above p i (h.guarded s)))

  Justified-now :
      (t : ℕ)
      → Justified
          (Claim (new ++ y.requests) (set_member y.proposer s q))
          (set_member y.proposer s q t)
  Justified-now =
      each-set_member (λ t. Justified (Claim (new ++ y.requests) (set_member y.proposer s q)))
        y.proposer s q
        (Justified-map (Claim y.requests y.proposer)
          (Claim (new ++ y.requests) (set_member y.proposer s q)) wider q
          (step-Justified (Claim y.requests y.proposer) above p i true_event (h.justified s)))
        (λ t.
          Justified-map (Claim y.requests y.proposer)
            (Claim (new ++ y.requests) (set_member y.proposer s q)) wider (y.proposer t)
            (h.justified t))

  numbered_now : (m : Message) → Memᴰ m (new ++ y.requests) → 2 ≤ rank m.proposal
  numbered_now m k = elim (append_cases new k) [
    | inl now ↦ let (b, e, a) = sound m now in subst (λ z. 2 ≤ rank z) (sym e) (omega arith)
    | inr old ↦ h.numbered m old
  ]

  pub proposer_turn-IsSafe :
      IsSafe n (record y { proposer = set_member y.proposer s q; requests = new ++ y.requests })
  proposer_turn-IsSafe = record {
    ballots = each-set_member (λ t. HasBallot t n) y.proposer s q ballot_now h.ballots;
    guarded =
        each-set_member (λ t. Guarded) y.proposer s q (step-Guarded above p i (h.guarded s))
          h.guarded;
    tallied = each-set_member (λ t. Tallied) y.proposer s q Tallied-now h.tallied;
    heard =
        each-set_member (λ t x. Heard t x.msg_history y.replies) y.proposer s q Heard-now h.heard;
    justified = Justified-now;
    numbered = numbered_now;
    grants =
        Grants-map (Claim y.requests y.proposer)
          (Claim (new ++ y.requests) (set_member y.proposer s q)) wider h.grants;
    agree = Claim-agree y.proposer s q y.requests new h.grants this_turn;
    supported = Claim-IsSupported y.proposer s q y.requests new h.grants this_turn;
  }
