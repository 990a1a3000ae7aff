-- ===== src/MainLoop/Ballots.antt =====
-- Proposal numbers of a proposer (proposer_num of initialize_proposer in
-- problemset2/src/server.py): each server has its own residue modulo the size of the group.
use cse.MainLoop.Induction.{Invariant, run-emits}
use cse.Message.{message, Message}
use cse.MainLoop.{run, Input, Bool, initialize_proposer}
use cse.MainLoop.Settling.{offers, asks, dies, idle, Sends}
use cse.MainLoop.Act.{
  stay, unheard, tally, ignore, promised, gather, again, fail, break_down, rest, decide,
  acknowledged, requeue, unmentioned, Told, Act,
}
use cse.Prelude.{
  All-map_of, refl, ap, sym, All-mem, Memᴰ, ◌≢◌, All, mod-eq_of_lt, add-mul-mod_self_right, ◌%◌,
  ◌<◌, List, ℕ, ◌+◌, ◌*◌, ◌≡◌, ◌∙◌, arith,
}
use cse.Num.{nat-injective, nat}
use cse.Proposer.{
  accept_message, prepare_message, Proposer, Output, to_acceptor, to_client, requeued,
}

module _ (s n : ℕ) where
  -- A proposal number of server `s` of `n`.
  abbrev pub IsBallot : ℕ → Type 0
  IsBallot b = (k : ℕ) × (b ≡ s + k * n)

  pub record HasBallot (p : Proposer) : Type 0 where
    pub size : p.group_size ≡ n
    pub number : IsBallot p.proposer_num

  -- A message to an acceptor carries such a number.
  abbrev pub CarriesBallot : Output → Type 0
  CarriesBallot (to_acceptor c m) = (b : ℕ) × (m.proposal ≡ nat b) × IsBallot b
  CarriesBallot (to_client m) = Unit
  CarriesBallot (requeued m) = Unit

  grow :
      {p q : Proposer} (j : ℕ)
      → q.group_size ≡ p.group_size
      → q.proposer_num ≡ p.proposer_num + j * p.group_size
      → HasBallot p
      → HasBallot q
  grow j size grown h = record {
    size = size ∙ h.size;
    number = (h.number.0 + j, grind (arith, h.number.1, h.size));
  }

  Act-HasBallot :
      {p : Proposer} {r : Proposer × List Output} → Act p r → HasBallot p → HasBallot r.0
  Act-HasBallot stay h = h
  Act-HasBallot (requeue m) h = h
  Act-HasBallot (rest q i f e quiet) h = grow 0 f.group_size f.grown h
  Act-HasBallot (fail q x w f r at) h = grow 0 f.group_size f.grown h
  Act-HasBallot (again q k w k1 f r at) h = grow k f.group_size f.grown h
  Act-HasBallot (gather q f s r at at' low) h = grow 0 f.group_size f.grown h
  Act-HasBallot (promised q f r at at') h = grow 0 f.group_size f.grown h
  Act-HasBallot (ignore q f s r at at') h = grow 0 f.group_size f.grown h
  Act-HasBallot (tally q m f s c e at at' low) h = grow 0 f.group_size f.grown h
  Act-HasBallot (unheard q m x f c e at many at') h = grow 1 f.group_size f.grown h
  Act-HasBallot (decide q outs m locks d c at many ex locks' inst quiet told) h =
      grow 1 d.group_size (omega (arith, d.grown)) h
  Act-HasBallot (break_down q outs m x d c at many ex locks' inst at' told) h =
      grow 1 d.group_size (omega (arith, d.grown)) h

  Sends-HasBallot :
      {p : Proposer} {r : Proposer × List Output} → Sends p r → HasBallot p → HasBallot r.0
  Sends-HasBallot (idle a b) h = h
  Sends-HasBallot (dies f at) h = record { size = h.size; number = h.number }
  Sends-HasBallot (asks cs sent at) h = record { size = h.size; number = h.number }
  Sends-HasBallot (offers cs sent at) h = record { size = h.size; number = h.number }

  pub HasBallot-Invariant : Invariant HasBallot
  HasBallot-Invariant = record { act = Act-HasBallot; sends = Sends-HasBallot }

  Told-CarriesBallot :
      {p : Proposer} {m : Message} {outs : List Output} → Told p m outs → All CarriesBallot outs
  Told-CarriesBallot (unmentioned other) = tt
  Told-CarriesBallot (acknowledged own) = (tt, tt)

  Act-CarriesBallot : {p : Proposer} {r : Proposer × List Output} → Act p r → All CarriesBallot r.1
  Act-CarriesBallot stay = tt
  Act-CarriesBallot (requeue m) = (tt, tt)
  Act-CarriesBallot (decide q outs m locks d c at many ex locks' inst quiet told) =
      Told-CarriesBallot told
  Act-CarriesBallot (break_down q outs m x d c at many ex locks' inst at' told) =
      Told-CarriesBallot told
  Act-CarriesBallot (rest q i f e quiet) = tt
  Act-CarriesBallot (fail q x w f r at) = tt
  Act-CarriesBallot (again q k w k1 f r at) = tt
  Act-CarriesBallot (gather q f s r at at' low) = tt
  Act-CarriesBallot (promised q f r at at') = tt
  Act-CarriesBallot (ignore q f s r at at') = tt
  Act-CarriesBallot (tally q m f s c e at at' low) = tt
  Act-CarriesBallot (unheard q m x f c e at many at') = tt

  Sends-CarriesBallot :
      {p : Proposer} {r : Proposer × List Output} → Sends p r → HasBallot p → All CarriesBallot r.1
  unfolding prepare_message accept_message message
  Sends-CarriesBallot (idle a b) h = tt
  Sends-CarriesBallot (dies f at) h = tt
  Sends-CarriesBallot {p} (asks cs sent at) h =
      All-map_of CarriesBallot (λ c. to_acceptor c (prepare_message p))
        (λ c. (p.proposer_num, refl, h.number)) sent
  Sends-CarriesBallot {p} (offers cs sent at) h =
      All-map_of CarriesBallot (λ c. to_acceptor c (accept_message p))
        (λ c. (p.proposer_num, refl, h.number)) sent

  -- Every PREPARE and every ACCEPT that server `s` of a group of `n` sends, in any run, has a
  -- proposal number s + k * n for some k.
  pub run-CarriesBallot :
      (above : Message → Message → Bool) (conns : List ℕ) (is : List Input)
      → All CarriesBallot (run above (initialize_proposer s n conns) is).1
  unfolding initialize_proposer
  run-CarriesBallot above conns is =
      run-emits above (record { act = Act-HasBallot; sends = Sends-HasBallot })
        (record { act = λ a h. Act-CarriesBallot a; sends = Sends-CarriesBallot }) is _ tt
        (record { size = refl; number = (0, omega arith) })

-- A residue below the modulus can be read off the number.
residue : (s n k b : ℕ) → s < n → b ≡ s + k * n → b % n ≡ s
residue s n k b lt e = rw (e, add-mul-mod_self_right s k n) (mod-eq_of_lt lt)

-- Two servers of a group never send an acceptor the same proposal number, whatever each of them
-- receives.
pub run-no_collision :
    (above : Message → Message → Bool) (n s t : ℕ)
    → s < n
    → t < n
    → s ≢ t
    → (conns conns' : List ℕ) (is js : List Input) {c d : ℕ} {m k : Message}
    → Memᴰ (to_acceptor c m) (run above (initialize_proposer s n conns) is).1
    → Memᴰ (to_acceptor d k) (run above (initialize_proposer t n conns') js).1
    → m.proposal ≢ k.proposal
run-no_collision above n s t s_lt t_lt ne conns conns' is js m_in k_in same =
    let (b, m_num, ballot) =
      All-mem (CarriesBallot s n) _ (run-CarriesBallot s n above conns is) m_in in
    let (b', k_num, ballot') =
      All-mem (CarriesBallot t n) _ (run-CarriesBallot t n above conns' js) k_in in
    let eq : nat b ≡ nat b' = sym m_num ∙ same ∙ k_num in
    ne (
      sym (residue s n ballot.0 b s_lt ballot.1)
      ∙ ap (λ x. x % n) (nat-injective eq)
      ∙ residue t n ballot'.0 b' t_lt ballot'.1)
