-- ===== src/MainLoop/Belief.antt =====
-- Why a proposer holds a value: what initialize_proposer of problemset2/src/server.py has learnt in
-- PROPOSING, as an invariant over the instances, values and clients that have been offered before.
use cse.MainLoop.Deciding.{if_dup-fresh}
use cse.MainLoop.Gathering.{if_dup-Remembers}
use cse.MainLoop.Act.{same, new, Remembers}
use cse.Prelude.{
  length-append, All-append, ◌++◌, sym, subst, true, refl, suc, false, ℕ, ◌+◌, ◌/◌, ◌≤◌, ◌<◌, ◌≡◌,
  Bool, not, List, [], ◌∷◌, ◌⊎◌, inl, inr, All, length, arith, Bool-cases, if◌then◌else◌, leb, ◌&&◌,
  ◌==◌,
}
use cse.Num.{eq_num_iff, Num, nat, eq_num, is_absent}
use cse.Message.{
  client_ack, client, accept, prepare, exit, accept_ack, MessageType, prepare_ack, prepare_nack,
  type_code, Value, cmd, Message,
}
use cse.Proposer.{
  is_proposer_type, if_dup, Phase, listening, reading, ready, accepting_next, finished, proposing,
  accepting, crashed, Proposer, retry, exceeds, highest, learn,
}
use cse.Rounds.{on_response, while_proposing, is_blocked, proposed, propose_loop}

-- A PREPARE_ACK of instance `i` that the proposer counts.
abbrev pub is_usable : ℕ → Message → Bool
is_usable i m =
    type_code m.msg_type == type_code prepare_ack
    && (eq_num m.instance_num (nat i) && not (is_absent m.client_id))

-- Those of a history.
unfoldable pub usables : ℕ → List Message → List Message
usables i [] = []
usables i (m ∷ ms) = if is_usable i m then m ∷ usables i ms else usables i ms

usables-new :
    (i : ℕ) (m : Message) (hs : List Message)
    → m.msg_type ≡ prepare_ack
    → m.instance_num ≡ nat i
    → is_absent m.client_id ≡ false
    → length (usables i (m ∷ hs)) ≡ suc (length (usables i hs))
unfolding usables
usables-new i m hs t inst here = rw (t, inst, here, (eq_num_iff (nat i) (nat i)).1 refl) refl

pub usables-Remembers :
    (i : ℕ) {old hs : List Message}
    → Remembers old hs
    → length (usables i old) ≤ length (usables i hs)
unfolding usables
usables-Remembers i same = omega arith
usables-Remembers i (new m unseen) = ground arith

usables-if_dup :
    (i : ℕ) (m : Message) (hs : List Message)
    → length (usables i hs) ≤ length (usables i (if_dup m hs).1)
usables-if_dup i m hs = usables-Remembers i (if_dup-Remembers m hs)

-- What was learnt is the request of the own client.
abbrev pub IsOwn : Proposer → Type 0
IsOwn p = (p.learnt_command ≡ cmd p.client_command) × (p.learnt_client ≡ p.orig_client_id)

-- A majority of the group has sent a PREPARE_ACK that counts, for this instance.
abbrev pub IsWinner : Proposer → Type 0
IsWinner p = p.group_size / 2 < length (usables p.instance_num p.msg_history)

module _ (Offer : ℕ → Value → Num → Type 0) where
  -- What was learnt has been offered in this instance.
  abbrev pub IsOffered : Proposer → Type 0
  IsOffered p = Offer p.instance_num p.learnt_command p.learnt_client

  abbrev pub Knows : Proposer → Type 0
  Knows p = IsOwn p ⊎ IsOffered p

  -- What was learnt may be proposed.
  abbrev pub Backed : Proposer → Type 0
  Backed p = (IsOwn p × IsWinner p) ⊎ IsOffered p

  abbrev pub OffersAll : ℕ → List Message → Type 0
  OffersAll i nacks = All (λ m. Offer i m.value m.client_id) nacks

  -- What holds in each state of the process.
  abbrev pub JustifiedAt : Phase → Proposer → Type 0
  JustifiedAt ready p = Knows p
  JustifiedAt (proposing nacks cnt) p =
      Knows p
      × OffersAll p.instance_num nacks
      × (cnt ≤ length nacks + length (usables p.instance_num p.msg_history))
  JustifiedAt accepting_next p = Backed p
  JustifiedAt (accepting cnt) p = Backed p
  JustifiedAt listening p = Unit
  JustifiedAt reading p = Unit
  JustifiedAt finished p = Unit
  JustifiedAt (crashed f) p = Unit

  abbrev pub Justified : Proposer → Type 0
  Justified p = JustifiedAt p.phase p

  pub Backed-Knows : (p : Proposer) → Backed p → Knows p
  Backed-Knows p (inl h) = inl h.0
  Backed-Knows p (inr h) = inr h

  -- The message reports only offers.
  abbrev pub IsTrue : Message → Type 0
  IsTrue m =
      (i : ℕ) → m.msg_type ≡ prepare_nack → m.instance_num ≡ nat i → Offer i m.value m.client_id

  module _ (above : Message → Message → Bool) where
    highest-All :
        (P : Message → Type 0) (m : Message) (ms : List Message)
        → P m
        → All P ms
        → P (highest above m ms)
    unfolding highest
    highest-All P m [] h hs = h
    highest-All P m (x ∷ ms) h hs = elim (Bool-cases (exceeds above x m)) [
      | inl more ↦ rw more (highest-All P x ms hs.0 hs.1)
      | inr less ↦ rw less (highest-All P m ms h hs.1)
    ]

    learn-Backed :
        (nacks : List Message) (cnt : ℕ) (p : Proposer)
        → Knows p
        → OffersAll p.instance_num nacks
        → cnt ≤ length nacks + length (usables p.instance_num p.msg_history)
        → p.group_size / 2 < cnt
        → Backed (learn above nacks p)
    unfolding learn
    learn-Backed [] cnt p (inl own) h le many = inl (own, omega arith)
    learn-Backed [] cnt p (inr off) h le many = inr off
    learn-Backed (m ∷ ms) cnt p k h le many =
        inr (highest-All (λ x. Offer p.instance_num x.value x.client_id) m ms h.0 h.1)

    proposed-Justified :
        (nacks : List Message) (cnt : ℕ) (p : Proposer)
        → Knows p
        → OffersAll p.instance_num nacks
        → cnt ≤ length nacks + length (usables p.instance_num p.msg_history)
        → p.group_size / 2 < cnt
        → Justified (proposed above nacks p)
    unfolding proposed retry
    proposed-Justified nacks cnt p k h le many =
        let q = learn above nacks p in
        let b = learn-Backed nacks cnt p k h le many in
        elim (Bool-cases (is_blocked q)) [
          | inl blocked ↦ rw blocked (Backed-Knows q b)
          | inr free ↦ rw free b
        ]

    propose_loop-Justified :
        (nacks : List Message) (cnt : ℕ) (p : Proposer)
        → Knows p
        → OffersAll p.instance_num nacks
        → cnt ≤ length nacks + length (usables p.instance_num p.msg_history)
        → Justified (propose_loop above nacks cnt p)
    unfolding propose_loop
    propose_loop-Justified nacks cnt p k h le = elim (Bool-cases (leb cnt (p.group_size / 2))) [
      | inl more ↦ rw more (k, h, le)
      | inr done ↦ rw done (proposed-Justified nacks cnt p k h le (ground arith))
    ]

    on_response-Justified :
        (t : MessageType) (m : Message) (nacks : List Message) (cnt : ℕ) (p : Proposer)
        (h : List Message)
        → t ≡ m.msg_type
        → IsTrue m
        → m.instance_num ≡ nat p.instance_num
        → is_absent m.client_id ≡ false
        → (length (usables p.instance_num p.msg_history) ≤ length (usables p.instance_num h))
        → (is_proposer_type m.msg_type ≡ true → h ≡ m ∷ p.msg_history)
        → Knows p
        → OffersAll p.instance_num nacks
        → cnt ≤ length nacks + length (usables p.instance_num p.msg_history)
        → Justified (on_response above t m nacks cnt (record p { msg_history = h }))
    unfolding on_response retry
    on_response-Justified prepare_ack m nacks cnt p h e true_m inst here grow fresh k off le =
        let eh : h ≡ m ∷ p.msg_history =
          fresh (subst (λ t. is_proposer_type t ≡ true) e (unfold is_proposer_type in refl)) in
        propose_loop-Justified nacks (cnt + 1) _ k off (
          subst (λ hs. cnt + 1 ≤ length nacks + length (usables p.instance_num hs)) (sym eh)
            (omega (arith, usables-new p.instance_num m p.msg_history (sym e) inst here, le)))
    on_response-Justified prepare_nack m nacks cnt p h e true_m inst here grow fresh k off le =
        propose_loop-Justified (nacks ++ m ∷ []) (cnt + 1) _ k
          (All-append (λ x. Offer p.instance_num x.value x.client_id) nacks (m ∷ []) off
            (true_m p.instance_num (sym e) inst, tt))
          (omega (arith, length-append nacks (m ∷ []), le, grow))
    on_response-Justified accept_ack m nacks cnt p h e true_m inst here grow fresh k off le =
        propose_loop-Justified nacks cnt _ k off (omega (arith, le, grow))
    on_response-Justified exit m nacks cnt p h e true_m inst here grow fresh k off le = k
    on_response-Justified prepare m nacks cnt p h e true_m inst here grow fresh k off le = tt
    on_response-Justified accept m nacks cnt p h e true_m inst here grow fresh k off le = tt
    on_response-Justified client m nacks cnt p h e true_m inst here grow fresh k off le = tt
    on_response-Justified client_ack m nacks cnt p h e true_m inst here grow fresh k off le = tt

    pub while_proposing-Justified :
        (m : Message) (nacks : List Message) (cnt : ℕ) (p : Proposer)
        → IsTrue m
        → Knows p
        → OffersAll p.instance_num nacks
        → cnt ≤ length nacks + length (usables p.instance_num p.msg_history)
        → Justified (while_proposing above m nacks cnt p)
    unfolding while_proposing retry
    while_proposing-Justified m nacks cnt p true_m k off le =
        let h = (if_dup m p.msg_history).1 in
        let grow = usables-if_dup p.instance_num m p.msg_history in
        elim (Bool-cases (is_absent m.client_id)) [
          | inl gone ↦ rw gone k
          | inr here ↦ elim (Bool-cases (if_dup m p.msg_history).0) [
            | inl dup ↦ rw (here, dup) (propose_loop-Justified nacks cnt p k off le)
            | inr fresh ↦ elim (Bool-cases (eq_num m.instance_num (nat p.instance_num))) [
              | inl mine ↦
                  rw (here, fresh, mine)
                    (on_response-Justified m.msg_type m nacks cnt p h refl true_m
                      ((eq_num_iff _ _).0 mine) here grow
                      (λ t. (if_dup-fresh m p.msg_history fresh t).1) k off le)
              | inr other ↦
                  rw (here, fresh, other)
                    (propose_loop-Justified nacks cnt (record p { msg_history = h }) k off
                      (omega (arith, le, grow)))
            ]
          ]
        ]
