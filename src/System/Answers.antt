-- ===== src/System/Answers.antt =====
-- What one answer of an acceptor of problemset2/src/server.py says: which entry it leaves, whether it
-- reports an offer, and whether it is a PREPARE_ACK that counts.
use cse.Prelude.{
  not, ℕ, ◌≤◌, ◌≡◌, ◌≢◌, refl, ap, subst, true, false, Option, some, none, ◌⊎◌, inl, inr, arith,
  Bool-cases, if◌then◌else◌,
}
use cse.Num.{Num, absent, minus_one, nat, rank, eq_num, eq_num_iff, is_absent}
use cse.Message.{prepare_ack, prepare_nack, accept, Value, Message, message}
use cse.Acceptor.{
  is_acceptor_type, Entry, Acceptor, promise_reply, first_reply, accept_reply, accepted_entry,
}
use cse.Acceptor.Effect.{Answer, first_promise, later_promise, first_accept, later_accept}

-- A PREPARE_ACK that a proposer counts.
abbrev pub IsGrant : Message → Type 0
IsGrant m = (m.msg_type ≡ prepare_ack) × (is_absent m.client_id ≡ false)

-- Only a PREPARE or an ACCEPT is answered.
pub Answer-type :
    {a : Acceptor} {m r : Message} {o : Option Entry} {e : Entry}
    → Answer a m o r e
    → is_acceptor_type m.msg_type ≡ true
unfolding is_acceptor_type
Answer-type (first_promise t) = rw t refl
Answer-type (later_promise e t lt) = rw t refl
Answer-type (first_accept t) = rw t refl
Answer-type (later_accept e t le) = rw t refl

module _ (Offer : ℕ → Value → Num → Type 0) where
  -- Either nothing was accepted, and there is no client, or what was accepted had been offered.
  abbrev pub IsTrueEntry : Num → Entry → Type 0
  IsTrueEntry k e =
      ((e.accp ≡ minus_one) × (e.cid ≡ absent))
      ⊎ ((e.accp ≢ minus_one) × ((i : ℕ) → k ≡ nat i → Offer i e.accv e.cid))

  abbrev pub IsTrueOption : Num → Option Entry → Type 0
  IsTrueOption k none = Unit
  IsTrueOption k (some e) = IsTrueEntry k e

  -- A message that an acceptor gets: it has a number, and an ACCEPT is an offer.
  pub record IsRequest (m : Message) : Type 0 where
    pub numbered : 2 ≤ rank m.proposal
    pub offers :
        m.msg_type ≡ accept → (i : ℕ) → m.instance_num ≡ nat i → Offer i m.value m.client_id

  -- The reply is no report, or a true one.
  abbrev pub IsTrueReply : Message → Type 0
  IsTrueReply m =
      m.msg_type ≡ prepare_nack → (i : ℕ) → m.instance_num ≡ nat i → Offer i m.value m.client_id

  pub Answer-entry :
      {a : Acceptor} {m r : Message} {o : Option Entry} {e : Entry}
      → Answer a m o r e
      → IsRequest m
      → IsTrueOption m.instance_num o
      → IsTrueEntry m.instance_num e
  unfolding accepted_entry
  Answer-entry (first_promise t) q h = inl (refl, refl)
  Answer-entry (later_promise e t lt) q h = h
  Answer-entry (first_accept t) q h = inr (λ x. omega (arith, q.numbered, ap rank x), q.offers t)
  Answer-entry (later_accept e t le) q h =
      inr (λ x. omega (arith, q.numbered, ap rank x), q.offers t)

  pub Answer-reply :
      {a : Acceptor} {m r : Message} {o : Option Entry} {e : Entry}
      → Answer a m o r e
      → IsTrueOption m.instance_num o
      → IsTrueReply r
  unfolding promise_reply first_reply accept_reply message
  Answer-reply (first_promise t) h x i at = absurd (ground (arith, x))
  Answer-reply {m} (later_promise e t lt) (inl h) x i at =
      let y : prepare_ack ≡ prepare_nack =
        subst (λ b. (if not (eq_num b minus_one) then prepare_nack else prepare_ack) ≡ prepare_nack)
          h.0 x in
      absurd (ground (arith, y))
  Answer-reply {m} (later_promise e t lt) (inr h) x i at = h.1 i at
  Answer-reply (first_accept t) h x i at = absurd (ground (arith, x))
  Answer-reply (later_accept e t le) h x i at = absurd (ground (arith, x))

  -- Only the answer to the first message of an instance is a grant.
  pub Answer-grant :
      {a : Acceptor} {m r : Message} {o : Option Entry} {e : Entry}
      → Answer a m o r e
      → IsTrueOption m.instance_num o
      → IsGrant r
      → (o ≡ none) × (r.origin_id ≡ nat a.server_id) × (r.instance_num ≡ m.instance_num)
  unfolding promise_reply first_reply accept_reply message
  Answer-grant (first_promise t) h g = (refl, refl, refl)
  Answer-grant (later_promise e t lt) (inl h) g =
      let y : true ≡ false = subst (λ b. is_absent b ≡ false) h.1 g.1 in absurd (ground (arith, y))
  Answer-grant (later_promise e t lt) (inr h) g = elim (Bool-cases (eq_num e.accp minus_one)) [
    | inl none_yet ↦ absurd (h.0 ((eq_num_iff _ _).0 none_yet))
    | inr some_yet ↦
        let y : prepare_nack ≡ prepare_ack =
          subst (λ b. (if not b then prepare_nack else prepare_ack) ≡ prepare_ack) some_yet g.0 in
        absurd (ground (arith, y))
  ]
  Answer-grant (first_accept t) h g = absurd (ground (arith, g.0))
  Answer-grant (later_accept e t le) h g = absurd (ground (arith, g.0))
