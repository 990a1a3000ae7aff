-- ===== src/System/Turns.antt =====
-- The claims of a group of problemset2/src/server.py after a step of a proposer: they agree, and a
-- member with a majority supports each of them.
use cse.Prelude.{
  ℕ, ◌<◌, ◌≤◌, ◌/◌, ◌≡◌, ◌∙◌, refl, sym, ap, subst, List, ◌++◌, inl, inr, arith, Bool-cases, length,
  ◌==◌, ==_iff,
}
use cse.Num.{Num}
use cse.Command.{Command}
use cse.Message.{cmd, Message, Value}
use cse.Acceptor.{Acceptor, Reply}
use cse.Proposer.{Proposer}
use cse.MainLoop.Belief.{usables}
use cse.MainLoop.Constancy.{Holds}
use cse.System.{set_member}
use cse.System.Grants.{Grants}
use cse.System.Claims.{Claim, IsSupported, Says}
use cse.System.Offers.{Holds_here, Turn, New, Says-offered, Says-agree, Claim-cases}

module _ {n : ℕ} (f : ℕ → Proposer) (s : ℕ) (q : Proposer) (requests new : List Message)
    {O : ℕ → Value → Num → Type 0} {acceptors : ℕ → Acceptor} {rs : List Reply}
    (grants : Grants O n acceptors rs) (turn : Turn f s q requests new grants) where
  new-old :
      {i : ℕ} {v w : Value} {c d : Num}
      → New f s q requests new grants turn i v c
      → Claim requests f i w d
      → (v ≡ w) × (c ≡ d)
  new-old {i} (inl a) old =
      Says-agree f s q requests new grants turn q turn.size_after turn.heard_after turn.fresh_after
        (turn.stable i) a old
  new-old (inr a) old =
      Says-agree f s q requests new grants turn (f s) turn.size (turn.heard s) (turn.fresh s)
        (λ k d h. h) a old

  -- The step both sends an ACCEPT and logs a line.
  sent_logged :
      {i : ℕ} {v w : Value} {c d : Num}
      → Says (Claim requests f) q i v c
      → Says (Claim requests f) (f s) i w d
      → (v ≡ w) × (c ≡ d)
  sent_logged {i} a b = elim a.backed [
    | inr off ↦
        let e = new-old (inr b) (Says-offered f s q requests new grants turn q a off) in
        (sym e.0, sym e.1)
    | inl own ↦ elim b.backed [
      | inr off' ↦ new-old (inl a) (Says-offered f s q requests new grants turn (f s) b off')
      | inl own' ↦
          let (k_same, d_same) =
            Holds_here q
              (turn.stable i (f s).client_command (f s).orig_client_id
                (inr (b.open_now, (b.instance_at, refl, refl))))
              a.instance_at in
          (
            sym a.value ∙ own.0.0 ∙ ap cmd k_same ∙ sym own'.0.0 ∙ b.value,
            sym a.client ∙ own.0.1 ∙ d_same ∙ sym own'.0.1 ∙ b.client,
          )
    ]
  ]

  new-new :
      {i : ℕ} {v w : Value} {c d : Num}
      → New f s q requests new grants turn i v c
      → New f s q requests new grants turn i w d
      → (v ≡ w) × (c ≡ d)
  new-new (inl a) (inl b) = (sym a.value ∙ b.value, sym a.client ∙ b.client)
  new-new (inr a) (inr b) = (sym a.value ∙ b.value, sym a.client ∙ b.client)
  new-new (inl a) (inr b) = sent_logged a b
  new-new (inr a) (inl b) = let e = sent_logged b a in (sym e.0, sym e.1)

  -- All claims about an instance agree after the step.
  pub Claim-agree :
      (i : ℕ) (v w : Value) (c d : Num)
      → Claim (new ++ requests) (set_member f s q) i v c
      → Claim (new ++ requests) (set_member f s q) i w d
      → (v ≡ w) × (c ≡ d)
  Claim-agree i v w c d x y = elim (Claim-cases f s q requests new grants turn i v c x) [
    | inl a ↦ elim (Claim-cases f s q requests new grants turn i w d y) [
      | inl b ↦ turn.agree i v w c d a b
      | inr b ↦ let e = new-old b a in (sym e.0, sym e.1)
    ]
    | inr a ↦ elim (Claim-cases f s q requests new grants turn i w d y) [
      | inl b ↦ new-old a b
      | inr b ↦ new-new a b
    ]
  ]

  -- A member that supported something still does.
  still-IsSupported :
      {i : ℕ} {v : Value} {c : Num} → IsSupported n f i v c → IsSupported n (set_member f s q) i v c
  still-IsSupported {i} {v} {c} sup = elim (Bool-cases (sup.winner == s)) [
    | inl here ↦
        let e : sup.winner ≡ s = (==_iff sup.winner s).0 here in
        let at : set_member f s q sup.winner ≡ q = rw here refl in
        record {
          winner = sup.winner;
          majority =
              subst (λ x. n / 2 < length (usables i x.msg_history)) (sym at)
                (omega (
                  arith,
                  subst (λ z. n / 2 < length (usables i (f z).msg_history)) e sup.majority,
                  turn.grows i,
                ));
          request = sup.request;
          value = sup.value;
          holds =
              subst (Holds i sup.request c) (sym at) (
                turn.stable i sup.request c (subst (λ z. Holds i sup.request c (f z)) e sup.holds));
        }
    | inr there ↦
        let at : set_member f s q sup.winner ≡ f sup.winner = rw there refl in
        record {
          winner = sup.winner;
          majority = subst (λ x. n / 2 < length (usables i x.msg_history)) (sym at) sup.majority;
          request = sup.request;
          value = sup.value;
          holds = subst (Holds i sup.request c) (sym at) sup.holds;
        }
  ]

  -- The member itself supports what it says, or another one did before.
  Says-IsSupported :
      (x : Proposer) {i : ℕ} {v : Value} {c : Num}
      → x.group_size ≡ n
      → length (usables i x.msg_history) ≤ length (usables i q.msg_history)
      → ((k : Command) (d : Num) → Holds i k d x → Holds i k d q)
      → Says (Claim requests f) x i v c
      → IsSupported n (set_member f s q) i v c
  Says-IsSupported x {i} {v} {c} size more stays says = elim says.backed [
    | inr off ↦
        still-IsSupported
          (turn.supported i v c (Says-offered f s q requests new grants turn x says off))
    | inl own ↦
        let at : set_member f s q s ≡ q = rw ((==_iff s s).1 refl) refl in
        let here : n / 2 < length (usables i x.msg_history) =
          subst (λ z. z / 2 < length (usables i x.msg_history)) size
            (subst (λ z. x.group_size / 2 < length (usables z x.msg_history)) says.instance_at
              own.1) in
        record {
          winner = s;
          majority =
              subst (λ y. n / 2 < length (usables i y.msg_history)) (sym at)
                (omega (arith, here, more));
          request = x.client_command;
          value = sym says.value ∙ own.0.0;
          holds = subst (Holds i x.client_command c) (sym at) (
              stays x.client_command c
                (inr (says.open_now, (says.instance_at, refl, sym own.0.1 ∙ says.client))));
        }
  ]

  pub Claim-IsSupported :
      (i : ℕ) (v : Value) (c : Num)
      → Claim (new ++ requests) (set_member f s q) i v c
      → IsSupported n (set_member f s q) i v c
  Claim-IsSupported i v c x = elim (Claim-cases f s q requests new grants turn i v c x) [
    | inl old ↦ still-IsSupported (turn.supported i v c old)
    | inr (inl a) ↦ Says-IsSupported q turn.size_after (omega arith) (λ k d h. h) a
    | inr (inr a) ↦ Says-IsSupported (f s) turn.size (turn.grows i) (turn.stable i) a
  ]
