-- ===== src/System/Offers.antt =====
-- One step of a proposer in a group of problemset2/src/server.py: what it says agrees with what was
-- said before about the instance.
use cse.Prelude.{
  ℕ, ◌<◌, ◌≤◌, ◌/◌, ◌≡◌, ◌∙◌, sym, ap, subst, List, [], ◌∷◌, ◌++◌, ◌⊎◌, inl, inr, Memᴰ, arith,
  Bool-cases, if◌then◌else◌, length, ◌==◌,
}
use mathlib.Core.List.Memᴰ.{head, tail, append_cases}
use cse.Num.{Num, nat-injective}
use cse.Command.{Command}
use cse.Message.{accept, cmd, Message, Value}
use cse.Acceptor.{Acceptor, Reply}
use cse.Proposer.{Proposer, Line}
use cse.MainLoop.Act.{line_of}
use cse.MainLoop.Quorum.{IsFresh}
use cse.MainLoop.Belief.{usables, Justified}
use cse.MainLoop.Constancy.{IsOpen, Holds}
use cse.MainLoop.Statements.{IsBackedBy, Logs, nothing, its_line, accepting-Backed}
use cse.System.{set_member}
use cse.System.Grants.{Grants}
use cse.System.Majority.{Heard, majority_unique}
use cse.System.Claims.{Claim, offered, logged, IsSupported, Says}

-- At its instance a process holds one request.
pub Holds_here :
    {i : ℕ} {k : Command} {d : Num} (x : Proposer)
    → Holds i k d x
    → x.instance_num ≡ i
    → (x.client_command ≡ k) × (x.orig_client_id ≡ d)
Holds_here x (inl later) at = absurd (omega (arith, later, at))
Holds_here x (inr h) at = (h.1.1, h.1.2)

module _ {n : ℕ} (f : ℕ → Proposer) (s : ℕ) (q : Proposer) (requests new : List Message)
    {O : ℕ → Value → Num → Type 0} {acceptors : ℕ → Acceptor} {rs : List Reply}
    (grants : Grants O n acceptors rs) where
  -- What holds before the step, and of the step.
  pub record Turn : Type 0 where
    pub size : (f s).group_size ≡ n
    pub size_after : q.group_size ≡ n
    pub heard : (t : ℕ) → Heard t (f t).msg_history rs
    pub heard_after : Heard s q.msg_history rs
    pub fresh : (t : ℕ) → IsFresh (f t).msg_history
    pub fresh_after : IsFresh q.msg_history
    pub justified : Justified (Claim requests f) (f s)
    pub agree :
        (i : ℕ) (v w : Value) (c d : Num)
        → Claim requests f i v c
        → Claim requests f i w d
        → (v ≡ w) × (c ≡ d)
    pub supported : (i : ℕ) (v : Value) (c : Num) → Claim requests f i v c → IsSupported n f i v c
    pub stable : (i : ℕ) (k : Command) (d : Num) → Holds i k d (f s) → Holds i k d q
    pub grows : (i : ℕ) → length (usables i (f s).msg_history) ≤ length (usables i q.msg_history)
    pub sent : (m : Message) → Memᴰ m new → m.msg_type ≡ accept → IsBackedBy (Claim requests f) q m
    pub logs : Logs (f s) q.logfile

  module _ (turn : Turn) where
    -- What was offered before is an old claim.
    pub Says-offered :
        (x : Proposer) {i : ℕ} {v : Value} {c : Num}
        → Says (Claim requests f) x i v c
        → Claim requests f x.instance_num x.learnt_command x.learnt_client
        → Claim requests f i v c
    Says-offered x {i} {v} {c} says off =
        subst (λ z. Claim requests f i v z) says.client
          (subst (λ z. Claim requests f i z x.learnt_client) says.value
            (subst (λ z. Claim requests f z x.learnt_command x.learnt_client) says.instance_at off))

    -- Who says something now agrees with what was said before.
    pub Says-agree :
        (x : Proposer) {i : ℕ} {v w : Value} {c d : Num}
        → x.group_size ≡ n
        → Heard s x.msg_history rs
        → IsFresh x.msg_history
        → ((k : Command) (d : Num) → Holds i k d (f s) → Holds i k d x)
        → Says (Claim requests f) x i v c
        → Claim requests f i w d
        → (v ≡ w) × (c ≡ d)
    Says-agree x {i} {v} {w} {c} {d} size heard fresh stays says old = elim says.backed [
      | inr off ↦ turn.agree i v w c d (Says-offered x says off) old
      | inl own ↦
          let sup = turn.supported i w d old in
          let here : n / 2 < length (usables i x.msg_history) =
            subst (λ z. z / 2 < length (usables i x.msg_history)) size
              (subst (λ z. x.group_size / 2 < length (usables z x.msg_history)) says.instance_at
                own.1) in
          let one : sup.winner ≡ s =
            majority_unique O grants sup.winner s i (f sup.winner).msg_history x.msg_history
              (turn.heard sup.winner) heard (turn.fresh sup.winner) fresh sup.majority here in
          let (k_same, d_same) =
            Holds_here x
              (stays sup.request d (subst (λ z. Holds i sup.request d (f z)) one sup.holds))
              says.instance_at in
          (
            sym says.value ∙ own.0.0 ∙ ap cmd k_same ∙ sym sup.value,
            sym says.client ∙ own.0.1 ∙ d_same,
          )
    ]

    -- A claim after the step is old, or has just been made.
    abbrev pub New : ℕ → Value → Num → Type 0
    New i v c = Says (Claim requests f) q i v c ⊎ Says (Claim requests f) (f s) i v c

    New-line :
        {i : ℕ} {v : Value} {c : Num} (l : Line)
        → Logs (f s) q.logfile
        → Memᴰ l q.logfile
        → l.instance_num ≡ i
        → l.command ≡ v
        → l.client_id ≡ c
        → Claim requests f i v c ⊎ New i v c
    New-line l (nothing same) h at val cl = inl (logged s l (subst (Memᴰ l) same h) at val cl)
    New-line {i} {v} {c} l (its_line cnt phase more) h at val cl =
        elim (append_cases (f s).logfile (subst (Memᴰ l) more h)) [
          | inl old ↦ inl (logged s l old at val cl)
          | inr last ↦ inr (inr (spoken (only last)))
        ]
      where
        only : Memᴰ l (line_of (f s) ∷ []) → l ≡ line_of (f s)
        only (head e) = e
        only (tail k) = elim k [ ]

        spoken : l ≡ line_of (f s) → Says (Claim requests f) (f s) i v c
        spoken e = record {
          backed = accepting-Backed (Claim requests f) (f s) cnt phase turn.justified;
          open_now = subst IsOpen (sym phase) tt;
          instance_at = sym (ap (λ z. z.instance_num) e) ∙ at;
          value = sym (ap (λ z. z.command) e) ∙ val;
          client = sym (ap (λ z. z.client_id) e) ∙ cl;
        }

    pub Claim-cases :
        (i : ℕ) (v : Value) (c : Num)
        → Claim (new ++ requests) (set_member f s q) i v c
        → Claim requests f i v c ⊎ New i v c
    Claim-cases i v c (offered m h t at val cl) = elim (append_cases new h) [
      | inl now ↦
          let (b, op, inst, value, client) = turn.sent m now t in
          inr (
            inl (record {
              backed = b;
              open_now = op;
              instance_at = nat-injective (sym inst ∙ at);
              value = sym value ∙ val;
              client = sym client ∙ cl;
            }))
      | inr old ↦ inl (offered m old t at val cl)
    ]
    Claim-cases i v c (logged t l h at val cl) = elim (Bool-cases (t == s)) [
      | inl here ↦
          New-line l turn.logs (subst (λ b. Memᴰ l (if b then q else f t).logfile) here h) at val cl
      | inr there ↦
          inl (logged t l (subst (λ b. Memᴰ l (if b then q else f t).logfile) there h) at val cl)
    ]
