-- ===== src/System/Claims.antt =====
-- What a group of problemset2/src/server.py has said about an instance: the values of its ACCEPTs and
-- of its logs, and why they were said.
use cse.Prelude.{
  ℕ, ◌<◌, ◌/◌, ◌≡◌, refl, subst, List, ◌++◌, inl, inr, Memᴰ, Bool-cases, length, ◌==◌, ==_iff,
}
use mathlib.Core.List.Memᴰ.{append_right}
use cse.Num.{Num, nat}
use cse.Command.{Command}
use cse.Message.{accept, cmd, Message, Value}
use cse.Proposer.{Proposer, Line}
use cse.MainLoop.Belief.{usables, Backed}
use cse.MainLoop.Constancy.{IsOpen, Holds}
use cse.System.{set_member}

-- An ACCEPT for instance `i` with the value and the client was sent, or a line of a log has them.
pub data Claim (requests : List Message) (f : ℕ → Proposer) (i : ℕ) (v : Value) (c : Num)
    : Type 0 where
  offered :
      (m : Message)
      → Memᴰ m requests
      → m.msg_type ≡ accept
      → m.instance_num ≡ nat i
      → m.value ≡ v
      → m.client_id ≡ c
      → Claim requests f i v c
  logged :
      (s : ℕ) (l : Line)
      → Memᴰ l (f s).logfile
      → l.instance_num ≡ i
      → l.command ≡ v
      → l.client_id ≡ c
      → Claim requests f i v c

-- A member with a majority of the PREPARE_ACKs for the instance stands behind the value: as long as
-- it is at the instance, it is the request that it serves.
pub record IsSupported (n : ℕ) (f : ℕ → Proposer) (i : ℕ) (v : Value) (c : Num) : Type 0 where
  pub winner : ℕ
  pub majority : n / 2 < length (usables i (f winner).msg_history)
  pub request : Command
  pub value : v ≡ cmd request
  pub holds : Holds i request c (f winner)

-- One member has gone from `p` to `q`, and has sent what is new.
module _ (f : ℕ → Proposer) (s : ℕ) (q : Proposer) where
  abbrev f' : ℕ → Proposer
  f' = set_member f s q

  pub set_member_self : f' s ≡ q
  set_member_self = rw ((==_iff s s).1 refl) refl

  module _ (requests new : List Message)
      (keeps : (l : Line) → Memᴰ l (f s).logfile → Memᴰ l q.logfile) where
    log-set_member : (t : ℕ) (l : Line) → Memᴰ l (f t).logfile → Memᴰ l (f' t).logfile
    log-set_member t l h = elim (Bool-cases (t == s)) [
      | inl here ↦ rw here (keeps l (subst (λ u. Memᴰ l (f u).logfile) ((==_iff t s).0 here) h))
      | inr there ↦ rw there h
    ]

    -- What was said stays said.
    pub Claim-set_member :
        (i : ℕ) (v : Value) (c : Num) → Claim requests f i v c → Claim (new ++ requests) f' i v c
    Claim-set_member i v c (offered m h t at val cl) = offered m (append_right new h) t at val cl
    Claim-set_member i v c (logged t l h at val cl) = logged t l (log-set_member t l h) at val cl

-- A backed state: the process is at the instance, and has learnt the value there.
pub record Says (Offer : ℕ → Value → Num → Type 0) (x : Proposer) (i : ℕ) (v : Value) (c : Num)
    : Type 0 where
  pub backed : Backed Offer x
  pub open_now : IsOpen x.phase
  pub instance_at : x.instance_num ≡ i
  pub value : x.learnt_command ≡ v
  pub client : x.learnt_client ≡ c
