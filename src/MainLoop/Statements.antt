-- ===== src/MainLoop/Statements.antt =====
-- What a step of initialize_proposer of problemset2/src/server.py says: the ACCEPTs that it sends and
-- the lines that it logs are backed.
use cse.Prelude.{
  sym, ℕ, ◌≡◌, refl, subst, Bool, List, [], ◌∷◌, ◌++◌, All, All-append, All-map, All-map_of, arith,
}
use cse.Num.{Num, nat}
use cse.Message.{Message, message, accept, Value}
use cse.Proposer.{
  Line, accepting, Proposer, Input, Output, to_acceptor, to_client, requeued, prepare_message,
  accept_message,
}
use cse.MainLoop.{proposing, react, step}
use cse.MainLoop.Act.{
  Act, stay, requeue, rest, fail, again, gather, promised, ignore, tally, unheard, decide,
  break_down, line_of,
}
use cse.MainLoop.Settling.{Sends, idle, dies, asks, offers, settle-Sends, Sends-logfile}
use cse.MainLoop.Reactions.{react-Act}
use cse.MainLoop.Induction.{Guarded}
use cse.MainLoop.Rising.{IsQuiet, Act-IsQuiet}
use cse.MainLoop.Constancy.{IsOpen}
use cse.MainLoop.Belief.{Backed, Justified, JustifiedAt}
use cse.MainLoop.Support.{IsTrueEvent, react_at-Justified}

module _ (Offer : ℕ → Value → Num → Type 0) where
  -- An ACCEPT offers what the process has learnt in its instance, and this is backed.
  abbrev pub IsBackedBy : Proposer → Message → Type 0
  IsBackedBy p m =
      Backed Offer p
      × IsOpen p.phase
      × (m.instance_num ≡ nat p.instance_num)
      × (m.value ≡ p.learnt_command)
      × (m.client_id ≡ p.learnt_client)

  -- A message to an acceptor has a number; an ACCEPT is backed.
  abbrev pub IsSound : Proposer → Output → Type 0
  IsSound p (to_acceptor c m) =
      ((b : ℕ) × (m.proposal ≡ nat b)) × (m.msg_type ≡ accept → IsBackedBy p m)
  IsSound p (to_client m) = Unit
  IsSound p (requeued m) = Unit

  quiet-IsSound : (p : Proposer) (o : Output) → IsQuiet o → IsSound p o
  quiet-IsSound p (to_acceptor c m) h = absurd h
  quiet-IsSound p (to_client m) h = tt
  quiet-IsSound p (requeued m) h = tt

  Sends-IsSound :
      {p : Proposer} {r : Proposer × List Output}
      → Sends p r
      → Justified Offer p
      → All (IsSound r.0) r.1
  unfolding prepare_message accept_message message
  Sends-IsSound (idle a b) j = tt
  Sends-IsSound (dies f at) j = tt
  Sends-IsSound {p} (asks cs sent at) j =
      All-map_of (IsSound (record p { server_connections = cs; phase = proposing [] 0 }))
        (λ c. to_acceptor c (prepare_message p)) (λ c. ((p.proposer_num, refl), λ e. ground arith))
        sent
  Sends-IsSound {p} (offers cs sent at) j =
      All-map_of (IsSound (record p { server_connections = cs; phase = accepting 0 }))
        (λ c. to_acceptor c (accept_message p))
        (λ c. (
          (p.proposer_num, refl),
          λ e. (subst (λ ph. JustifiedAt Offer ph p) at j, tt, refl, refl, refl),
        ))
        sent

  module _ (above : Message → Message → Bool) where
    pub step-IsSound :
        (p : Proposer) (i : Input)
        → Guarded p
        → IsTrueEvent Offer i.event
        → Justified Offer p
        → All (IsSound (step above p i).0) (step above p i).1
    unfolding step
    step-IsSound p i g t j =
        let q = (step above p i).0 in
        All-append (IsSound q) (react above i p.phase p).1 _
          (All-map IsQuiet (IsSound q) (quiet-IsSound q) (react above i p.phase p).1
            (Act-IsQuiet (react-Act above p i g)))
          (Sends-IsSound (settle-Sends i.alive (react above i p.phase p).0)
            (react_at-Justified Offer above i p.phase p refl t j))

-- What a step logs: nothing, or the line of what was learnt, in ACCEPTING.
pub data Logs (p : Proposer) (new : List Line) : Type 0 where
  nothing : new ≡ p.logfile → Logs p new
  its_line : (cnt : ℕ) → p.phase ≡ accepting cnt → new ≡ p.logfile ++ line_of p ∷ [] → Logs p new

pub Act-Logs : {p : Proposer} {r : Proposer × List Output} → Act p r → Logs p r.0.logfile
Act-Logs stay = nothing refl
Act-Logs (requeue m) = nothing refl
Act-Logs (rest q i f s quiet) = nothing f.logfile
Act-Logs (fail q x w f r at) = nothing f.logfile
Act-Logs (again q k w k1 f r at) = nothing f.logfile
Act-Logs (gather q f s r at at' low) = nothing f.logfile
Act-Logs (promised q f r at at') = nothing f.logfile
Act-Logs (ignore q f s r at at') = nothing f.logfile
Act-Logs (tally q m f s c e at at' low) = nothing f.logfile
Act-Logs (unheard q m x f c e at many at') = nothing f.logfile
Act-Logs (decide q outs m locks d c at many ex locks' inst quiet told) = its_line _ at d.logfile
Act-Logs (break_down q outs m x d c at many ex locks' inst at' told) = its_line _ at d.logfile

pub step-Logs :
    (above : Message → Message → Bool) (p : Proposer) (i : Input)
    → Guarded p
    → Logs p (step above p i).0.logfile
unfolding step
step-Logs above p i g =
    subst (Logs p) (sym (Sends-logfile (settle-Sends i.alive (react above i p.phase p).0)))
      (Act-Logs (react-Act above p i g))

-- In ACCEPTING, what was learnt is backed.
pub accepting-Backed :
    (Offer : ℕ → Value → Num → Type 0) (p : Proposer) (cnt : ℕ)
    → p.phase ≡ accepting cnt
    → Justified Offer p
    → Backed Offer p
accepting-Backed Offer p cnt at j = subst (λ ph. JustifiedAt Offer ph p) at j
