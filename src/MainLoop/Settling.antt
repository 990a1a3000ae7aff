-- ===== src/MainLoop/Settling.antt =====
-- What the states READY and ACCEPT do: a PREPARE or an ACCEPT goes to the acceptors.
use cse.Prelude.{sym, subst, ℕ, ◌≡◌, refl, Bool, List, [], map, Bool-cases, inl, inr}
use cse.Num.{is_absent}
use cse.Proposer.{
  Phase, ready, accepting_next, proposing, accepting, crashed, Fault, assertion_error, Proposer,
  Output, to_acceptor, prepare_message, accept_message, send_prepare, send_accept,
}
use cse.MainLoop.{settle}

-- The process is about to send.
abbrev pub IsSending : Phase → Type 0
IsSending ready = Unit
IsSending accepting_next = Unit
IsSending _ = ⊥

pub data Sends (p : Proposer) : Proposer × List Output → Type 0 where
  idle : (p.phase ≡ ready → ⊥) → (p.phase ≡ accepting_next → ⊥) → Sends p (p, [])
  dies : (f : Fault) → IsSending p.phase → Sends p (record p { phase = crashed f }, [])
  asks :
      (cs sent : List ℕ)
      → p.phase ≡ ready
      → Sends p (
        record p { server_connections = cs; phase = proposing [] 0 },
        map (λ c. to_acceptor c (prepare_message p)) sent,
      )
  offers :
      (cs sent : List ℕ)
      → p.phase ≡ accepting_next
      → Sends p (
        record p { server_connections = cs; phase = accepting 0 },
        map (λ c. to_acceptor c (accept_message p)) sent,
      )

module _ (alive : ℕ → Bool) (p : Proposer) where
  send_prepare-Sends : p.phase ≡ ready → Sends p (send_prepare alive p)
  unfolding send_prepare
  send_prepare-Sends at = elim (Bool-cases (is_absent p.orig_client_id)) [
    | inl gone ↦ rw gone (dies assertion_error (subst IsSending (sym at) tt))
    | inr here ↦ rw here (asks _ _ at)
  ]

  send_accept-Sends : p.phase ≡ accepting_next → Sends p (send_accept alive p)
  unfolding send_accept
  send_accept-Sends at = elim (Bool-cases (is_absent p.learnt_client)) [
    | inl gone ↦ rw gone (dies assertion_error (subst IsSending (sym at) tt))
    | inr here ↦ rw here (offers _ _ at)
  ]

  settle_at-Sends : (ph : Phase) → p.phase ≡ ph → Sends p (settle alive ph p)
  unfolding settle
  settle_at-Sends ready at = send_prepare-Sends at
  settle_at-Sends accepting_next at = send_accept-Sends at
  settle_at-Sends Phase.listening at = idle (λ e. cc) (λ e. cc)
  settle_at-Sends Phase.reading at = idle (λ e. cc) (λ e. cc)
  settle_at-Sends Phase.finished at = idle (λ e. cc) (λ e. cc)
  settle_at-Sends (proposing nacks cnt) at = idle (λ e. cc) (λ e. cc)
  settle_at-Sends (accepting cnt) at = idle (λ e. cc) (λ e. cc)
  settle_at-Sends (crashed f) at = idle (λ e. cc) (λ e. cc)

  pub settle-Sends : Sends p (settle alive p.phase p)
  settle-Sends = settle_at-Sends p.phase refl

pub Sends-logfile :
    {p : Proposer} {r : Proposer × List Output} → Sends p r → r.0.logfile ≡ p.logfile
Sends-logfile (idle a b) = refl
Sends-logfile (dies f at) = refl
Sends-logfile (asks cs sent at) = refl
Sends-logfile (offers cs sent at) = refl

pub Sends-history :
    {p : Proposer} {r : Proposer × List Output} → Sends p r → r.0.msg_history ≡ p.msg_history
Sends-history (idle a b) = refl
Sends-history (dies f at) = refl
Sends-history (asks cs sent at) = refl
Sends-history (offers cs sent at) = refl
