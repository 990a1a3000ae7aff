-- ===== src/MainLoop/Numbering.antt =====
-- The log of initialize_proposer in problemset2/src/server.py is numbered: its lines are about the
-- instances 0, 1, ..., also when the process has crashed on the last one.
use cse.Prelude.{◌∙◌, ℕ, suc, ◌+◌, ◌≡◌, sym, subst, List, [], ◌∷◌, ◌++◌, inl, inr, length, arith}
use cse.Proposer.{Line, accepting, crashed, Proposer}
use cse.MainLoop.Act.{line_of}
use cse.MainLoop.Settling.{Sends-logfile}
use cse.MainLoop.Induction.{Invariant}
use cse.MainLoop.Statements.{Logs, nothing, its_line, Act-Logs}
use cse.MainLoop.Replica.{IsReplica, Act-IsReplica, Sends-IsReplica}

abbrev pub IsNumbered : ℕ → List Line → Type 0
IsNumbered k [] = Unit
IsNumbered k (l ∷ ls) = (l.instance_num ≡ k) × IsNumbered (suc k) ls

IsNumbered-append :
    (k : ℕ) (ls : List Line) (l : Line)
    → IsNumbered k ls
    → l.instance_num ≡ k + length ls
    → IsNumbered k (ls ++ l ∷ [])
IsNumbered-append k [] l h e = (omega (arith, e), tt)
IsNumbered-append k (x ∷ ls) l h e = (h.0, IsNumbered-append (suc k) ls l h.1 (omega (arith, e)))

-- A replica with a numbered log.
abbrev pub IsNumberedReplica : Proposer → Type 0
IsNumberedReplica p = IsReplica p × IsNumbered 0 p.logfile

Logs-IsNumbered :
    {p : Proposer} {new : List Line}
    → Logs p new
    → IsReplica p
    → IsNumbered 0 p.logfile
    → IsNumbered 0 new
Logs-IsNumbered (nothing same) r h = subst (IsNumbered 0) (sym same) h
Logs-IsNumbered {p} (its_line cnt at more) (inl r) h =
    subst (IsNumbered 0) (sym more)
      (IsNumbered-append 0 p.logfile (line_of p) h (omega (arith, r.counted)))
Logs-IsNumbered {p} (its_line cnt at more) (inr r) h =
    let e : accepting cnt ≡ crashed r.fault = sym at ∙ r.ended in absurd (ground (arith, e))

pub IsNumberedReplica-Invariant : Invariant IsNumberedReplica
IsNumberedReplica-Invariant = record {
  act = λ a h. (Act-IsReplica a h.0, Logs-IsNumbered (Act-Logs a) h.0 h.1);
  sends = λ s h. (Sends-IsReplica s h.0, subst (IsNumbered 0) (sym (Sends-logfile s)) h.1);
}
