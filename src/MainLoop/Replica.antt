-- ===== src/MainLoop/Replica.antt =====
-- The replicated state machine of a server: lock_set against the log and the resolutions of
-- initialize_proposer in problemset2/src/server.py.
use cse.MainLoop.Induction.{run-keeps}
use cse.MainLoop.{run, Input, accepting, Bool, initialize_proposer}
use cse.LockSet.{execute_command}
use cse.MainLoop.Settling.{IsSending, offers, asks, dies, idle, Sends}
use cse.Prelude.{
  subst₂, length-append, false, ℕ, suc, ◌+◌, ◌≡◌, refl, sym, ◌∙◌, ap, subst, ◌⊎◌, inl, inr, List,
  [], ◌∷◌, ◌++◌, Option, some, none, length, arith, ◌==◌,
}
use cse.Num.{Num}
use cse.Command.{ℤ}
use cse.Message.{Value, number, cmd, Message}
use cse.LockSet.Laws.{IsDistinct, execute-Executes}
use cse.Proposer.{proposing, Phase, crashed, Fault, Line, Proposer, Output, resolve}
use cse.Rounds.{or_failed, Executed, ran, failed, execute_value}
use cse.MainLoop.Act.{
  stay, break_down, decide, unheard, tally, ignore, promised, gather, again, fail, rest, requeue,
  Act, Frame, Decided, line_of, IsIdle, IsWaiting,
}

-- What the commands of the log make of a lock_set; `none` where one of them cannot be executed.
abbrev pub resume : Executed → (List ℤ → Option (List ℤ)) → Option (List ℤ)
resume (ran locks) next = next locks
resume (failed f) next = none

abbrev pub replay : List Line → List ℤ → Option (List ℤ)
replay [] locks = some locks
replay (l ∷ ls) locks = resume (execute_value l.command locks) (replay ls)

resume-replay :
    (r : Executed) (ls : List Line) (l : Line) {end : List ℤ}
    → ((k : List ℤ)
        → replay ls k ≡ some end
        → replay (ls ++ l ∷ []) k ≡ resume (execute_value l.command end) some)
    → resume r (replay ls) ≡ some end
    → resume r (replay (ls ++ l ∷ [])) ≡ resume (execute_value l.command end) some
resume-replay (ran k) ls l ih h = ih k h
resume-replay (failed f) ls l ih h = cc

pub replay-append :
    (ls : List Line) (l : Line) (locks : List ℤ) {end : List ℤ}
    → replay ls locks ≡ some end
    → replay (ls ++ l ∷ []) locks ≡ resume (execute_value l.command end) some
replay-append [] l locks h = cc
replay-append (x ∷ ls) l locks h =
    resume-replay (execute_value x.command locks) ls l (λ k. replay-append ls l k) h

-- The log and the dict hold the commands of the instances 0, 1, ... in this order.
abbrev pub Records : ℕ → List (ℕ × (Value × Num)) → List Line → Type 0
Records k [] [] = Unit
Records k [] (l ∷ ls) = ⊥
Records k ((j, v) ∷ rs) [] = ⊥
Records k ((j, v) ∷ rs) (l ∷ ls) =
    (j ≡ k) × (l.instance_num ≡ k) × (v.0 ≡ l.command) × Records (suc k) rs ls

Records-resolve :
    (k i : ℕ) (v : Value × Num) (rs : List (ℕ × (Value × Num))) (ls : List Line) (l : Line)
    → Records k rs ls
    → i ≡ k + length ls
    → l.instance_num ≡ i
    → v.0 ≡ l.command
    → Records k (resolve i v rs) (ls ++ l ∷ [])
unfolding resolve
Records-resolve k i v [] [] l h e n c = (omega arith, omega arith, c, tt)
Records-resolve k i v [] (x ∷ ls) l h e n c = absurd h
Records-resolve k i v ((j, w) ∷ rs) [] l h e n c = absurd h
Records-resolve k i v ((j, w) ∷ rs) (x ∷ ls) l h e n c =
    let differs : (j == i) ≡ false = ground arith in
    rw differs (h.0, h.1, h.2, Records-resolve (suc k) i v rs ls l h.3 (omega arith) n c)

-- The log has been executed, one instance for each line, on distinct resources.
pub record InStep (p : Proposer) : Type 0 where
  pub replayed : replay p.logfile [] ≡ some p.lock_set
  pub distinct : IsDistinct p.lock_set
  pub counted : p.instance_num ≡ length p.logfile
  pub recorded : Records 0 p.instance_resolutions p.logfile

-- The process has ended on the last line of the log, with the exception of its execution.
pub record BrokeDown (p : Proposer) : Type 0 where
  pub before : List Line
  pub last : Line
  pub fault : Fault
  pub ended : p.phase ≡ crashed fault
  pub logged : p.logfile ≡ before ++ last ∷ []
  pub replayed : replay before [] ≡ some p.lock_set
  pub refused : execute_value last.command p.lock_set ≡ failed fault

abbrev pub IsReplica : Proposer → Type 0
IsReplica p = InStep p ⊎ BrokeDown p

or_failed-ran : (o : Option (List ℤ)) {locks : List ℤ} → or_failed o ≡ ran locks → o ≡ some locks
unfolding or_failed
or_failed-ran none h = cc
or_failed-ran (some k) h = cc

execute_value-IsDistinct :
    (v : Value) (locks : List ℤ) {locks' : List ℤ}
    → IsDistinct locks
    → execute_value v locks ≡ ran locks'
    → IsDistinct locks'
unfolding execute_value
execute_value-IsDistinct (number n) locks d h = cc
execute_value-IsDistinct (cmd c) locks d h =
    (execute-Executes c.command_type c.resource_id locks d
      (unfold execute_command in or_failed-ran (execute_command c locks) h)).1

module _ {p : Proposer} where
  Frame-InStep : (q : Proposer) (k : ℕ) → Frame p q k → InStep p → InStep q
  Frame-InStep q k f h = record {
    replayed = ap (λ ls. replay ls []) f.logfile ∙ h.replayed ∙ ap some (sym f.lock_set);
    distinct = subst IsDistinct (sym f.lock_set) h.distinct;
    counted = f.instance_num ∙ h.counted ∙ ap length (sym f.logfile);
    recorded = subst₂ (λ rs ls. Records 0 rs ls) (sym f.resolutions) (sym f.logfile) h.recorded;
  }

  logged_line :
      (q : Proposer) (m : Message)
      → Decided p q m
      → InStep p
      → replay q.logfile [] ≡ resume (execute_value p.learnt_command p.lock_set) some
  logged_line q m d h =
      ap (λ ls. replay ls []) d.logfile ∙ replay-append p.logfile (line_of p) [] h.replayed

  decide-InStep :
      (q : Proposer) (m : Message) (locks : List ℤ)
      → Decided p q m
      → execute_value p.learnt_command p.lock_set ≡ ran locks
      → q.lock_set ≡ locks
      → q.instance_num ≡ p.instance_num + 1
      → InStep p
      → InStep q
  decide-InStep q m locks d ex locks' inst h = record {
    replayed = logged_line q m d h ∙ ap (λ r. resume r some) ex ∙ ap some (sym locks');
    distinct =
        subst IsDistinct (sym locks')
          (execute_value-IsDistinct p.learnt_command p.lock_set h.distinct ex);
    counted =
        rw (d.logfile, length-append p.logfile (line_of p ∷ [])) (omega (arith, inst, h.counted));
    recorded =
        subst₂ (λ rs ls. Records 0 rs ls) (sym d.resolutions) (sym d.logfile)
          (Records-resolve 0 p.instance_num _ p.instance_resolutions p.logfile (line_of p)
            h.recorded (omega (arith, h.counted)) refl refl);
  }

  -- A process that has crashed does nothing.
  crashed_stays : {r : Proposer × List Output} (f : Fault) → Act p r → p.phase ≡ crashed f → r.0 ≡ p
  crashed_stays f stay e = refl
  crashed_stays f (requeue m) e = refl
  crashed_stays f (rest q i fr s quiet) e = absurd (subst IsIdle e i)
  crashed_stays f (fail q x w fr r at) e = absurd (subst IsWaiting e w)
  crashed_stays f (again q k w k1 fr r at) e = absurd (subst IsWaiting e w)
  crashed_stays f (gather q fr s r at at' low) e = cc
  crashed_stays f (promised q fr r at at') e = cc
  crashed_stays f (ignore q fr s r at at') e = cc
  crashed_stays f (tally q m fr s c x at at' low) e = cc
  crashed_stays f (unheard q m x fr c y at many at') e = cc
  crashed_stays f (decide q outs m locks d c at many ex locks' inst quiet told) e = cc
  crashed_stays f (break_down q outs m x d c at many ex locks' inst at' told) e = cc

  Act-InStep : {r : Proposer × List Output} → Act p r → InStep p → IsReplica r.0
  Act-InStep stay h = inl h
  Act-InStep (requeue m) h = inl h
  Act-InStep (rest q i f s quiet) h = inl (Frame-InStep q 0 f h)
  Act-InStep (fail q x w f r at) h = inl (Frame-InStep q 0 f h)
  Act-InStep (again q k w k1 f r at) h = inl (Frame-InStep q k f h)
  Act-InStep (gather q f s r at at' low) h = inl (Frame-InStep q 0 f h)
  Act-InStep (promised q f r at at') h = inl (Frame-InStep q 0 f h)
  Act-InStep (ignore q f s r at at') h = inl (Frame-InStep q 0 f h)
  Act-InStep (tally q m f s c x at at' low) h = inl (Frame-InStep q 0 f h)
  Act-InStep (unheard q m x f c y at many at') h = inl (Frame-InStep q 1 f h)
  Act-InStep (decide q outs m locks d c at many ex locks' inst quiet told) h =
      inl (decide-InStep q m locks d ex locks' inst h)
  Act-InStep (break_down q outs m x d c at many ex locks' inst at' told) h = inr (record {
    before = p.logfile;
    last = line_of p;
    fault = x;
    ended = at';
    logged = d.logfile;
    replayed = h.replayed ∙ ap some (sym locks');
    refused = ap (execute_value p.learnt_command) locks' ∙ ex;
  })

pub Act-IsReplica :
    {p : Proposer} {r : Proposer × List Output} → Act p r → IsReplica p → IsReplica r.0
Act-IsReplica a (inl h) = Act-InStep a h
Act-IsReplica a (inr h) = inr (subst BrokeDown (sym (crashed_stays h.fault a h.ended)) h)

-- A broken process sends nothing, and a send changes neither the log nor the locks.
resend :
    {p : Proposer} (cs : List ℕ) (ph : Phase)
    → InStep p
    → InStep (record p { server_connections = cs; phase = ph })
resend cs ph h = record {
  replayed = h.replayed;
  distinct = h.distinct;
  counted = h.counted;
  recorded = h.recorded;
}

sending_InStep : {p : Proposer} → IsSending p.phase → IsReplica p → InStep p
sending_InStep s (inl h) = h
sending_InStep s (inr h) = absurd (subst IsSending h.ended s)

pub Sends-IsReplica :
    {p : Proposer} {r : Proposer × List Output} → Sends p r → IsReplica p → IsReplica r.0
Sends-IsReplica (idle a b) h = h
Sends-IsReplica {p} (dies f at) h =
    inl (resend p.server_connections (crashed f) (sending_InStep at h))
Sends-IsReplica (asks cs sent at) h =
    inl (resend cs (proposing [] 0) (sending_InStep (subst IsSending (sym at) tt) h))
Sends-IsReplica (offers cs sent at) h =
    inl (resend cs (accepting 0) (sending_InStep (subst IsSending (sym at) tt) h))

-- In every run from the start, either the log has one line for each instance 0, 1, ... below
-- instance_num, instance_resolutions has the same commands under the same numbers, and lock_set is
-- what the commands of the log make of the empty set, without duplicates; or the process has crashed
-- with the exception of the last line, and lock_set is what the lines before it make.
pub run-IsReplica :
    (above : Message → Message → Bool) (server_id group_size : ℕ) (conns : List ℕ) (is : List Input)
    → IsReplica (run above (initialize_proposer server_id group_size conns) is).0
unfolding initialize_proposer
run-IsReplica above server_id group_size conns is =
    run-keeps above (record { act = Act-IsReplica; sends = Sends-IsReplica }) is _ tt
      (inl (record { replayed = refl; distinct = tt; counted = refl; recorded = tt }))
