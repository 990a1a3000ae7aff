-- ===== src/Validate/Logs.antt =====
-- The validator of problemset2/src/lock_file.py against the logs of problemset2/src/server.py.
use cse.Prelude.{
  if◌then◌else◌, append-nil, ℕ, ◌≡◌, ◌≢◌, refl, ◌∙◌, sym, ap, subst, Bool, List, [], ◌∷◌, ◌++◌, ◌⊎◌,
  inl, inr, Option, some, none, All, arith, Bool-cases, ◌==◌,
}
use cse.Command.{CommandType, lock, unlock, none_type, ℤ}
use cse.Message.{Message, Value, number, cmd}
use cse.LockSet.{contains, remove, execute, execute_command}
use cse.Proposer.{Fault, Line, Proposer, Input}
use cse.Rounds.{Executed, ran, failed, or_failed, execute_value}
use cse.MainLoop.{run, initialize_proposer}
use cse.MainLoop.Replica.{replay, resume, InStep, BrokeDown, IsReplica, run-IsReplica}
use cse.Validate.{
  Verdict, valid, field_count, validate_command, validate_value, validate_lines, validate_lock_file,
}

-- The line has three fields for the validator: no id in it is negative.
abbrev pub IsPlain : Line → Type 0
IsPlain l = field_count l ≡ 3

-- How the validator goes on from what the state machine makes of a command.
abbrev after : Verdict → Option (List ℤ) → (List ℤ → Verdict) → Verdict
after bad none rest = bad
after bad (some locks) rest = rest locks

abbrev refusal : CommandType → Verdict
refusal lock = Verdict.failed
refusal unlock = Verdict.failed
refusal none_type = Verdict.invalid

-- The validator and the state machine have the same assertions.
validate_command-execute :
    (t : CommandType) (r : ℤ) (locks : List ℤ) (rest : List ℤ → Verdict)
    → validate_command t r locks rest ≡ after (refusal t) (execute t r locks) rest
unfolding execute validate_command
validate_command-execute lock r locks rest = elim (Bool-cases (contains r locks)) [
  | inl held ↦ rw held refl
  | inr free ↦ elim (Bool-cases (contains r (locks ++ r ∷ []))) [
    | inl more ↦ rw (free, more) refl
    | inr still ↦ rw (free, still) refl
  ]
]
validate_command-execute unlock r locks rest = elim (Bool-cases (contains r locks)) [
  | inl held ↦ elim (Bool-cases (contains r (remove r locks))) [
    | inl still ↦ rw (held, still) refl
    | inr fewer ↦ rw (held, fewer) refl
  ]
  | inr free ↦ rw free refl
]
validate_command-execute none_type r locks rest = refl

refusal_lem : (t : CommandType) → refusal t ≢ valid
refusal_lem t h = ground arith

or_failed_lem :
    (bad : Verdict) (o : Option (List ℤ)) (rest : List ℤ → Verdict) {locks : List ℤ}
    → or_failed o ≡ ran locks
    → after bad o rest ≡ rest locks
unfolding or_failed
or_failed_lem bad none rest h = cc
or_failed_lem bad (some k) rest h = let e : k ≡ _ = cc in ap rest e

or_failed-failed :
    (bad : Verdict) (o : Option (List ℤ)) (rest : List ℤ → Verdict) {f : Fault}
    → or_failed o ≡ failed f
    → after bad o rest ≡ bad
unfolding or_failed
or_failed-failed bad none rest h = refl
or_failed-failed bad (some k) rest h = cc

-- A line that the state machine executes is one that the validator goes on from, with the same locks.
validate_value-ran :
    (v : Value) (locks : List ℤ) {locks' : List ℤ} (rest : List ℤ → Verdict)
    → execute_value v locks ≡ ran locks'
    → validate_value v locks rest ≡ rest locks'
unfolding execute_value validate_value execute_command
validate_value-ran (number n) locks rest h = cc
validate_value-ran (cmd c) locks rest h =
    validate_command-execute c.command_type c.resource_id locks rest
    ∙ or_failed_lem (refusal c.command_type) (execute c.command_type c.resource_id locks) rest h

-- A line that the state machine fails on is not valid.
validate_value-failed :
    (v : Value) (locks : List ℤ) {f : Fault} (rest : List ℤ → Verdict)
    → execute_value v locks ≡ failed f
    → validate_value v locks rest ≢ valid
unfolding execute_value validate_value execute_command
validate_value-failed (number n) locks rest h e = cc
validate_value-failed (cmd c) locks rest h e = refusal_lem c.command_type (
    sym (
      or_failed-failed (refusal c.command_type) (execute c.command_type c.resource_id locks) rest h)
    ∙ sym (validate_command-execute c.command_type c.resource_id locks rest)
    ∙ e)

-- Over lines that the state machine executes, the validator follows it.
resume_lem :
    (r : Executed) (v : Value) (locks : List ℤ) (ls : List Line) (rest : List ℤ → Verdict)
    {end : List ℤ} {verdict : Verdict}
    → execute_value v locks ≡ r
    → ((k : List ℤ) → replay ls k ≡ some end → rest k ≡ verdict)
    → resume r (replay ls) ≡ some end
    → validate_value v locks rest ≡ verdict
resume_lem (ran k) v locks ls rest e ih h = validate_value-ran v locks rest e ∙ ih k h
resume_lem (failed f) v locks ls rest e ih h = cc

validate_lines-replay :
    (ls more : List Line) (locks : List ℤ) {end : List ℤ}
    → All IsPlain ls
    → replay ls locks ≡ some end
    → validate_lines (ls ++ more) locks ≡ validate_lines more end
unfolding validate_lines
validate_lines-replay [] more locks plain h = let e : locks ≡ _ = cc in ap (validate_lines more) e
validate_lines-replay (l ∷ ls) more locks plain h = rw plain.0 (
    resume_lem (execute_value l.command locks) l.command locks ls (validate_lines (ls ++ more)) refl
      (λ k. validate_lines-replay ls more k plain.1) h)

-- What the validator says of the log of a process.
abbrev pub Judged : Proposer → Type 0
Judged p =
    (InStep p × (validate_lock_file p.logfile ≡ valid))
    ⊎ (BrokeDown p × (validate_lock_file p.logfile ≢ valid))

front : (ls : List Line) (l : Line) → All IsPlain (ls ++ l ∷ []) → All IsPlain ls
front [] l h = tt
front (x ∷ ls) l h = (h.0, front ls l h.1)

-- The validator on the last line.
last_line :
    (l : Line) (locks : List ℤ) {f : Fault}
    → execute_value l.command locks ≡ failed f
    → validate_lines (l ∷ []) locks ≢ valid
unfolding validate_lines
last_line l locks h e = elim (Bool-cases (field_count l == 3)) [
  | inl three ↦ validate_value-failed l.command locks (validate_lines []) h (
      subst
        (λ b.
          (if b then validate_value l.command locks (validate_lines []) else Verdict.failed)
          ≡ valid)
        three e)
  | inr other ↦
      let bad : Verdict.failed ≡ valid =
        subst
          (λ b.
            (if b then validate_value l.command locks (validate_lines []) else Verdict.failed)
            ≡ valid)
          other e in
      ground arith
]

judge : (p : Proposer) → All IsPlain p.logfile → IsReplica p → Judged p
unfolding validate_lock_file validate_lines
judge p plain (inl h) = inl (
  h,
  ap (λ ls. validate_lines ls []) (sym (append-nil p.logfile))
      ∙ validate_lines-replay p.logfile [] [] plain h.replayed,
)
judge p plain (inr h) =
    let whole : All IsPlain (h.before ++ h.last ∷ []) = subst (All IsPlain) h.logged plain in
    inr (
      h,
      λ e. last_line h.last p.lock_set h.refused (
          sym (
            validate_lines-replay h.before (h.last ∷ []) [] (front h.before h.last whole)
              h.replayed)
          ∙ ap (λ ls. validate_lines ls []) (sym h.logged)
          ∙ e),
    )

-- In every run, if no id in the log is negative, the validator accepts the log as long as the process
-- has not crashed on a decided command, and afterwards it does not.
pub validate_lock_file-run :
    (above : Message → Message → Bool) (server_id group_size : ℕ) (conns : List ℕ) (is : List Input)
    → All IsPlain (run above (initialize_proposer server_id group_size conns) is).0.logfile
    → Judged (run above (initialize_proposer server_id group_size conns) is).0
validate_lock_file-run above server_id group_size conns is plain =
    judge _ plain (run-IsReplica above server_id group_size conns is)
