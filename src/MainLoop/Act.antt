-- ===== src/MainLoop/Act.antt =====
-- The proposer's reactions as an abstract step relation, which forgets the tests of the code and
-- keeps what each reaction does to the state. `react` is shown to take only such steps.
use cse.Prelude.{ℕ, ◌+◌, ◌*◌, ◌/◌, ◌≤◌, ◌<◌, ◌≡◌, true, false, List, [], ◌∷◌, ◌++◌}
use cse.Num.{nat}
use cse.Command.{ℤ}
use cse.Message.{accept_ack, Message, seen}
use cse.Proposer.{
  Fault, Phase, listening, reading, ready, accepting_next, proposing, accepting, crashed, Line,
  Proposer, Output, requeued, to_client, resolve,
}
use cse.Rounds.{is_own, client_ack_message, ran, failed, execute_value}

-- What a reaction outside of a decision leaves alone; the proposal number grows by `k` rounds.
abbrev pub Frame : Proposer → Proposer → ℕ → Type 0
Frame p q k = record {
  server_id : q.server_id ≡ p.server_id;
  group_size : q.group_size ≡ p.group_size;
  connections : q.server_connections ≡ p.server_connections;
  grown : q.proposer_num ≡ p.proposer_num + k * p.group_size;
  instance_num : q.instance_num ≡ p.instance_num;
  lock_set : q.lock_set ≡ p.lock_set;
  resolutions : q.instance_resolutions ≡ p.instance_resolutions;
  logfile : q.logfile ≡ p.logfile;
}

-- The request and what was learnt for it are left alone.
abbrev pub SameRequest : Proposer → Proposer → Type 0
SameRequest p q = record {
  client_command : q.client_command ≡ p.client_command;
  orig_client_id : q.orig_client_id ≡ p.orig_client_id;
  learnt_command : q.learnt_command ≡ p.learnt_command;
  learnt_client : q.learnt_client ≡ p.learnt_client;
}

-- The message history is kept, or has one message more that was not in it.
pub data Remembers (old : List Message) : List Message → Type 0 where
  same : Remembers old old
  new : (m : Message) → seen m old ≡ false → Remembers old (m ∷ old)

-- The process is in no loop of a round.
abbrev pub IsResting : Phase → Type 0
IsResting (proposing _ _) = ⊥
IsResting (accepting _) = ⊥
IsResting accepting_next = ⊥
IsResting _ = Unit

-- No request is open.
abbrev pub IsIdle : Phase → Type 0
IsIdle listening = Unit
IsIdle reading = Unit
IsIdle _ = ⊥

-- The process waits for answers.
abbrev pub IsWaiting : Phase → Type 0
IsWaiting (proposing _ _) = Unit
IsWaiting (accepting _) = Unit
IsWaiting _ = ⊥

-- The line that a decision writes.
abbrev pub line_of : Proposer → Line
line_of p = record {
  instance_num = p.instance_num;
  client_id = p.learnt_client;
  command = p.learnt_command;
}

-- `m` is a new ACCEPT_ACK for the current proposal.
pub record Counts (p : Proposer) (m : Message) : Type 0 where
  pub unseen : seen m p.msg_history ≡ false
  pub kind : m.msg_type ≡ accept_ack
  pub about : m.instance_num ≡ nat p.instance_num
  pub proposal : m.proposal ≡ nat p.proposer_num

-- What a decision does to the log, besides the number and the history.
pub record Decided (p q : Proposer) (m : Message) : Type 0 where
  pub server_id : q.server_id ≡ p.server_id
  pub group_size : q.group_size ≡ p.group_size
  pub grown : q.proposer_num ≡ p.proposer_num + p.group_size
  pub history : q.msg_history ≡ m ∷ p.msg_history
  pub logfile : q.logfile ≡ p.logfile ++ line_of p ∷ []
  pub resolutions :
      q.instance_resolutions
      ≡ resolve p.instance_num (p.learnt_command, m.client_id) p.instance_resolutions

-- The client hears of a decision exactly if the decided command is its own.
pub data Told (p : Proposer) (m : Message) : List Output → Type 0 where
  unmentioned : is_own p ≡ false → Told p m []
  acknowledged : is_own p ≡ true → Told p m (to_client (client_ack_message m p) ∷ [])

-- The test of the loop that the process is in has passed.
abbrev pub InLoop : ℕ → Phase → Type 0
InLoop n (proposing nacks cnt) = cnt ≤ n / 2
InLoop n (accepting cnt) = cnt ≤ n / 2
InLoop n _ = Unit

pub data Act (p : Proposer) : Proposer × List Output → Type 0 where
  stay : Act p (p, [])
  requeue : (m : Message) → Act p (p, requeued m ∷ [])
  -- a client comes, asks or leaves, or the process ends
  rest :
      (q : Proposer)
      → IsIdle p.phase
      → Frame p q 0
      → q.msg_history ≡ p.msg_history
      → IsResting q.phase
      → Act p (q, [])
  -- an exception
  fail :
      (q : Proposer) (f : Fault)
      → IsWaiting p.phase
      → Frame p q 0
      → Remembers p.msg_history q.msg_history
      → q.phase ≡ crashed f
      → Act p (q, [])
  -- the loops of PROPOSING and of ACCEPTING give up the round
  again :
      (q : Proposer) (k : ℕ)
      → IsWaiting p.phase
      → 1 ≤ k
      → Frame p q k
      → Remembers p.msg_history q.msg_history
      → q.phase ≡ ready
      → Act p (q, [])
  -- one more turn of the loop of PROPOSING
  gather :
      (q : Proposer) {nacks nacks' : List Message} {cnt cnt' : ℕ}
      → Frame p q 0
      → SameRequest p q
      → Remembers p.msg_history q.msg_history
      → p.phase ≡ proposing nacks cnt
      → q.phase ≡ proposing nacks' cnt'
      → cnt' ≤ p.group_size / 2
      → Act p (q, [])
  -- a majority of answers
  promised :
      (q : Proposer) {nacks : List Message} {cnt : ℕ}
      → Frame p q 0
      → Remembers p.msg_history q.msg_history
      → p.phase ≡ proposing nacks cnt
      → q.phase ≡ accepting_next
      → Act p (q, [])
  -- a turn of the loop of ACCEPTING that counts nothing
  ignore :
      (q : Proposer) {cnt : ℕ}
      → Frame p q 0
      → SameRequest p q
      → Remembers p.msg_history q.msg_history
      → p.phase ≡ accepting cnt
      → q.phase ≡ accepting cnt
      → Act p (q, [])
  -- a turn that counts an ACCEPT_ACK
  tally :
      (q : Proposer) {cnt : ℕ} (m : Message)
      → Frame p q 0
      → SameRequest p q
      → Counts p m
      → q.msg_history ≡ m ∷ p.msg_history
      → p.phase ≡ accepting cnt
      → q.phase ≡ accepting (cnt + 1)
      → cnt + 1 ≤ p.group_size / 2
      → Act p (q, [])
  -- a decision that cannot be told to the client
  unheard :
      (q : Proposer) {cnt : ℕ} (m : Message) (f : Fault)
      → Frame p q 1
      → Counts p m
      → q.msg_history ≡ m ∷ p.msg_history
      → p.phase ≡ accepting cnt
      → p.group_size / 2 < cnt + 1
      → q.phase ≡ crashed f
      → Act p (q, [])
  -- a decision, told to the client if the command is its own
  decide :
      (q : Proposer) (outs : List Output) {cnt : ℕ} (m : Message) (locks : List ℤ)
      → Decided p q m
      → Counts p m
      → p.phase ≡ accepting cnt
      → p.group_size / 2 < cnt + 1
      → execute_value p.learnt_command p.lock_set ≡ ran locks
      → q.lock_set ≡ locks
      → q.instance_num ≡ p.instance_num + 1
      → IsResting q.phase
      → Told p m outs
      → Act p (q, outs)
  -- a decision whose command cannot be executed
  break_down :
      (q : Proposer) (outs : List Output) {cnt : ℕ} (m : Message) (f : Fault)
      → Decided p q m
      → Counts p m
      → p.phase ≡ accepting cnt
      → p.group_size / 2 < cnt + 1
      → execute_value p.learnt_command p.lock_set ≡ failed f
      → q.lock_set ≡ p.lock_set
      → q.instance_num ≡ p.instance_num
      → q.phase ≡ crashed f
      → Told p m outs
      → Act p (q, outs)
