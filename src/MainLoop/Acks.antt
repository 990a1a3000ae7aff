-- ===== src/MainLoop/Acks.antt =====
-- The acknowledgements to clients in initialize_proposer of problemset2/src/server.py.
use cse.Prelude.{
  ℕ, ◌≡◌, ◌∙◌, refl, Bool, true, List, [], ◌∷◌, ◌++◌, All, All-append, All-map, All-map_of,
  and_split,
}
use cse.Num.{nat, eq_num_iff}
use cse.Message.{Message, message, client_ack, cmd}
use cse.Message.Equality.{eq_value_iff}
use cse.Proposer.{Proposer, Line, Input, Output, to_acceptor, to_client, requeued}
use cse.Rounds.{is_own, client_ack_message}
use cse.MainLoop.{step, run, react, initialize_proposer}
use cse.MainLoop.Act.{
  line_of, Act, stay, requeue, rest, fail, again, gather, promised, ignore, tally, unheard, decide,
  break_down, Told, unmentioned, acknowledged,
}
use cse.MainLoop.Settling.{Sends, idle, dies, asks, offers, settle-Sends, Sends-logfile}
use cse.MainLoop.Reactions.{react-Act}
use cse.MainLoop.Induction.{Guarded, Guarded-Invariant, run-keeps}

-- From `p` to `q` the current request has been decided: the new last line of the log has its command
-- and its client.
pub record OwnLine (p q : Proposer) : Type 0 where
  pub last : Line
  pub logged : q.logfile ≡ p.logfile ++ last ∷ []
  pub instance_num : last.instance_num ≡ p.instance_num
  pub client_id : last.client_id ≡ p.orig_client_id
  pub command : last.command ≡ cmd p.client_command

-- A message to the client acknowledges the request that has been decided.
abbrev pub IsEarned : Proposer → Proposer → Output → Type 0
IsEarned p q (to_client m) =
    (m.msg_type ≡ client_ack)
    × (m.value ≡ cmd p.client_command)
    × (m.instance_num ≡ nat p.instance_num)
    × OwnLine p q
IsEarned p q (to_acceptor c m) = Unit
IsEarned p q (requeued m) = Unit

own_lem :
    (p : Proposer)
    → is_own p ≡ true
    → (p.learnt_client ≡ p.orig_client_id) × (p.learnt_command ≡ cmd p.client_command)
own_lem p h =
    let (client_is, command_is) = and_split _ _ h in
    ((eq_num_iff _ _).0 client_is, (eq_value_iff _ _).0 command_is)

Told-IsEarned :
    {p : Proposer} (q : Proposer) {m : Message} {outs : List Output}
    → q.logfile ≡ p.logfile ++ line_of p ∷ []
    → Told p m outs
    → All (IsEarned p q) outs
unfolding client_ack_message message
Told-IsEarned q e (unmentioned other) = tt
Told-IsEarned {p} q e (acknowledged own) =
    let o = own_lem p own in
    (
      (
        refl,
        refl,
        refl,
        record {
          last = line_of p;
          logged = e;
          instance_num = refl;
          client_id = o.0;
          command = o.1;
        },
      ),
      tt,
    )

Act-IsEarned : {p : Proposer} {r : Proposer × List Output} → Act p r → All (IsEarned p r.0) r.1
Act-IsEarned stay = tt
Act-IsEarned (requeue m) = (tt, tt)
Act-IsEarned (rest q i f s quiet) = tt
Act-IsEarned (fail q x w f r at) = tt
Act-IsEarned (again q k w k1 f r at) = tt
Act-IsEarned (gather q f s r at at' low) = tt
Act-IsEarned (promised q f r at at') = tt
Act-IsEarned (ignore q f s r at at') = tt
Act-IsEarned (tally q m f s c e at at' low) = tt
Act-IsEarned (unheard q m x f c e at many at') = tt
Act-IsEarned (decide q outs m locks d c at many ex locks' inst quiet told) =
    Told-IsEarned q d.logfile told
Act-IsEarned (break_down q outs m x d c at many ex locks' inst at' told) =
    Told-IsEarned q d.logfile told

Sends-IsEarned :
    (o : Proposer) {p : Proposer} {r : Proposer × List Output}
    → Sends p r
    → All (IsEarned o r.0) r.1
Sends-IsEarned o (idle a b) = tt
Sends-IsEarned o (dies f at) = tt
Sends-IsEarned o {p} (asks cs sent at) =
    All-map_of (IsEarned o _) (λ c. to_acceptor c _) (λ c. tt) sent
Sends-IsEarned o {p} (offers cs sent at) =
    All-map_of (IsEarned o _) (λ c. to_acceptor c _) (λ c. tt) sent

-- The sends after a decision do not touch the log.
carried :
    (o p q : Proposer) → q.logfile ≡ p.logfile → (x : Output) → IsEarned o p x → IsEarned o q x
carried o p q e (to_client m) h = (
  h.0,
  h.1,
  h.2,
  record {
    last = h.3.last;
    logged = e ∙ h.3.logged;
    instance_num = h.3.instance_num;
    client_id = h.3.client_id;
    command = h.3.command;
  },
)
carried o p q e (to_acceptor c m) h = tt
carried o p q e (requeued m) h = tt

step_at-IsEarned :
    (above : Message → Message → Bool) (p : Proposer) (i : Input)
    → Guarded p
    → All (IsEarned p (step above p i).0) (step above p i).1
unfolding step
step_at-IsEarned above p i g =
    let r = react above i p.phase p in
    let s = settle-Sends i.alive r.0 in
    All-append (IsEarned p (step above p i).0) r.1 _
      (All-map (IsEarned p r.0) (IsEarned p (step above p i).0) (carried p r.0 _ (Sends-logfile s))
        r.1 (Act-IsEarned (react-Act above p i g)))
      (Sends-IsEarned p s)

-- In every run, a step sends the client nothing but a CLIENT_ACK for the current instance with the
-- command of the open request, and only if in this step the log gets the line of this instance with
-- that command and that client.
pub step-IsEarned :
    (above : Message → Message → Bool) (server_id group_size : ℕ) (conns : List ℕ) (is : List Input)
    (i : Input)
    → let p = (run above (initialize_proposer server_id group_size conns) is).0 in
      All (IsEarned p (step above p i).0) (step above p i).1
unfolding initialize_proposer
step-IsEarned above server_id group_size conns is i =
    step_at-IsEarned above _ i (run-keeps above Guarded-Invariant is _ tt tt)
