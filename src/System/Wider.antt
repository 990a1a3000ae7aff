-- ===== src/System/Wider.antt =====
-- More offers do no harm: the invariants of Grants and of Belief are monotone in what was offered.
use cse.Prelude.{ℕ, Option, some, none, List, inl, inr, All-map}
use cse.Num.{Num}
use cse.Message.{Value}
use cse.Acceptor.{Entry, Acceptor, Reply, lookup}
use cse.Proposer.{
  Phase, listening, reading, ready, accepting_next, finished, proposing, accepting, crashed,
  Proposer,
}
use cse.MainLoop.Belief.{Knows, Backed, JustifiedAt, Justified}
use cse.System.Answers.{IsTrueOption}
use cse.System.Grants.{Grants}

module _ (O P : ℕ → Value → Num → Type 0)
    (wider : (i : ℕ) (v : Value) (c : Num) → O i v c → P i v c) where
  Knows-map : (p : Proposer) → Knows O p → Knows P p
  Knows-map p (inl own) = inl own
  Knows-map p (inr off) = inr (wider p.instance_num p.learnt_command p.learnt_client off)

  Backed-map : (p : Proposer) → Backed O p → Backed P p
  Backed-map p (inl own) = inl own
  Backed-map p (inr off) = inr (wider p.instance_num p.learnt_command p.learnt_client off)

  JustifiedAt-map : (ph : Phase) (p : Proposer) → JustifiedAt O ph p → JustifiedAt P ph p
  JustifiedAt-map ready p j = Knows-map p j
  JustifiedAt-map (proposing nacks cnt) p j = (
    Knows-map p j.0,
    All-map (λ m. O p.instance_num m.value m.client_id) (λ m. P p.instance_num m.value m.client_id)
        (λ m. wider p.instance_num m.value m.client_id) nacks j.1,
    j.2,
  )
  JustifiedAt-map accepting_next p j = Backed-map p j
  JustifiedAt-map (accepting cnt) p j = Backed-map p j
  JustifiedAt-map listening p j = tt
  JustifiedAt-map reading p j = tt
  JustifiedAt-map finished p j = tt
  JustifiedAt-map (crashed f) p j = tt

  pub Justified-map : (p : Proposer) → Justified O p → Justified P p
  Justified-map p j = JustifiedAt-map p.phase p j

  IsTrueOption-map : (k : Num) (o : Option Entry) → IsTrueOption O k o → IsTrueOption P k o
  IsTrueOption-map k none h = tt
  IsTrueOption-map k (some e) (inl h) = inl h
  IsTrueOption-map k (some e) (inr h) = inr (h.0, λ i at. wider i e.accv e.cid (h.1 i at))

  pub Grants-map : {n : ℕ} {f : ℕ → Acceptor} {rs : List Reply} → Grants O n f rs → Grants P n f rs
  Grants-map {n} {f} g = record {
    ids = g.ids;
    entries = λ s k. IsTrueOption-map k (lookup k (f s).history) (g.entries s k);
    reports = λ r m t i at. wider i r.1.value r.1.client_id (g.reports r m t i at);
    origins = g.origins;
    unique = g.unique;
  }
