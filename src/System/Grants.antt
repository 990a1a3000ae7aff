-- ===== src/System/Grants.antt =====
-- What the acceptors of problemset2/src/server.py tell the proposers, over a whole group: a
-- PREPARE_NACK reports an offer, and an acceptor sends one PREPARE_ACK that counts for an instance.
use cse.Prelude.{
  ◌++◌, ◌∷◌, ℕ, ◌<◌, ◌≡◌, ◌≢◌, ◌∙◌, refl, sym, ap, subst, true, List, some, none, inl, inr, Memᴰ,
  Bool-cases, if◌then◌else◌, ◌==◌, ==_iff,
}
use cse.Num.{nat-injective, Num, nat, eq_num, eq_num_iff}
use mathlib.Core.List.Memᴰ.{head, tail}
use cse.Message.{Value, Message}
use cse.Acceptor.{is_acceptor_type, Delivery, Entry, Acceptor, Reply, lookup, insert}
use cse.Acceptor.Table.{lookup-insert}
use cse.Acceptor.Effect.{answers, silent, Effect, Answer}
use cse.System.{set_member}
use cse.System.Answers.{
  IsGrant, IsTrueEntry, IsTrueOption, IsRequest, IsTrueReply, Answer-type, Answer-entry,
  Answer-reply, Answer-grant,
}

module _ (Offer : ℕ → Value → Num → Type 0) where
  -- What holds of the acceptors of a group of `n`, and of all their replies.
  pub record Grants (n : ℕ) (f : ℕ → Acceptor) (rs : List Reply) : Type 0 where
    pub ids : (s : ℕ) → (f s).server_id ≡ s
    pub entries : (s : ℕ) (k : Num) → IsTrueOption Offer k (lookup k (f s).history)
    pub reports : (r : Reply) → Memᴰ r rs → IsTrueReply Offer r.1
    pub origins :
        (r : Reply)
        → Memᴰ r rs
        → IsGrant r.1
        → (s : ℕ) × (s < n)
          × (r.1.origin_id ≡ nat s)
          × (lookup r.1.instance_num (f s).history ≢ none)
    pub unique :
        (r t : Reply)
        → Memᴰ r rs
        → Memᴰ t rs
        → IsGrant r.1
        → IsGrant t.1
        → r.1.origin_id ≡ t.1.origin_id
        → r.1.instance_num ≡ t.1.instance_num
        → r ≡ t

  update_self : (f : ℕ → Acceptor) (s : ℕ) (b : Acceptor) → set_member f s b s ≡ b
  update_self f s b = rw ((==_iff s s).1 refl) refl

  -- A member whose table says the same.
  entries-set_member :
      (f : ℕ → Acceptor) (s : ℕ) (b : Acceptor)
      → ((k : Num) → IsTrueOption Offer k (lookup k b.history))
      → ((t : ℕ) (k : Num) → IsTrueOption Offer k (lookup k (f t).history))
      → (t : ℕ) (k : Num) → IsTrueOption Offer k (lookup k (set_member f s b t).history)
  entries-set_member f s b h old t k = elim (Bool-cases (t == s)) [
    | inl here ↦ rw here (h k)
    | inr there ↦ rw there (old t k)
  ]

  ids-set_member :
      (f : ℕ → Acceptor) (s : ℕ) (b : Acceptor)
      → b.server_id ≡ s
      → ((t : ℕ) → (f t).server_id ≡ t)
      → (t : ℕ) → (set_member f s b t).server_id ≡ t
  ids-set_member f s b e old t = elim (Bool-cases (t == s)) [
    | inl here ↦ rw here (e ∙ sym ((==_iff t s).0 here))
    | inr there ↦ rw there (old t)
  ]

  -- A table never forgets an instance.
  known-set_member :
      (f : ℕ → Acceptor) (s : ℕ) (b : Acceptor)
      → ((k : Num) → lookup k (f s).history ≢ none → lookup k b.history ≢ none)
      → (t : ℕ) (k : Num) → lookup k (f t).history ≢ none
      → lookup k (set_member f s b t).history ≢ none
  known-set_member f s b h t k known = elim (Bool-cases (t == s)) [
    | inl here ↦
        rw here (h k (subst (λ x. lookup k (f x).history ≢ none) ((==_iff t s).0 here) known))
    | inr there ↦ rw there known
  ]

  module _ {n : ℕ} {f : ℕ → Acceptor} {rs : List Reply} (g : Grants n f rs) (s : ℕ)
      (lt : s < n) where
    silent-Grants :
        (b : Acceptor)
        → b.history ≡ (f s).history
        → b.server_id ≡ (f s).server_id
        → Grants n (set_member f s b) rs
    silent-Grants b same id = record {
      ids = ids-set_member f s b (id ∙ g.ids s) g.ids;
      entries =
          entries-set_member f s b
            (λ k. subst (λ h. IsTrueOption Offer k (lookup k h)) (sym same) (g.entries s k))
            g.entries;
      reports = g.reports;
      origins = λ r m x.
          let (t, t_lt, from, known) = g.origins r m x in
          (
            t,
            t_lt,
            from,
            known-set_member f s b (λ k. subst (λ h. lookup k h ≢ none) (sym same)) t
                r.1.instance_num known,
          );
      unique = g.unique;
    }

    module _ (m : Message) (q : IsRequest Offer m) (b : Acceptor) (r : Message) (e : Entry)
        (new : b.history ≡ insert m.instance_num e (f s).history)
        (ans : Answer (f s) m (lookup m.instance_num (f s).history) r e) where
      looked_up :
          (k : Num)
          → lookup k b.history
            ≡ (if eq_num m.instance_num k then some e else lookup k (f s).history)
      looked_up k = rw new (lookup-insert k m.instance_num e (f s).history)

      entries_now : (k : Num) → IsTrueOption Offer k (lookup k b.history)
      entries_now k = elim (Bool-cases (eq_num m.instance_num k)) [
        | inl t ↦ subst (IsTrueOption Offer k) (sym (looked_up k)) (
            rw t (
              subst (λ x. IsTrueEntry Offer x e) ((eq_num_iff _ _).0 t)
                (Answer-entry Offer ans q (g.entries s m.instance_num))))
        | inr t ↦ subst (IsTrueOption Offer k) (sym (looked_up k)) (rw t (g.entries s k))
      ]

      known_now : (k : Num) → lookup k (f s).history ≢ none → lookup k b.history ≢ none
      known_now k known x = elim (Bool-cases (eq_num m.instance_num k)) [
        | inl t ↦
            let y : some e ≡ none =
              subst (λ z. (if z then some e else lookup k (f s).history) ≡ none) t
                (sym (looked_up k) ∙ x) in
            cc
        | inr t ↦ known (
            subst (λ z. (if z then some e else lookup k (f s).history) ≡ none) t
              (sym (looked_up k) ∙ x))
      ]

      -- The instance is known now.
      known_here : lookup m.instance_num b.history ≢ none
      known_here x =
          let y : some e ≡ none =
            subst (λ z. (if z then some e else lookup m.instance_num (f s).history) ≡ none)
              ((eq_num_iff m.instance_num m.instance_num).1 refl)
              (sym (looked_up m.instance_num) ∙ x) in
          cc

      module _ (to : Num) (id : b.server_id ≡ (f s).server_id) where
        reports_now : (x : Reply) → Memᴰ x ((to, r) ∷ rs) → IsTrueReply Offer x.1
        reports_now x (head e') =
            subst (λ y. IsTrueReply Offer y.1) (sym e')
              (Answer-reply Offer ans (g.entries s m.instance_num))
        reports_now x (tail h) = g.reports x h

        -- A new grant is the first answer about its instance.
        new_grant :
            IsGrant r
            → (lookup m.instance_num (f s).history ≡ none)
              × (r.origin_id ≡ nat s)
              × (r.instance_num ≡ m.instance_num)
        new_grant y =
            let a = Answer-grant Offer ans (g.entries s m.instance_num) y in
            (a.0, a.1 ∙ ap nat (g.ids s), a.2)

        origins_now :
            (x : Reply)
            → Memᴰ x ((to, r) ∷ rs)
            → IsGrant x.1
            → (t : ℕ) × (t < n)
              × (x.1.origin_id ≡ nat t)
              × (lookup x.1.instance_num (set_member f s b t).history ≢ none)
        origins_now x (head e') y =
            let a = new_grant (subst (λ z. IsGrant z.1) e' y) in
            (
              s,
              lt,
              ap (λ z. z.1.origin_id) e' ∙ a.1,
              subst (λ z. lookup z.1.instance_num (set_member f s b s).history ≢ none) (sym e')
                  (subst (λ k. lookup k (set_member f s b s).history ≢ none) (sym a.2)
                    (subst (λ z. lookup m.instance_num z.history ≢ none) (sym (update_self f s b))
                      known_here)),
            )
        origins_now x (tail h) y =
            let (t, t_lt, at, known) = g.origins x h y in
            (t, t_lt, at, known-set_member f s b known_now t x.1.instance_num known)

        -- A new grant and an old one differ.
        old_or_new :
            (x : Reply)
            → Memᴰ x rs
            → IsGrant x.1
            → IsGrant r
            → x.1.origin_id ≡ r.origin_id
            → x.1.instance_num ≡ r.instance_num
            → ⊥
        old_or_new x h y z same_origin same_instance =
            let a = new_grant z in
            let (t, t_lt, at, known) = g.origins x h y in
            let e1 : t ≡ s = nat-injective (sym at ∙ same_origin ∙ a.1) in
            known (
              ap (λ u. lookup x.1.instance_num (f u).history) e1
              ∙ ap (λ k. lookup k (f s).history) (same_instance ∙ a.2)
              ∙ a.0)

        unique_now :
            (x y : Reply)
            → Memᴰ x ((to, r) ∷ rs)
            → Memᴰ y ((to, r) ∷ rs)
            → IsGrant x.1
            → IsGrant y.1
            → x.1.origin_id ≡ y.1.origin_id
            → x.1.instance_num ≡ y.1.instance_num
            → x ≡ y
        unique_now x y (head e1) (head e2) gx gy o i = e1 ∙ sym e2
        unique_now x y (tail h1) (tail h2) gx gy o i = g.unique x y h1 h2 gx gy o i
        unique_now x y (head e1) (tail h2) gx gy o i = absurd (
            old_or_new y h2 gy (subst (λ z. IsGrant z.1) e1 gx) (sym o ∙ ap (λ z. z.1.origin_id) e1)
              (sym i ∙ ap (λ z. z.1.instance_num) e1))
        unique_now x y (tail h1) (head e2) gx gy o i = absurd (
            old_or_new x h1 gx (subst (λ z. IsGrant z.1) e2 gy) (o ∙ ap (λ z. z.1.origin_id) e2)
              (i ∙ ap (λ z. z.1.instance_num) e2))

        answers-Grants : Grants n (set_member f s b) ((to, r) ∷ rs)
        answers-Grants = record {
          ids = ids-set_member f s b (id ∙ g.ids s) g.ids;
          entries = entries-set_member f s b entries_now g.entries;
          reports = reports_now;
          origins = origins_now;
          unique = unique_now;
        }

    -- An acceptor's turn on a request keeps what holds of the grants.
    pub Effect-Grants :
        {d : Delivery} {x : Acceptor × List Reply}
        → Effect (f s) d x
        → (is_acceptor_type d.msg.msg_type ≡ true → IsRequest Offer d.msg)
        → Grants n (set_member f s x.0) (x.1 ++ rs)
    Effect-Grants (silent b same id) q = silent-Grants b same id
    Effect-Grants {d} (answers b r e new id ans) q =
        answers-Grants d.msg (q (Answer-type ans)) b r e new ans d.msg.origin_id id
