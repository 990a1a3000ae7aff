-- ===== src/System/Majority.antt =====
-- Two members of a group of problemset2/src/server.py never both have a majority of the PREPARE_ACKs
-- that count, for one instance.
use cse.Prelude.{
  All-append, ℕ, ◌<◌, ◌≤◌, ◌+◌, ◌/◌, ◌≡◌, ◌≢◌, ◌∙◌, refl, sym, ap, subst, true, false, List, [],
  ◌∷◌, ◌++◌, inl, inr, Memᴰ, arith, Bool-cases, if◌then◌else◌, length, length-append, All,
  All_of_mem, IsSpread, IsSpread-append, length-le-bound, and_split, ◌==◌, ==_iff,
}
use mathlib.Core.List.Memᴰ.{head, tail}
use cse.Num.{absent, minus_one, Num, nat, nat-injective, eq_num, eq_num_iff}
use cse.Message.{prepare_ack, type_code, Message, seen, Value}
use cse.Message.Equality.{seen-of_mem, type_code-injective}
use cse.Acceptor.{Acceptor, Reply}
use cse.MainLoop.Quorum.{IsFresh}
use cse.MainLoop.Belief.{is_usable, usables}
use cse.System.Answers.{IsGrant}
use cse.System.Grants.{Grants}

-- The member that a message comes from.
abbrev origin_of : Num → ℕ
origin_of absent = 0
origin_of minus_one = 0
origin_of (nat s) = s

abbrev origin : Message → ℕ
origin m = origin_of m.origin_id

is_usable-IsGrant :
    (i : ℕ) (m : Message) → is_usable i m ≡ true → IsGrant m × (m.instance_num ≡ nat i)
is_usable-IsGrant i m h =
    let (kind, h1) = and_split (type_code m.msg_type == type_code prepare_ack) _ h in
    let (inst, here) = and_split (eq_num m.instance_num (nat i)) _ h1 in
    ((type_code-injective _ _ ((==_iff _ _).0 kind), ground (arith, here)), (eq_num_iff _ _).0 inst)

-- A usable message stands in the history.
usable_split :
    (i : ℕ) (m x : Message) (hs : List Message)
    → is_usable i x ≡ true
    → (Memᴰ m (usables i hs) → Memᴰ m hs × IsGrant m × (m.instance_num ≡ nat i))
    → Memᴰ m (x ∷ usables i hs)
    → Memᴰ m (x ∷ hs) × IsGrant m × (m.instance_num ≡ nat i)
usable_split i m x hs u ih (head e) =
    let (g, inst) = is_usable-IsGrant i x u in
    (head e, subst IsGrant (sym e) g, ap (λ z. z.instance_num) e ∙ inst)
usable_split i m x hs u ih (tail k) = let (l, g, e) = ih k in (tail l, g, e)

usables-mem :
    (i : ℕ) (m : Message) (hs : List Message)
    → Memᴰ m (usables i hs)
    → Memᴰ m hs × IsGrant m × (m.instance_num ≡ nat i)
unfolding usables
usables-mem i m [] h = elim h [ ]
usables-mem i m (x ∷ hs) h = elim (Bool-cases (is_usable i x)) [
  | inl u ↦
      usable_split i m x hs u (usables-mem i m hs)
        (subst (λ b. Memᴰ m (if b then x ∷ usables i hs else usables i hs)) u h)
  | inr u ↦
      let (k, g, e) =
        usables-mem i m hs
          (subst (λ b. Memᴰ m (if b then x ∷ usables i hs else usables i hs)) u h) in
      (tail k, g, e)
]

-- The messages of a history were sent to the member.
abbrev pub Heard : ℕ → List Message → List Reply → Type 0
Heard server hs rs = (m : Message) → Memᴰ m hs → Memᴰ (nat server, m) rs

module _ (Offer : ℕ → Value → Num → Type 0) {n : ℕ} {f : ℕ → Acceptor} {rs : List Reply}
    (g : Grants Offer n f rs) where
  -- A grant comes from a member of the group.
  grant_origin :
      (r : Reply) → Memᴰ r rs → IsGrant r.1 → (r.1.origin_id ≡ nat (origin r.1)) × (origin r.1 < n)
  grant_origin r h y =
      let (s, lt, at, known) = g.origins r h y in
      let e : origin r.1 ≡ s = ap origin_of at in
      (at ∙ ap nat (sym e), subst (λ x. x < n) (sym e) lt)

  -- Two grants of one member for one instance are the same.
  same_grant :
      (r t : Reply)
      → Memᴰ r rs
      → Memᴰ t rs
      → IsGrant r.1
      → IsGrant t.1
      → r.1.instance_num ≡ t.1.instance_num
      → origin r.1 ≡ origin t.1
      → r ≡ t
  same_grant r t hr ht gr gt inst same =
      g.unique r t hr ht gr gt
        ((grant_origin r hr gr).0 ∙ ap nat same ∙ sym (grant_origin t ht gt).0) inst

  usables-below :
      (p i : ℕ) (hs : List Message) → Heard p hs rs → All (λ m. origin m < n) (usables i hs)
  usables-below p i hs heard =
      All_of_mem (λ m. origin m < n) (usables i hs)
        (λ m h. let (k, y, e) = usables-mem i m hs h in (grant_origin (nat p, m) (heard m k) y).1)

  usables-IsSpread :
      (p i : ℕ) (hs : List Message) → Heard p hs rs → IsFresh hs → IsSpread origin (usables i hs)
  unfolding usables
  usables-IsSpread p i [] heard fresh = tt
  usables-IsSpread p i (m ∷ hs) heard fresh =
      let ih = usables-IsSpread p i hs (λ k h. heard k (tail h)) fresh.1 in
      elim (Bool-cases (is_usable i m)) [
        | inr u ↦ rw u ih
        | inl u ↦
            let (y, inst) = is_usable-IsGrant i m u in
            rw u (
              All_of_mem (λ k. origin m ≢ origin k) (usables i hs)
                  (λ k h same.
                    let (l, z, e) = usables-mem i k hs h in
                    let eq : m ≡ k =
                      ap (λ r. r.1)
                        (same_grant (nat p, m) (nat p, k) (heard m (head refl)) (heard k (tail l)) y
                          z (inst ∙ sym e) same) in
                    let old : true ≡ false =
                      sym (subst (λ x. seen x hs ≡ true) (sym eq) (seen-of_mem k hs l)) ∙ fresh.0 in
                    absurd (ground (arith, old))),
              ih,
            )
      ]

  -- What two members have of the grants of an instance is no more than the group.
  pub usables-of_two :
      (p q i : ℕ) (hs ks : List Message)
      → p ≢ q
      → Heard p hs rs
      → Heard q ks rs
      → IsFresh hs
      → IsFresh ks
      → length (usables i hs) + length (usables i ks) ≤ n
  usables-of_two p q i hs ks ne hp hq fp fq = omega (
    arith,
    length-append (usables i hs) (usables i ks),
    length-le-bound origin n (usables i hs ++ usables i ks)
        (IsSpread-append origin (usables i hs) (usables i ks) (usables-IsSpread p i hs hp fp)
          (usables-IsSpread q i ks hq fq)
          (λ m k hm hk same.
            let (lm, ym, em) = usables-mem i m hs hm in
            let (lk, yk, ek) = usables-mem i k ks hk in
            let eq =
              same_grant (nat p, m) (nat q, k) (hp m lm) (hq k lk) ym yk (em ∙ sym ek) same in
            ne (nat-injective (ap (λ r. r.0) eq))))
        (All-append (λ m. origin m < n) (usables i hs) (usables i ks) (usables-below p i hs hp)
          (usables-below q i ks hq)),
  )

  -- Two members with a majority are one.
  pub majority_unique :
      (p q i : ℕ) (hs ks : List Message)
      → Heard p hs rs
      → Heard q ks rs
      → IsFresh hs
      → IsFresh ks
      → n / 2 < length (usables i hs)
      → n / 2 < length (usables i ks)
      → p ≡ q
  majority_unique p q i hs ks hp hq fp fq more more' = elim (Bool-cases (p == q)) [
    | inl same ↦ (==_iff p q).0 same
    | inr other ↦ absurd (
        omega (
          arith,
          more,
          more',
          usables-of_two p q i hs ks (λ e. ground (arith, e, other)) hp hq fp fq,
        ))
  ]
