-- ===== src/Message/Equality.antt =====
-- The comparison of message signatures decides equality of messages.
use cse.Prelude.{
  Memᴰ, [], Bool-cases, inl, inr, ◌≡◌, ◌↔◌, refl, ap, subst, List, ◌∷◌, true, arith, ◌==◌, ==_iff,
  and_split,
}
use mathlib.Core.List.Memᴰ.{head, tail}
use cse.Num.{eq_num, eq_num_iff}
use cse.Command.{eq_command_iff}
use cse.Message.{MessageType, type_code, Value, number, cmd, eq_value, Message, eq_message, seen}

pub type_code-injective : (a b : MessageType) → type_code a ≡ type_code b → a ≡ b
type_code-injective a b h = ground arith

pub eq_value_iff : (v w : Value) → (eq_value v w ≡ true) ↔ (v ≡ w)
eq_value_iff (number a) (number b) =
    (λ h. ap number ((eq_num_iff a b).0 h), λ h. (eq_num_iff a b).1 (cc))
eq_value_iff (number a) (cmd d) = (λ h. cc, λ h. cc)
eq_value_iff (cmd c) (number b) = (λ h. cc, λ h. cc)
eq_value_iff (cmd c) (cmd d) =
    (λ h. ap cmd ((eq_command_iff c d).0 h), λ h. (eq_command_iff c d).1 (cc))

-- Equal signatures have equal fields.
eq_message→eq : (a b : Message) → eq_message a b ≡ true → a ≡ b
unfolding eq_message
eq_message→eq a b h =
    let (t, h1) = and_split (type_code a.msg_type == type_code b.msg_type) _ h in
    let (v, h2) = and_split (eq_value a.value b.value) _ h1 in
    let (p, h3) = and_split (eq_num a.proposal b.proposal) _ h2 in
    let (r, h4) = and_split (eq_num a.r_proposal b.r_proposal) _ h3 in
    let (c, h5) = and_split (eq_num a.client_id b.client_id) _ h4 in
    let (n, o) = and_split (eq_num a.instance_num b.instance_num) _ h5 in
    let type_eq = type_code-injective _ _ ((==_iff _ _).0 t) in
    λ i. record {
      msg_type = type_eq i;
      proposal = (eq_num_iff _ _).0 p i;
      instance_num = (eq_num_iff _ _).0 n i;
      value = (eq_value_iff a.value b.value).0 v i;
      origin_id = (eq_num_iff _ _).0 o i;
      client_id = (eq_num_iff _ _).0 c i;
      r_proposal = (eq_num_iff _ _).0 r i;
    }

eq_message_refl : (a : Message) → eq_message a a ≡ true
unfolding eq_message
eq_message_refl a = rw (
  (==_iff (type_code a.msg_type) (type_code a.msg_type)).1 refl,
  (eq_value_iff a.value a.value).1 refl,
  (eq_num_iff a.proposal a.proposal).1 refl,
  (eq_num_iff a.r_proposal a.r_proposal).1 refl,
  (eq_num_iff a.client_id a.client_id).1 refl,
  (eq_num_iff a.instance_num a.instance_num).1 refl,
  (eq_num_iff a.origin_id a.origin_id).1 refl,
)

pub eq_message_iff : (a b : Message) → (eq_message a b ≡ true) ↔ (a ≡ b)
eq_message_iff a b =
    (eq_message→eq a b, λ h. subst (λ x. eq_message a x ≡ true) h (eq_message_refl a))

pub seen_self : (m : Message) (hs : List Message) → seen m (m ∷ hs) ≡ true
unfolding seen
seen_self m hs = rw (eq_message_refl m)

pub seen-of_mem : (m : Message) (hs : List Message) → Memᴰ m hs → seen m hs ≡ true
unfolding seen
seen-of_mem m [] k = elim k [ ]
seen-of_mem m (h ∷ hs) (head e) = rw ((eq_message_iff m h).1 e) refl
seen-of_mem m (h ∷ hs) (tail k) = ground (arith, seen-of_mem m hs k)

pub mem-of_seen : (m : Message) (hs : List Message) → seen m hs ≡ true → Memᴰ m hs
unfolding seen
mem-of_seen m [] h = absurd (ground (arith, h))
mem-of_seen m (x ∷ hs) h = elim (Bool-cases (eq_message m x)) [
  | inl same ↦ head ((eq_message_iff m x).0 same)
  | inr other ↦ tail (mem-of_seen m hs (ground (arith, other)))
]
