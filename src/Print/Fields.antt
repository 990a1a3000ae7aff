-- ===== src/Print/Fields.antt =====
-- The log line of problemset2/src/server.py, taken apart at its "-": how many fields it has, and which.
use cse.Prelude.{
  ◌≤◌, ℕ, suc, ◌+◌, ◌≡◌, ◌∙◌, refl, sym, ap, false, [], ◌∷◌, ◌++◌, append_assoc, All, All-map,
  arith, ◌==◌,
}
use cse.Num.{Num, absent, minus_one, nat}
use cse.Command.{CommandType, lock, unlock, none_type, ℤ, pos, negsuc}
use cse.Message.{Value, number, cmd}
use cse.Proposer.{Line}
use cse.Text.{Text, codes, lstrip, rstrip, strip, is_blank, str_nat, str}
use cse.Text.Strip.{rstrip_kept, rstrip_dropped, rstrip-append}
use cse.Text.Split.{count, count-append, count_free, IsFree}
use cse.Text.Decimal.{IsDigit, IsWord, word, str_nat-IsDigit, str_nat-IsWord}
use cse.Print.{type_text, command_text, num_text, value_text, log_line}
use cse.Validate.{num_dashes, value_dashes}

-- The line without its end.
abbrev pub unended : Line → Text
unended l =
    str_nat l.instance_num
    ++ (codes " -> cid:" ++ (num_text l.client_id ++ (codes " - " ++ value_text l.command)))

-- A text that does not end in white space.
pub record Ends (s : Text) : Type 0 where
  pub whole : rstrip is_blank s ≡ s
  pub some_char : IsWord s

append-IsWord : (s : Text) {t : Text} → IsWord t → IsWord (s ++ t)
append-IsWord [] h = h
append-IsWord (c ∷ cs) {t} h = word c (cs ++ t)

pub append-Ends : (s : Text) {t : Text} → Ends t → Ends (s ++ t)
append-Ends s {t} h = record {
  whole =
      rstrip-append is_blank s t (λ e. empty (h.some_char) (sym h.whole ∙ e))
      ∙ ap (λ r. s ++ r) h.whole;
  some_char = append-IsWord s h.some_char;
}
  where
    empty : {t : Text} → IsWord t → t ≡ [] → ⊥
    empty (word c cs) e = cc

digits-Ends : (n : ℕ) → Ends (str_nat n)
digits-Ends n = record {
  whole = rstrip_kept is_blank (str_nat n) (
      All-map IsDigit (λ c. is_blank c ≡ false) (λ c k. ground (arith, k)) (str_nat n)
        (str_nat-IsDigit n));
  some_char = str_nat-IsWord n;
}

str-Ends : (z : ℤ) → Ends (str z)
unfolding str
str-Ends (pos n) = digits-Ends n
str-Ends (negsuc n) = append-Ends (b'-' ∷ []) (digits-Ends (suc n))

num_text-Ends : (n : Num) → Ends (num_text n)
unfolding num_text rstrip
num_text-Ends absent = record { whole = refl; some_char = word _ _ }
num_text-Ends minus_one = record { whole = refl; some_char = word _ _ }
num_text-Ends (nat n) = digits-Ends n

pub value_text-Ends : (v : Value) → Ends (value_text v)
unfolding value_text command_text
value_text-Ends (number n) = num_text-Ends n
value_text-Ends (cmd c) =
    append-Ends (type_text c.command_type) (append-Ends (b' ' ∷ []) (str-Ends c.resource_id))

-- In front of a number there is nothing to remove.
lstrip_number : {s : Text} (t : Text) → IsWord s → All IsDigit s → lstrip is_blank (s ++ t) ≡ s ++ t
unfolding lstrip
lstrip_number t (word c cs) h =
    let stays : is_blank c ≡ false = ground (arith, h.0) in rw stays refl

log_line-unended : (l : Line) → log_line l ≡ unended l ++ 10 ∷ []
unfolding log_line
log_line-unended l =
    let v = value_text l.command in
    sym (
      append_assoc (str_nat l.instance_num)
        (codes " -> cid:" ++ (num_text l.client_id ++ (codes " - " ++ v))) (10 ∷ [])
      ∙ ap (λ x. str_nat l.instance_num ++ (codes " -> cid:" ++ x))
          (append_assoc (num_text l.client_id) (codes " - " ++ v) (10 ∷ [])))

-- strip takes the end of the line away.
pub strip-log_line : (l : Line) → strip is_blank (log_line l) ≡ unended l
unfolding strip
strip-log_line l =
    let rest =
      codes " -> cid:" ++ (num_text l.client_id ++ (codes " - " ++ value_text l.command)) in
    let nothing : lstrip is_blank (unended l ++ 10 ∷ []) ≡ unended l ++ 10 ∷ [] =
      ap (lstrip is_blank) (append_assoc (str_nat l.instance_num) rest (10 ∷ []))
      ∙ lstrip_number (rest ++ 10 ∷ []) (str_nat-IsWord l.instance_num)
          (str_nat-IsDigit l.instance_num)
      ∙ sym (append_assoc (str_nat l.instance_num) rest (10 ∷ [])) in
    let ends : Ends (unended l) = append-Ends (str_nat l.instance_num) (
      append-Ends (codes " -> cid:") (
        append-Ends (num_text l.client_id)
          (append-Ends (codes " - ") (value_text-Ends l.command)))) in
    ap (λ s. rstrip is_blank (lstrip is_blank s)) (log_line-unended l)
    ∙ ap (rstrip is_blank) nothing
    ∙ rstrip_dropped is_blank (unended l) 10 refl
    ∙ ends.whole

-- No digit is a separator.
pub digits-IsFree : (sep : ℕ) (s : Text) → (sep + 1 ≤ 48) → All IsDigit s → IsFree sep s
digits-IsFree sep s h k =
    All-map IsDigit (λ c. (c == sep) ≡ false) (λ c d. ground (arith, d, h)) s k

pub nat-IsFree : (sep n : ℕ) → sep + 1 ≤ 48 → IsFree sep (str_nat n)
nat-IsFree sep n h = digits-IsFree sep (str_nat n) h (str_nat-IsDigit n)

count-num_text : (n : Num) → count b'-' (num_text n) ≡ num_dashes n
unfolding num_text
count-num_text absent = refl
count-num_text minus_one = refl
count-num_text (nat n) = count_free b'-' (str_nat n) (nat-IsFree b'-' n (omega arith))

count-type_text : (t : CommandType) → count b'-' (type_text t) ≡ 0
count-type_text lock = refl
count-type_text unlock = refl
count-type_text none_type = refl

count-str : (z : ℤ) → count b'-' (str z) ≡ (elim z [ pos n ↦ 0 | negsuc n ↦ 1 ])
unfolding str
count-str (pos n) = count_free b'-' (str_nat n) (nat-IsFree b'-' n (omega arith))
count-str (negsuc n) =
    ap suc (count_free b'-' (str_nat (suc n)) (nat-IsFree b'-' (suc n) (omega arith)))

count-value_text : (v : Value) → count b'-' (value_text v) ≡ value_dashes v
unfolding value_text command_text
count-value_text (number n) = count-num_text n
count-value_text (cmd c) =
    count-append b'-' (type_text c.command_type) (b' ' ∷ str c.resource_id)
    ∙ omega (arith, count-type_text c.command_type, count-str c.resource_id)

-- How many "-" a line has.
pub count-unended :
    (l : Line) → count b'-' (unended l) ≡ 2 + (num_dashes l.client_id + value_dashes l.command)
count-unended l = omega (
  arith,
  count-append b'-' (str_nat l.instance_num)
      (codes " -> cid:" ++ (num_text l.client_id ++ (codes " - " ++ value_text l.command))),
  count-append b'-' (num_text l.client_id) (codes " - " ++ value_text l.command),
  count_free b'-' (str_nat l.instance_num) (nat-IsFree b'-' l.instance_num (omega arith)),
  count-num_text l.client_id,
  count-value_text l.command,
)
