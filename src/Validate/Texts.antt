-- ===== src/Validate/Texts.antt =====
-- What lock_file.py of problemset2/src reads in the lines that server.py logs.
use cse.Prelude.{
  ℕ, suc, ◌≡◌, ◌≢◌, ◌∙◌, refl, sym, ap, false, List, [], ◌∷◌, ◌++◌, map, append_assoc, All,
  All-append, Option, some, none, ◌>>=◌, length, arith, inl, inr, Bool-cases, ◌==◌, if◌then◌else◌,
}
use cse.Num.{Num, absent, minus_one, nat}
use cse.Command.{CommandType, lock, unlock, none_type, Command, ℤ, pos, negsuc}
use cse.Message.{Value, number, cmd}
use cse.Proposer.{Line}
use cse.Text.{Text, codes, lstrip, rstrip, strip, split, is_blank, str_nat, str, int}
use cse.Text.Split.{length-split, IsFree, split_free, split-append}
use cse.Text.Decimal.{IsDigit, IsWord, word, str_nat-IsDigit, str_nat-IsWord, int-str}
use cse.Print.{type_text, command_text, num_text, value_text, log_line}
use cse.Print.Fields.{unended, strip-log_line, count-unended, nat-IsFree, value_text-Ends}
use cse.Validate.{
  Verdict, num_dashes, value_dashes, field_count, validate_command, validate_value, validate_lines,
  validate_lock_file,
}
use cse.Validate.Reading.{
  three_fields, two_fields, LogEntry, read_log_line, validate_entry, validate_texts, validate_file,
}

num_text-IsFree : (n : Num) → num_dashes n ≡ 0 → IsFree b'-' (num_text n)
unfolding num_text
num_text-IsFree absent h = (refl, (refl, (refl, (refl, tt))))
num_text-IsFree minus_one h = absurd (omega (arith, h))
num_text-IsFree (nat n) h = nat-IsFree b'-' n (omega arith)

type_text-IsFree : (t : CommandType) → IsFree b'-' (type_text t)
type_text-IsFree lock = (refl, (refl, (refl, (refl, tt))))
type_text-IsFree unlock = (refl, (refl, (refl, (refl, (refl, (refl, tt))))))
type_text-IsFree none_type = (refl, (refl, (refl, (refl, tt))))

value_text-IsFree : (v : Value) → value_dashes v ≡ 0 → IsFree b'-' (value_text v)
unfolding value_text command_text str
value_text-IsFree (number n) h = num_text-IsFree n h
value_text-IsFree (cmd c) h =
    All-append (λ x. (x == b'-') ≡ false) (type_text c.command_type) (b' ' ∷ str c.resource_id)
      (type_text-IsFree c.command_type) (refl, digits c.resource_id h)
  where
    digits :
        (z : ℤ)
        → value_dashes (cmd (record { command_type = lock; resource_id = z })) ≡ 0
        → IsFree b'-' (str z)
    digits (pos n) e = nat-IsFree b'-' n (omega arith)
    digits (negsuc n) e = absurd (omega (arith, e))

-- The fields of a line with no "-" of its own.
split-unended :
    (l : Line)
    → num_dashes l.client_id ≡ 0
    → value_dashes l.command ≡ 0
    → split b'-' (unended l)
      ≡ (str_nat l.instance_num ++ b' ' ∷ [])
        ∷ (codes "> cid:" ++ (num_text l.client_id ++ b' ' ∷ []))
        ∷ (b' ' ∷ value_text l.command)
        ∷ []
split-unended l h k =
    let first = str_nat l.instance_num ++ b' ' ∷ [] in
    let second = codes "> cid:" ++ (num_text l.client_id ++ b' ' ∷ []) in
    let third = b' ' ∷ value_text l.command in
    let e : unended l ≡ first ++ b'-' ∷ (second ++ b'-' ∷ third) =
      ap (λ x. str_nat l.instance_num ++ (codes " -> cid:" ++ x))
        (sym (append_assoc (num_text l.client_id) (b' ' ∷ []) (b'-' ∷ third)))
      ∙ sym (append_assoc (str_nat l.instance_num) (b' ' ∷ []) (b'-' ∷ (second ++ b'-' ∷ third))) in
    ap (split b'-') e
    ∙ split-append b'-' first (second ++ b'-' ∷ third) (
        All-append (λ x. (x == b'-') ≡ false) (str_nat l.instance_num) (b' ' ∷ [])
          (nat-IsFree b'-' l.instance_num (omega arith)) (refl, tt))
    ∙ ap (λ x. first ∷ x)
        (split-append b'-' second third (
          refl,
          (
            refl,
            (
              refl,
              (
                refl,
                (
                  refl,
                  (
                    refl,
                    All-append (λ x. (x == b'-') ≡ false) (num_text l.client_id) (b' ' ∷ [])
                        (num_text-IsFree l.client_id h) (refl, tt),
                  ),
                ),
              ),
            ),
          ),
        ))
    ∙ ap (λ x. first ∷ second ∷ x) (split_free b'-' third (refl, value_text-IsFree l.command k))

three_fields-none : (ws : List Text) → length ws ≢ 3 → three_fields ws ≡ none
three_fields-none [] h = refl
three_fields-none (a ∷ []) h = refl
three_fields-none (a ∷ b ∷ []) h = refl
three_fields-none (a ∷ b ∷ c ∷ []) h = absurd (h refl)
three_fields-none (a ∷ b ∷ c ∷ d ∷ ws) h = refl

type_starts :
    (t : CommandType) (s : Text) → lstrip is_blank (b' ' ∷ type_text t ++ s) ≡ type_text t ++ s
unfolding lstrip
type_starts lock s = refl
type_starts unlock s = refl
type_starts none_type s = refl

-- The value of a line, without the blank in front.
starts : (v : Value) → lstrip is_blank (b' ' ∷ value_text v) ≡ value_text v
unfolding value_text lstrip num_text command_text
starts (number absent) = refl
starts (number minus_one) = refl
starts (number (nat n)) = go (str_nat-IsWord n) (str_nat-IsDigit n)
  where
    go : {s : Text} → IsWord s → All IsDigit s → lstrip is_blank s ≡ s
    go (word c cs) h = let stays : is_blank c ≡ false = ground (arith, h.0) in rw stays refl
starts (cmd c) = type_starts c.command_type (b' ' ∷ str c.resource_id)

strip-value_text : (v : Value) → strip is_blank (b' ' ∷ value_text v) ≡ value_text v
unfolding strip
strip-value_text v = ap (rstrip is_blank) (starts v) ∙ (value_text-Ends v).whole

-- The words of a value: a command has two.
abbrev words_of : Value → Option (Text × Text)
words_of (number n) = none
words_of (cmd c) = some (type_text c.command_type, str c.resource_id)

num_text_blank : (n : Num) → IsFree b' ' (num_text n)
unfolding num_text
num_text_blank absent = (refl, (refl, (refl, (refl, tt))))
num_text_blank minus_one = (refl, (refl, tt))
num_text_blank (nat n) = nat-IsFree b' ' n (omega arith)

type_text_blank : (t : CommandType) → IsFree b' ' (type_text t)
type_text_blank lock = (refl, (refl, (refl, (refl, tt))))
type_text_blank unlock = (refl, (refl, (refl, (refl, (refl, (refl, tt))))))
type_text_blank none_type = (refl, (refl, (refl, (refl, tt))))

str_blank : (z : ℤ) → IsFree b' ' (str z)
unfolding str
str_blank (pos n) = nat-IsFree b' ' n (omega arith)
str_blank (negsuc n) = (refl, nat-IsFree b' ' (suc n) (omega arith))

-- A command is split into its type and its number.
pub split-command_text :
    (c : Command) → split b' ' (command_text c) ≡ type_text c.command_type ∷ str c.resource_id ∷ []
unfolding command_text
split-command_text c =
    split-append b' ' (type_text c.command_type) (str c.resource_id)
      (type_text_blank c.command_type)
    ∙ ap (λ x. type_text c.command_type ∷ x)
        (split_free b' ' (str c.resource_id) (str_blank c.resource_id))

two_fields-value_text : (v : Value) → two_fields (split b' ' (value_text v)) ≡ words_of v
unfolding value_text
two_fields-value_text (number n) = ap two_fields (split_free b' ' (num_text n) (num_text_blank n))
two_fields-value_text (cmd c) = ap two_fields (split-command_text c)

-- What the words of a value are read as.
abbrev pub entry_of : ℕ → Value → Option LogEntry
entry_of i (number n) = none
entry_of i (cmd c) = some (record {
  instance_field = str_nat i ++ b' ' ∷ [];
  cmd_type = type_text c.command_type;
  lock_num = c.resource_id;
})

entry_of_words :
    (i : ℕ) (v : Value)
    → (words_of v >>= λ w. int w.1 >>= λ n.
        some (record { instance_field = str_nat i ++ b' ' ∷ []; cmd_type = w.0; lock_num = n }))
      ≡ entry_of i v
entry_of_words i (number n) = refl
entry_of_words i (cmd c) = rw (int-str c.resource_id) refl

-- A line that has more "-" is refused, another one is read back: its instance, and the command with
-- the type as a word. A value that is no command is refused.
pub read_log_line-log_line :
    (l : Line)
    → read_log_line (log_line l)
      ≡ (if field_count l == 3 then entry_of l.instance_num l.command else none)
unfolding read_log_line
read_log_line-log_line l = elim (Bool-cases (field_count l == 3)) [
  | inl plain ↦
      let no_client : num_dashes l.client_id ≡ 0 = ground (arith, plain) in
      let no_value : value_dashes l.command ≡ 0 = ground (arith, plain) in
      rw
        (
          plain,
          strip-log_line l,
          split-unended l no_client no_value,
          strip-value_text l.command,
          two_fields-value_text l.command,
        )
        (entry_of_words l.instance_num l.command)
  | inr more ↦
      rw
        (
          more,
          strip-log_line l,
          three_fields-none (split b'-' (unended l))
              (λ e. ground (arith, more, length-split b'-' (unended l), count-unended l, e)),
        )
        refl
]

-- The tests of the text of the type are the cases of the type.
validate_entry-entry_of :
    (i : ℕ) (v : Value) (locks : List ℤ) (rest : List ℤ → Verdict)
    → validate_entry (entry_of i v) locks rest ≡ validate_value v locks rest
unfolding validate_entry validate_value
validate_entry-entry_of i (number n) locks rest = refl
validate_entry-entry_of i (cmd c) locks rest = by_type c.command_type
  where
    by_type :
        (t : CommandType)
        → validate_entry
            (some (record {
              instance_field = str_nat i ++ b' ' ∷ [];
              cmd_type = type_text t;
              lock_num = c.resource_id;
            }))
            locks
            rest
          ≡ validate_command t c.resource_id locks rest
    by_type lock = refl
    by_type unlock = refl
    by_type none_type = unfold validate_command in refl

validate_texts-lines :
    (ls : List Line) (locks : List ℤ)
    → validate_texts (map log_line ls) locks ≡ validate_lines ls locks
unfolding validate_texts validate_lines
validate_texts-lines [] locks = refl
validate_texts-lines (l ∷ ls) locks = elim (Bool-cases (field_count l == 3)) [
  | inl plain ↦
      rw (read_log_line-log_line l, plain)
        (validate_entry-entry_of l.instance_num l.command locks (validate_texts (map log_line ls))
          ∙ ap (validate_value l.command locks) (λ j x. validate_texts-lines ls x j))
  | inr more ↦ rw (read_log_line-log_line l, more) refl
]

-- On the text of a log, the validator says what it says of the lines.
pub validate_file-log_lines :
    (ls : List Line) → validate_file (map log_line ls) ≡ validate_lock_file ls
unfolding validate_file validate_lock_file
validate_file-log_lines ls = validate_texts-lines ls []
