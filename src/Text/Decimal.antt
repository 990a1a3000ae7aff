-- ===== src/Text/Decimal.antt =====
-- str and int on integers: what str prints, int reads.
use cse.Prelude.{
  append_assoc, append-nil, ℕ, zero, suc, ◌+◌, ◌-◌, ◌*◌, ◌/◌, ◌%◌, ◌<◌, ◌≤◌, ◌≡◌, ◌∙◌, refl, sym,
  ap, true, false, [], ◌∷◌, ◌++◌, All, All-append, All-map, some, arith, inl, inr, Bool-cases, ltb,
  ◌==◌,
}
use cse.Command.{ℤ, pos, negsuc}
use cse.Text.{
  lstrip, rstrip, strip, Text, digits, str_nat, str, is_digit, read_digits, read_nat, negate,
  with_sign, read_signed, is_space, int,
}
use cse.Text.Strip.{IsKept, rstrip_kept, rstrip_dropped, strip_kept}

-- The characters of a number.
abbrev pub IsDigit : ℕ → Type 0
IsDigit c = (48 ≤ c) × (c ≤ 57)

digits-IsDigit : (fuel n : ℕ) → All IsDigit (digits fuel n)
unfolding digits
digits-IsDigit zero n = tt
digits-IsDigit (suc fuel) n = elim (Bool-cases (ltb n 10)) [
  | inl small ↦ rw small ((omega arith, ground arith), tt)
  | inr large ↦ rw large (
      All-append IsDigit (digits fuel (n / 10)) ((48 + n % 10) ∷ []) (digits-IsDigit fuel (n / 10))
        ((omega arith, omega arith), tt))
]

pub str_nat-IsDigit : (n : ℕ) → All IsDigit (str_nat n)
unfolding str_nat
str_nat-IsDigit n = digits-IsDigit (suc n) n

-- The digits of a number are read as the number.
read_digits-digits :
    (fuel n : ℕ) (rest : Text)
    → n < fuel
    → read_digits (digits fuel n ++ rest) 0 ≡ read_digits rest n
unfolding digits read_digits
read_digits-digits zero n rest h = absurd (omega (arith, h))
read_digits-digits (suc fuel) n rest h = elim (Bool-cases (ltb n 10)) [
  | inl small ↦ rw small (ground arith)
  | inr large ↦
      rw
        (
          large,
          append_assoc (digits fuel (n / 10)) ((48 + n % 10) ∷ []) rest,
          read_digits-digits fuel (n / 10) ((48 + n % 10) ∷ rest) (ground (arith, large, h)),
        )
        (last (n % 10) (n / 10) refl refl)
]
  where
    last :
        (d m : ℕ) → d ≡ n % 10 → m ≡ n / 10 → read_digits ((48 + d) ∷ rest) m ≡ read_digits rest n
    last d m e k =
        let is : is_digit (48 + d) ≡ true = ground arith in
        let now : m * 10 + ((48 + d) - 48) ≡ n = omega arith in rw (is, now) refl

-- A text that is not empty.
pub data IsWord : Text → Type 0 where
  word : (c : ℕ) (cs : Text) → IsWord (c ∷ cs)

append-IsWord : (s : Text) (c : ℕ) → IsWord (s ++ c ∷ [])
append-IsWord [] c = word c []
append-IsWord (d ∷ ds) c = word d (ds ++ c ∷ [])

pub str_nat-IsWord : (n : ℕ) → IsWord (str_nat n)
unfolding str_nat digits
str_nat-IsWord n = elim (Bool-cases (ltb n 10)) [
  | inl small ↦ rw small (word (48 + n) [])
  | inr large ↦ rw large (append-IsWord (digits n (n / 10)) (48 + n % 10))
]

read_nat_word : {s : Text} → IsWord s → read_nat s ≡ read_digits s 0
unfolding read_nat
read_nat_word (word c cs) = refl

pub read_nat-str_nat : (n : ℕ) → read_nat (str_nat n) ≡ some n
unfolding str_nat read_digits
read_nat-str_nat n =
    read_nat_word (str_nat-IsWord n)
    ∙ ap (λ s. read_digits s 0) (sym (append-nil (str_nat n)))
    ∙ read_digits-digits (suc n) n [] (omega arith)

-- A number has no sign and no blank.
read_signed_digits :
    {s : Text} → IsWord s → All IsDigit s → read_signed s ≡ with_sign pos (read_nat s)
unfolding read_signed
read_signed_digits (word c cs) h =
    let no_minus : (c == 45) ≡ false = ground (arith, h.0) in
    let no_plus : (c == 43) ≡ false = ground (arith, h.0) in rw (no_minus, no_plus) refl

digits-IsKept : (s : Text) → All IsDigit s → IsKept is_space s
digits-IsKept s h = All-map IsDigit (λ c. is_space c ≡ false) (λ c k. ground (arith, k)) s h

-- int reads what str has printed.
pub int-str : (z : ℤ) → int (str z) ≡ some z
unfolding int str read_signed
int-str (pos n) =
    ap read_signed (strip_kept is_space (str_nat n) (digits-IsKept (str_nat n) (str_nat-IsDigit n)))
    ∙ read_signed_digits (str_nat-IsWord n) (str_nat-IsDigit n)
    ∙ ap (with_sign pos) (read_nat-str_nat n)
int-str (negsuc n) =
    ap read_signed (
      strip_kept is_space (45 ∷ str_nat (suc n))
        (refl, digits-IsKept (str_nat (suc n)) (str_nat-IsDigit (suc n))))
    ∙ ap (with_sign negate) (read_nat-str_nat (suc n))

-- In front of a number there is nothing to remove.
lstrip_number : {s : Text} (t : Text) → IsWord s → All IsDigit s → lstrip is_space (s ++ t) ≡ s ++ t
unfolding lstrip
lstrip_number t (word c cs) h =
    let stays : is_space c ≡ false = ground (arith, h.0) in rw stays refl

-- A blank behind a number does not matter.
pub int-digits_blank : (n : ℕ) → int (str_nat n ++ b' ' ∷ []) ≡ some (pos n)
unfolding int strip
int-digits_blank n =
    let kept = digits-IsKept (str_nat n) (str_nat-IsDigit n) in
    ap (λ s. read_signed (rstrip is_space s))
      (lstrip_number (b' ' ∷ []) (str_nat-IsWord n) (str_nat-IsDigit n))
    ∙ ap read_signed
        (rstrip_dropped is_space (str_nat n) b' ' refl ∙ rstrip_kept is_space (str_nat n) kept)
    ∙ read_signed_digits (str_nat-IsWord n) (str_nat-IsDigit n)
    ∙ ap (with_sign pos) (read_nat-str_nat n)
