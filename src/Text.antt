-- ===== src/Text.antt =====
-- Texts as lists of character codes, with the methods of Python's str and the conversions between
-- texts and integers that problemset2/src uses: strip, rstrip, split, lower, str and int.
pub mod Split
pub mod Strip
pub mod Decimal
use Prim.Native.Char.{code}
use Prim.Native.String.{String}
use cse.Prelude.{
  ℕ, zero, suc, ◌+◌, ◌-◌, ◌*◌, ◌/◌, ◌%◌, Bool, true, false, ◌&&◌, ◌||◌, List, [], ◌∷◌, ◌++◌, map,
  Option, none, some, leb, ltb, ◌==◌, if◌then◌else◌,
}
use cse.Command.{ℤ, pos, negsuc}

abbrev pub Text : Type 0
Text = List ℕ

abbrev pub codes : String → Text
codes String.[] = []
codes (String.◌∷◌ c s) = code c ∷ codes s

-- s == t
unfoldable pub eq_text : Text → Text → Bool
eq_text [] [] = true
eq_text [] (d ∷ ds) = false
eq_text (c ∷ cs) [] = false
eq_text (c ∷ cs) (d ∷ ds) = c == d && eq_text cs ds

-- The push of a character on the first word.
abbrev pub push : ℕ → List Text → List Text
push c [] = (c ∷ []) ∷ []
push c (w ∷ ws) = (c ∷ w) ∷ ws

-- s.split(sep), for one character
unfoldable pub split : ℕ → Text → List Text
split sep [] = [] ∷ []
split sep (c ∷ cs) = let words = split sep cs in if c == sep then [] ∷ words else push c words

module _ (drops : ℕ → Bool) where
  unfoldable pub lstrip : Text → Text
  lstrip [] = []
  lstrip (c ∷ cs) = let rest = lstrip cs in if drops c then rest else c ∷ cs

  -- A character in front of what is left behind it.
  abbrev pub keep : ℕ → Text → Text
  keep c [] = if drops c then [] else c ∷ []
  keep c (d ∷ ds) = c ∷ d ∷ ds

  unfoldable pub rstrip : Text → Text
  rstrip [] = []
  rstrip (c ∷ cs) = keep c (rstrip cs)

  unfoldable pub strip : Text → Text
  unfolding lstrip rstrip
  strip s = rstrip (lstrip s)

-- The characters of " \t\n".
abbrev pub is_blank : ℕ → Bool
is_blank c = c == b' ' || (c == 9 || c == 10)

-- The white space that int skips.
abbrev pub is_space : ℕ → Bool
is_space c = c == b' ' || (leb 9 c && leb c 13)

-- s.lower(), on ASCII
abbrev pub lower_char : ℕ → ℕ
lower_char c = if leb b'A' c && leb c b'Z' then c + 32 else c

abbrev pub lower : Text → Text
lower s = map lower_char s

-- The digits of a number below 10 ^ fuel.
unfoldable pub digits : ℕ → ℕ → Text
digits zero n = []
digits (suc fuel) n =
    let front = digits fuel (n / 10) in
    if ltb n 10 then (b'0' + n) ∷ [] else front ++ (b'0' + n % 10) ∷ []

-- str(n)
unfoldable pub str_nat : ℕ → Text
unfolding digits
str_nat n = digits (suc n) n

unfoldable pub str : ℤ → Text
unfolding str_nat
str (pos n) = str_nat n
str (negsuc n) = b'-' ∷ str_nat (suc n)

abbrev pub is_digit : ℕ → Bool
is_digit c = leb b'0' c && leb c b'9'

unfoldable pub read_digits : Text → ℕ → Option ℕ
read_digits [] n = some n
read_digits (c ∷ cs) n =
    let rest = read_digits cs (n * 10 + (c - b'0')) in if is_digit c then rest else none

-- At least one digit, and nothing else.
unfoldable pub read_nat : Text → Option ℕ
unfolding read_digits
read_nat [] = none
read_nat (c ∷ cs) = read_digits (c ∷ cs) 0

abbrev pub negate : ℕ → ℤ
negate zero = pos 0
negate (suc n) = negsuc n

abbrev pub with_sign : (ℕ → ℤ) → Option ℕ → Option ℤ
with_sign f none = none
with_sign f (some n) = some (f n)

-- A sign, or none.
unfoldable pub read_signed : Text → Option ℤ
unfolding read_nat
read_signed [] = none
read_signed (c ∷ cs) =
    if c == b'-'
    then with_sign negate (read_nat cs)
    else if c == b'+'
    then with_sign pos (read_nat cs)
    else with_sign pos (read_nat (c ∷ cs))

-- int(s), `none` where it raises a ValueError
unfoldable pub int : Text → Option ℤ
unfolding strip read_signed
int s = read_signed (strip is_space s)
