-- ===== src/Num.antt =====
-- The numbers in the fields of a message (message.py, server.py): Python's None, the default -1,
-- or a natural number. Python 2 orders them in this way, with None below every number.
use cse.Prelude.{ℕ, suc, ◌≡◌, ◌↔◌, refl, ap, Bool, true, arith, ltb, ◌==◌, ==_iff}

pub data Num : Type 0 where
  absent : Num
  minus_one : Num
  nat : ℕ → Num

-- The order of Python 2 is the order of the ranks.
abbrev pub rank : Num → ℕ
rank absent = 0
rank minus_one = 1
rank (nat n) = suc (suc n)

-- a < b
abbrev pub lt_num : Num → Num → Bool
lt_num a b = ltb (rank a) (rank b)

-- a == b
abbrev pub eq_num : Num → Num → Bool
eq_num a b = rank a == rank b

-- a is None
abbrev pub is_absent : Num → Bool
is_absent a = rank a == 0

pub rank-injective : (a b : Num) → rank a ≡ rank b → a ≡ b
rank-injective absent absent h = refl
rank-injective absent minus_one h = absurd (omega arith)
rank-injective absent (nat n) h = absurd (omega arith)
rank-injective minus_one absent h = absurd (omega arith)
rank-injective minus_one minus_one h = refl
rank-injective minus_one (nat n) h = absurd (omega arith)
rank-injective (nat m) absent h = absurd (omega arith)
rank-injective (nat m) minus_one h = absurd (omega arith)
rank-injective (nat m) (nat n) h = ap nat (omega arith)

pub eq_num_iff : (a b : Num) → (eq_num a b ≡ true) ↔ (a ≡ b)
eq_num_iff a b = (
  λ h. rank-injective a b ((==_iff (rank a) (rank b)).0 h),
  λ h. (==_iff (rank a) (rank b)).1 (ap rank h),
)

pub nat-injective : {m n : ℕ} → nat m ≡ nat n → m ≡ n
nat-injective {m} {n} h = omega (arith, ap rank h)
