-- ===== src/Command.antt =====
-- command.py: the commands of the lock service.
use cse.Prelude.{ℕ, ◌≡◌, ◌↔◌, Bool, true, arith, ◌==◌, ◌&&◌}

pub data CommandType : Type 0 where
  lock unlock none_type : CommandType

-- The values of COMMAND_TYPE.
abbrev pub command_code : CommandType → ℕ
command_code lock = 0
command_code unlock = 1
command_code none_type = 2

-- A Python int: `negsuc n` is -(n + 1).
pub data ℤ : Type 0 where
  pos : ℕ → ℤ
  negsuc : ℕ → ℤ

abbrev pub eq_int : ℤ → ℤ → Bool
eq_int a b = elim a [
  | pos m ↦ elim b [ pos n ↦ m == n | negsuc n ↦ Bool.false ]
  | negsuc m ↦ elim b [ pos n ↦ Bool.false | negsuc n ↦ m == n ]
]

pub record Command : Type 0 where
  pub command_type : CommandType
  pub resource_id : ℤ

-- command.__eq__, between two commands.
abbrev pub eq_command : Command → Command → Bool
eq_command a b =
    eq_int a.resource_id b.resource_id && command_code a.command_type == command_code b.command_type

pub eq_int_iff : (a b : ℤ) → (eq_int a b ≡ true) ↔ (a ≡ b)
eq_int_iff a b = (λ h. ground arith, λ h. ground arith)

pub command_code-injective : (a b : CommandType) → command_code a ≡ command_code b → a ≡ b
command_code-injective a b h = ground arith

pub eq_command_iff : (a b : Command) → (eq_command a b ≡ true) ↔ (a ≡ b)
eq_command_iff a b = (
  λ h. ground (arith, eq_int_iff a.resource_id b.resource_id),
  λ h. ground (arith, eq_int_iff a.resource_id b.resource_id),
)
