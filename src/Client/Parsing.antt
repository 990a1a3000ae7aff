-- ===== src/Client/Parsing.antt =====
-- create_command of problemset2/src/client.py: a line of a command file as a command.
use Prim.Native.Nat.{◌^◌}
use cse.Prelude.{
  ltb, Bool, true, map, All, List, arith, ℕ, suc, All-append, ◌≡◌, ◌∙◌, refl, sym, ap, false, ◌>>=◌,
  [], ◌∷◌, ◌++◌, Option, some, none, ◌==◌, if◌then◌else◌,
}
use cse.Command.{CommandType, lock, unlock, none_type, Command, ℤ}
use cse.Text.{Text, codes, eq_text, split, rstrip, lower, str, int}
use cse.Text.Strip.{rstrip_kept, rstrip-append, rstrip_dropped}
use cse.Text.Split.{IsFree}
use cse.Command.{pos, negsuc}
use cse.Text.Decimal.{int-str}
use cse.Print.{generated_text, type_text, command_text, file_line}
use cse.Print.Fields.{nat-IsFree}
use cse.Validate.Reading.{two_fields}
use cse.Validate.Texts.{split-command_text}

-- assert action.lower() in ["lock", "unlock"], and the type
unfoldable pub parse_type : Text → Option CommandType
unfolding eq_text
parse_type action =
    if eq_text action (codes "unlock")
    then some unlock
    else if eq_text action (codes "lock")
    then some lock
    else none

-- type(resource_id) == int: beyond 64 bits a number of Python 2 is a long.
abbrev pub fits : ℤ → Bool
fits (pos n) = ltb n (2 ^ 63)
fits (negsuc n) = ltb n (2 ^ 63)

-- `none` where the unpacking, an assertion (the last one in the constructor of command) or int raises an
-- exception.
unfoldable pub create_command : Text → Option Command
unfolding rstrip split parse_type int
create_command cmd_str = do
  (action, res_id) ←
      two_fields (split b' ' (rstrip (λ c. c == 10) (rstrip (λ c. c == b' ') cmd_str)))
  t ← parse_type (lower action)
  n ← int res_id
  if fits n then some (record { command_type = t; resource_id = n }) else none

abbrev pub IsRequest : CommandType → Type 0
IsRequest lock = Unit
IsRequest unlock = Unit
IsRequest none_type = ⊥

parse_type-type_text : (t : CommandType) → IsRequest t → parse_type (lower (type_text t)) ≡ some t
unfolding parse_type
parse_type-type_text lock h = refl
parse_type-type_text unlock h = refl
parse_type-type_text none_type h = absurd h

type_text_lineless : (t : CommandType) → IsFree 10 (type_text t)
type_text_lineless lock = (refl, (refl, (refl, (refl, tt))))
type_text_lineless unlock = (refl, (refl, (refl, (refl, (refl, (refl, tt))))))
type_text_lineless none_type = (refl, (refl, (refl, (refl, tt))))

str_lineless : (z : ℤ) → IsFree 10 (str z)
unfolding str
str_lineless (pos n) = nat-IsFree 10 n (omega arith)
str_lineless (negsuc n) = (refl, nat-IsFree 10 (suc n) (omega arith))

-- There is no end of a line in a command.
command_text_lineless : (c : Command) → IsFree 10 (command_text c)
unfolding command_text
command_text_lineless c =
    All-append (λ x. (x == 10) ≡ false) (type_text c.command_type) (b' ' ∷ str c.resource_id)
      (type_text_lineless c.command_type) (refl, str_lineless c.resource_id)

newline_stays : rstrip (λ x. x == b' ') (10 ∷ []) ≡ 10 ∷ []
unfolding rstrip
newline_stays = refl

-- The generators concatenate the text of the command.
generated_text-command_text :
    (t : CommandType) (n : ℤ)
    → IsRequest t
    → generated_text t n ≡ command_text (record { command_type = t; resource_id = n })
unfolding command_text
generated_text-command_text lock n h = refl
generated_text-command_text unlock n h = refl
generated_text-command_text none_type n h = absurd h

stripped :
    (c : Command)
    → IsRequest c.command_type
    → rstrip (λ x. x == 10) (rstrip (λ x. x == b' ') (file_line c)) ≡ command_text c
unfolding file_line
stripped c h =
    ap (λ t. rstrip (λ x. x == 10) (rstrip (λ x. x == b' ') (t ++ 10 ∷ [])))
      (generated_text-command_text c.command_type c.resource_id h)
    ∙ ap (rstrip (λ x. x == 10)) (
        rstrip-append (λ x. x == b' ') (command_text c) (10 ∷ [])
          (λ e. cons-ne-nil (sym newline_stays ∙ e))
        ∙ ap (λ r. command_text c ++ r) newline_stays)
    ∙ rstrip_dropped (λ x. x == 10) (command_text c) 10 refl
    ∙ rstrip_kept (λ x. x == 10) (command_text c) (command_text_lineless c)
  where
    cons-ne-nil : {c : ℕ} {cs : Text} → c ∷ cs ≡ [] → ⊥
    cons-ne-nil e = cc

-- The line that a generator writes for a LOCK or an UNLOCK of any resource, negative ones included, is
-- read back as the same command if the resource fits into 64 bits, and fails an assertion if not.
pub create_command-file_line :
    (c : Command)
    → IsRequest c.command_type
    → create_command (file_line c) ≡ (if fits c.resource_id then some c else none)
unfolding create_command
create_command-file_line c h =
    rw
      (
        stripped c h,
        split-command_text c,
        parse_type-type_text c.command_type h,
        int-str c.resource_id,
      )
      refl

-- cmd_list of send_commands_from_file: the lines of the file as commands.
unfoldable pub load_commands : List Text → Option (List Command)
unfolding create_command
load_commands [] = some []
load_commands (line ∷ cfile) = do
  c ← create_command line
  cmd_list ← load_commands cfile
  some (c ∷ cmd_list)

pub load_commands-file_lines :
    (cs : List Command)
    → All (λ c. IsRequest c.command_type × (fits c.resource_id ≡ true)) cs
    → load_commands (map file_line cs) ≡ some cs
unfolding load_commands
load_commands-file_lines [] h = refl
load_commands-file_lines (c ∷ cs) h =
    rw (create_command-file_line c h.0.0, h.0.1, load_commands-file_lines cs h.1) refl
