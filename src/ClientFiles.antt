-- ===== src/ClientFiles.antt =====
-- validate_client_file of problemset2/src/lock_file.py: whether the commands of the client files are
-- those of the longest server log, and whether the other logs agree with it. `wc -l` is the parameter
-- `line_count`; `none` and false stand for an exception: a failed assertion, a ValueError or a KeyError.
pub mod Loading
pub mod Longest
pub mod Replicas
pub mod Distribution
use cse.Prelude.{
  ℕ, Bool, true, false, ◌&&◌, ◌||◌, ◌>>=◌, List, [], ◌∷◌, ◌++◌, Option, some, none, ltb, ◌==◌,
  if◌then◌else◌,
}
use cse.Command.{ℤ, eq_int}
use cse.Text.{Text, eq_text, is_blank, strip, str, int}
use cse.Dict.{get?, put, add_one}
use cse.Validate.Reading.{LogEntry, read_log_line}

-- The log of a server.
pub record ServerFile : Type 0 where
  pub name : Text
  pub lines : List Text

-- server_dist and cmd_list
pub record Loaded : Type 0 where
  pub server_dist : List (Text × ℕ)
  pub cmd_list : List (ℤ × Text)

-- cmd_type + " " + str(lock_num)
abbrev pub entry_text : LogEntry → Text
entry_text e = e.cmd_type ++ b' ' ∷ str e.lock_num

-- A key is a new one: assert(int(fields[0]) not in cmd_list).
unfoldable pub record_entry : ℤ → Text → Option Text → Loaded → Option Loaded
unfolding put add_one eq_text
record_entry i entry (some old) s = none
record_entry i entry none s = some (record {
  server_dist = add_one eq_text entry s.server_dist;
  cmd_list = put eq_int i entry s.cmd_list;
})

unfoldable pub load_line : Text → Loaded → Option Loaded
unfolding read_log_line int record_entry get?
load_line line s = do
  e ← read_log_line line
  i ← int e.instance_field
  record_entry i (entry_text e) (get? eq_int i s.cmd_list) s

-- The longest server log is loaded.
unfoldable pub load_lines : List Text → Loaded → Option Loaded
unfolding load_line
load_lines [] s = some s
load_lines (line ∷ lines) s = load_line line s >>= λ t. load_lines lines t

-- cli_dist, over the lines of a client file
unfoldable pub count_lines : List Text → List (Text × ℕ) → List (Text × ℕ)
unfolding strip add_one eq_text
count_lines [] d = d
count_lines (line ∷ lines) d = count_lines lines (add_one eq_text (strip is_blank line) d)

unfoldable pub count_files : List (List Text) → List (Text × ℕ) → List (Text × ℕ)
unfolding count_lines
count_files [] d = d
count_files (f ∷ files) d = count_files files (count_lines f d)

abbrev is_count : ℕ → Option ℕ → Bool
is_count n none = false
is_count n (some m) = n == m

-- The counts of the clients are those of the server.
unfoldable pub same_counts : List (Text × ℕ) → List (Text × ℕ) → Bool
unfolding get? eq_text
same_counts [] server_dist = true
same_counts ((key, n) ∷ cli_dist) server_dist =
    is_count n (get? eq_text key server_dist) && same_counts cli_dist server_dist

abbrev is_command : Text → Option Text → Bool
is_command c none = false
is_command c (some d) = eq_text d c

-- cmd_list[instance] == cmd
abbrev pub matches_entry : List (ℤ × Text) → LogEntry → Option ℤ → Bool
matches_entry cmd_list e none = false
matches_entry cmd_list e (some i) = is_command (entry_text e) (get? eq_int i cmd_list)

abbrev pub matches_read : List (ℤ × Text) → Option LogEntry → Bool
matches_read cmd_list none = false
matches_read cmd_list (some e) = matches_entry cmd_list e (int e.instance_field)

unfoldable pub lines_match : List (ℤ × Text) → List Text → Bool
unfolding read_log_line int get? eq_text
lines_match cmd_list [] = true
lines_match cmd_list (line ∷ lines) =
    matches_read cmd_list (read_log_line line) && lines_match cmd_list lines

-- Each of the other logs matches the loaded one.
unfoldable pub files_match : Text → List (ℤ × Text) → List ServerFile → Bool
unfolding lines_match eq_text
files_match server_log cmd_list [] = true
files_match server_log cmd_list (f ∷ files) =
    (eq_text f.name server_log || lines_match cmd_list f.lines)
    && files_match server_log cmd_list files

module _ (line_count : ServerFile → ℕ) where
  abbrev better : ServerFile → Option ServerFile → ServerFile
  better s none = s
  better s (some best) = if ltb (line_count best) (line_count s) then s else best

  -- The most complete server log; `none` before the first.
  unfoldable pub longest : List ServerFile → Option ServerFile → Option ServerFile
  longest [] best = best
  longest (s ∷ files) best = longest files (some (better s best))

  abbrev after_load : List (List Text) → List ServerFile → Text → Option Loaded → Bool
  after_load client_files server_files server_log none = false
  after_load client_files server_files server_log (some s) =
      same_counts (count_files client_files []) s.server_dist
      && files_match server_log s.cmd_list server_files

  abbrev with_log : List (List Text) → List ServerFile → Option ServerFile → Bool
  with_log client_files server_files none = false
  with_log client_files server_files (some log) =
      after_load client_files server_files log.name
        (load_lines log.lines (record { server_dist = []; cmd_list = [] }))

  -- Whether validate_client_file ends with no exception.
  unfoldable pub validate_client_file : List (List Text) → List ServerFile → Bool
  unfolding load_lines same_counts count_files files_match longest
  validate_client_file [] server_files = false
  validate_client_file (c ∷ client_files) server_files =
      with_log (c ∷ client_files) server_files (longest server_files none)
