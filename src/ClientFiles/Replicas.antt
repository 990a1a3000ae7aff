-- ===== src/ClientFiles/Replicas.antt =====
-- The check of the replicas in validate_client_file of problemset2/src/lock_file.py, on the logs of a
-- group of server.py.
use cse.Prelude.{
  All-mem, ℕ, ◌≤◌, ◌≡◌, ◌∙◌, refl, sym, ap, subst, true, false, Bool, ◌&&◌, List, [], ◌∷◌, map, All,
  All-map, Memᴰ, length, arith, inl, inr, Bool-cases,
}
use mathlib.Core.List.Memᴰ.{append_left}
use cse.Num.{Num}
use cse.Message.{Message}
use cse.Proposer.{Line}
use cse.Text.{Text, eq_text}
use cse.Print.{log_line}
use cse.MainLoop.Numbering.{IsNumbered}
use cse.System.{Action}
use cse.System.Replicas.{member, member-IsNumberedReplica, run-prefix}
use cse.ClientFiles.{
  ServerFile, longest, lines_match, files_match, count_files, same_counts, after_load, with_log,
  validate_client_file,
}
use cse.ClientFiles.Loading.{
  IsCommandLine, table, count_entries, load_lines-log_lines, lines_match-log_lines,
}
use cse.ClientFiles.Longest.{longest_from}

and_true : (b : Bool) → (b && true) ≡ b
and_true true = refl
and_true false = refl

length-log_lines : (ls : List Line) → length (map log_line ls) ≡ length ls
length-log_lines [] = refl
length-log_lines (l ∷ ls) = ground (arith, length-log_lines ls)

module _ (above : Message → Message → Bool) (n : ℕ) (acceptor_conns : ℕ → List Num)
    (proposer_conns : ℕ → List ℕ) (actions : List Action) where
  -- The log of a member after the run.
  abbrev log : ℕ → List Line
  log s = (member above n acceptor_conns proposer_conns actions s).logfile

  module _ (name : ℕ → Text) where
    -- Each line of the log is a command with no negative id.
    abbrev IsPlainLog : ℕ → Type 0
    IsPlainLog s = All IsCommandLine (log s)

    abbrev file : ℕ → ServerFile
    file s = record { name = name s; lines = map log_line (log s) }

    log-IsNumbered : (s : ℕ) → IsNumbered 0 (log s)
    log-IsNumbered s = (member-IsNumberedReplica above n acceptor_conns proposer_conns actions s).1

    file-matches :
        (s t : ℕ)
        → IsPlainLog s
        → length (log s) ≤ length (log t)
        → lines_match (table (log t)) (map log_line (log s)) ≡ true
    file-matches s t plain le =
        let (rest, e) = run-prefix above n acceptor_conns proposer_conns actions s t le in
        lines_match-log_lines 0 (log s) (log t) (log-IsNumbered t) plain
          (λ l m. subst (Memᴰ l) (sym e) (append_left rest m))

    files_match-log :
        (t : ℕ) (ms : List ℕ)
        → All IsPlainLog ms
        → All (λ s. length (log s) ≤ length (log t)) ms
        → files_match (name t) (table (log t)) (map file ms) ≡ true
    unfolding files_match
    files_match-log t [] plain h = refl
    files_match-log t (s ∷ ms) plain h = elim (Bool-cases (eq_text (name s) (name t))) [
      | inl own ↦ rw own (files_match-log t ms plain.1 h.1)
      | inr other ↦ rw (other, file-matches s t plain.0 h.0) (files_match-log t ms plain.1 h.1)
    ]

    module _ (line_count : ServerFile → ℕ)
        (counts : (f : ServerFile) → line_count f ≡ length f.lines) where
      -- Take the logs of some members of a group after any run, where each line is a command with no
      -- negative id, and `wc -l` counts the lines. Then validate_client_file raises nothing while it loads
      -- the longest log and while it compares the others with it: the result is that of the comparison of
      -- the clients' commands with the commands of a longest log.
      pub validate_client_file-run :
          (c : List Text) (client_files : List (List Text)) (b : ℕ) (ms : List ℕ)
          → All IsPlainLog (b ∷ ms)
          → (t : ℕ) × Memᴰ t (b ∷ ms)
            × All (λ s. length (log s) ≤ length (log t)) (b ∷ ms)
            × (validate_client_file line_count (c ∷ client_files) (map file (b ∷ ms))
                ≡ same_counts (count_files (c ∷ client_files) []) (count_entries (log t) []))
      unfolding validate_client_file longest
      validate_client_file-run c client_files b ms plain =
          let (t, h, found) = longest_from line_count file b ms in
          let size : (s : ℕ) → line_count (file s) ≡ length (log s) =
            λ s. counts (file s) ∙ length-log_lines (log s) in
          let most : All (λ s. length (log s) ≤ length (log t)) (b ∷ ms) =
            All-map (λ s. line_count (file s) ≤ line_count (file t))
              (λ s. length (log s) ≤ length (log t)) (λ s le. omega (arith, le, size s, size t))
              (b ∷ ms) h.most in
          let loaded =
            load_lines-log_lines 0 (log t) (record { server_dist = []; cmd_list = [] })
              (log-IsNumbered t) (All-mem IsPlainLog (b ∷ ms) plain h.one_of) (λ j le. refl) in
          (
            t,
            h.one_of,
            most,
            ap (with_log line_count (c ∷ client_files) (map file (b ∷ ms))) found
                ∙ ap (after_load line_count (c ∷ client_files) (map file (b ∷ ms)) (name t)) loaded
                ∙ ap
                    (λ x.
                      same_counts (count_files (c ∷ client_files) []) (count_entries (log t) [])
                      && x)
                    (files_match-log t (b ∷ ms) plain most)
                ∙ and_true
                    (same_counts (count_files (c ∷ client_files) []) (count_entries (log t) [])),
          )
