-- ===== src/ClientFiles/Loading.antt =====
-- What validate_client_file of problemset2/src/lock_file.py loads from a log of server.py, and which
-- logs match it.
use cse.Prelude.{
  append-nil, ℕ, suc, ◌≤◌, ◌≡◌, ◌∙◌, refl, sym, ap, subst, false, true, List, [], ◌∷◌, ◌++◌, ◌>>=◌,
  map, append_assoc, All, some, none, Memᴰ, arith, inl, inr, Bool-cases, ◌==◌, if◌then◌else◌,
}
use mathlib.Core.List.Memᴰ.{head, tail}
use cse.Command.{ℤ, pos, eq_int}
use cse.Message.{Value, number, cmd}
use cse.Proposer.{Line}
use cse.Text.{Text, eq_text, int}
use cse.Text.Decimal.{int-digits_blank}
use cse.Print.{value_text, command_text, log_line}
use cse.Dict.{get?, put, add_one}
use cse.MainLoop.Numbering.{IsNumbered}
use cse.Validate.{field_count}
use cse.Validate.Reading.{LogEntry, read_log_line}
use cse.Validate.Texts.{read_log_line-log_line, entry_of}
use cse.ClientFiles.{
  Loaded, entry_text, record_entry, load_line, load_lines, matches_read, lines_match,
}

abbrev IsCmd : Value → Type 0
IsCmd (number n) = ⊥
IsCmd (cmd c) = Unit

-- A line of a command, with no negative id.
abbrev pub IsCommandLine : Line → Type 0
IsCommandLine l = (field_count l ≡ 3) × IsCmd l.command

-- The cmd_list of a log, and its entries.
abbrev pub table : List Line → List (ℤ × Text)
table [] = []
table (l ∷ ls) = (pos l.instance_num, value_text l.command) ∷ table ls

abbrev pub count_entries : List Line → List (Text × ℕ) → List (Text × ℕ)
count_entries [] d = d
count_entries (l ∷ ls) d = count_entries ls (add_one eq_text (value_text l.command) d)

put_fresh :
    (k : ℤ) (v : Text) (d : List (ℤ × Text))
    → get? eq_int k d ≡ none
    → put eq_int k v d ≡ d ++ (k, v) ∷ []
unfolding put get?
put_fresh k v [] h = refl
put_fresh k v ((j, w) ∷ d) h = elim (Bool-cases (eq_int j k)) [
  | inl same ↦
      let e : some w ≡ none = subst (λ b. (if b then some w else get? eq_int k d) ≡ none) same h in
      cc
  | inr other ↦
      rw
        (
          other,
          put_fresh k v d (subst (λ b. (if b then some w else get? eq_int k d) ≡ none) other h),
        )
        refl
]

get?-append :
    (j k : ℤ) (v : Text) (d : List (ℤ × Text))
    → get? eq_int j d ≡ none
    → eq_int k j ≡ false
    → get? eq_int j (d ++ (k, v) ∷ []) ≡ none
unfolding get?
get?-append j k v [] h ne = rw ne refl
get?-append j k v ((i, w) ∷ d) h ne = elim (Bool-cases (eq_int i j)) [
  | inl same ↦
      let e : some w ≡ none = subst (λ b. (if b then some w else get? eq_int j d) ≡ none) same h in
      cc
  | inr other ↦
      rw other (
        get?-append j k v d (subst (λ b. (if b then some w else get? eq_int j d) ≡ none) other h)
          ne)
]

-- No instance from `k` on has been loaded.
abbrev IsOpenFrom : ℕ → List (ℤ × Text) → Type 0
IsOpenFrom k d = (j : ℕ) → k ≤ j → get? eq_int (pos j) d ≡ none

read_command :
    (l : Line)
    → IsCommandLine l
    → (e : LogEntry) × (read_log_line (log_line l) ≡ some e)
      × (int e.instance_field ≡ some (pos l.instance_num))
      × (entry_text e ≡ value_text l.command)
unfolding value_text command_text
read_command l h = by_value l.command h.1 (
    read_log_line-log_line l
    ∙ ap (λ b. if b then entry_of l.instance_num l.command else none) plain)
  where
    plain : (field_count l == 3) ≡ true
    plain = ground (arith, h.0)

    by_value :
        (v : Value)
        → IsCmd v
        → read_log_line (log_line l) ≡ entry_of l.instance_num v
        → (e : LogEntry) × (read_log_line (log_line l) ≡ some e)
          × (int e.instance_field ≡ some (pos l.instance_num))
          × (entry_text e ≡ value_text v)
    by_value (number n) c r = absurd c
    by_value (cmd c) t r = (_, r, int-digits_blank l.instance_num, refl)

load_line-log_line :
    (l : Line) (s : Loaded)
    → IsCommandLine l
    → get? eq_int (pos l.instance_num) s.cmd_list ≡ none
    → load_line (log_line l) s
      ≡ some (record {
        server_dist = add_one eq_text (value_text l.command) s.server_dist;
        cmd_list = s.cmd_list ++ (pos l.instance_num, value_text l.command) ∷ [];
      })
unfolding load_line record_entry
load_line-log_line l s h free =
    let (e, r, i, t) = read_command l h in
    rw (r, i, free, t, put_fresh (pos l.instance_num) (value_text l.command) s.cmd_list free) refl

-- A numbered log is loaded line by line.
pub load_lines-log_lines :
    (k : ℕ) (ls : List Line) (s : Loaded)
    → IsNumbered k ls
    → All IsCommandLine ls
    → IsOpenFrom k s.cmd_list
    → load_lines (map log_line ls) s
      ≡ some (record {
        server_dist = count_entries ls s.server_dist;
        cmd_list = s.cmd_list ++ table ls;
      })
unfolding load_lines
load_lines-log_lines k [] s n h free =
    ap (λ x. some (record { server_dist = s.server_dist; cmd_list = x }))
      (sym (append-nil s.cmd_list))
load_lines-log_lines k (l ∷ ls) s n h free =
    let loaded = load_line-log_line l s h.0 (free l.instance_num (omega (arith, n.0))) in
    let t : Loaded = record {
      server_dist = add_one eq_text (value_text l.command) s.server_dist;
      cmd_list = s.cmd_list ++ (pos l.instance_num, value_text l.command) ∷ [];
    } in
    ap (λ o. o >>= λ t. load_lines (map log_line ls) t) loaded
    ∙ load_lines-log_lines (suc k) ls t n.1 h.1 (λ j le.
      get?-append (pos j) (pos l.instance_num) (value_text l.command) s.cmd_list
        (free j (omega (arith, le))) (ground (arith, n.0, le)))
    ∙ ap (λ x. some (record { server_dist = count_entries ls t.server_dist; cmd_list = x }))
        (append_assoc s.cmd_list ((pos l.instance_num, value_text l.command) ∷ []) (table ls))

number_below :
    (k : ℕ) (l : Line) (ls : List Line) → IsNumbered k ls → Memᴰ l ls → k ≤ l.instance_num
number_below k l [] n m = elim m [ ]
number_below k l (x ∷ ls) n (head e) = omega (arith, n.0, ap (λ y. y.instance_num) e)
number_below k l (x ∷ ls) n (tail m) = omega (arith, number_below (suc k) l ls n.1 m)

get?-table :
    (k : ℕ) (l : Line) (ls : List Line)
    → IsNumbered k ls
    → Memᴰ l ls
    → get? eq_int (pos l.instance_num) (table ls) ≡ some (value_text l.command)
unfolding get?
get?-table k l [] n m = elim m [ ]
get?-table k l (x ∷ ls) n (head e) =
    let same : eq_int (pos x.instance_num) (pos l.instance_num) ≡ true =
      ground (arith, ap (λ y. y.instance_num) e) in
    rw same (ap (λ y. some (value_text y.command)) (sym e))
get?-table k l (x ∷ ls) n (tail m) =
    let differ : eq_int (pos x.instance_num) (pos l.instance_num) ≡ false =
      ground (arith, n.0, number_below (suc k) l ls n.1 m) in
    rw differ (get?-table (suc k) l ls n.1 m)

pub eq_text_self : (s : Text) → eq_text s s ≡ true
unfolding eq_text
eq_text_self [] = refl
eq_text_self (c ∷ cs) = ground (arith, eq_text_self cs)

-- Lines of the log that was loaded match it.
pub lines_match-log_lines :
    (k : ℕ) (ls all : List Line)
    → IsNumbered k all
    → All IsCommandLine ls
    → ((l : Line) → Memᴰ l ls → Memᴰ l all)
    → lines_match (table all) (map log_line ls) ≡ true
unfolding lines_match
lines_match-log_lines k [] all n h sub = refl
lines_match-log_lines k (l ∷ ls) all n h sub =
    let (e, r, i, t) = read_command l h.0 in
    let one : matches_read (table all) (read_log_line (log_line l)) ≡ true =
      rw (r, i, get?-table k l all n (sub l (head refl)), t)
        (eq_text_self (value_text l.command)) in
    rw one (lines_match-log_lines k ls all n h.1 (λ x m. sub x (tail m)))
