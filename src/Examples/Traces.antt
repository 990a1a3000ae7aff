-- ===== src/Examples/Traces.antt =====
-- A machine events file: two ADDs, a REMOVE, a line with an empty field, and UPDATEs of a machine that
-- was removed and of a new one. Platforms and capacities are numbers.
use cse.Prelude.{ℕ, ◌≡◌, refl, ◌==◌, length, List, [], ◌∷◌}
use cse.Command.{pos}
use cse.Dict.{total}
use cse.Events.{EventLine, blank, event, no_machines, read_lines, histogram}
use cse.Events.Working.{Tracks, read_lines-Tracks}
use cse.Events.Counts.{read_lines-counts, histogram-working}

abbrev file : List (EventLine ℕ ℕ)
file =
    event (pos 5) (pos 0) 1 50 25
    ∷ event (pos 6) (pos 0) 1 50 50
    ∷ event (pos 5) (pos 1) 1 50 25
    ∷ blank
    ∷ event (pos 5) (pos 2) 1 50 75
    ∷ event (pos 7) (pos 2) 2 25 25
    ∷ []

working :
    (read_lines (λ a b. a == b) file no_machines).working_machines ≡ pos 6 ∷ pos 5 ∷ pos 7 ∷ []
unfolding read_lines cse.Dict.get? cse.Dict.put cse.Dict.pop cse.LockSet.contains cse.Dict.add_one
    cse.LockSet.remove
working = refl

read_lines-Tracks_example : Tracks (λ a b. a == b) (read_lines (λ a b. a == b) file no_machines)
read_lines-Tracks_example = read_lines-Tracks (λ a b. a == b) file

read_lines-counts_example :
    let s = read_lines (λ a b. a == b) file no_machines in
    (s.machines_added ≡ 2) × (s.machines_removed ≡ 1) × (s.machines_updated ≡ 2)
read_lines-counts_example = read_lines-counts (λ a b. a == b) file

histogram-working_example :
    let s = read_lines (λ a b. a == b) file no_machines in
    total (histogram (λ a b. a == b) (λ c. c.0) s.machine_configs []) ≡ length s.working_machines
histogram-working_example = histogram-working (λ a b. a == b) (λ a b. a == b) (λ c. c.0) file
