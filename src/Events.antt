-- ===== src/Events.antt =====
-- The loop of project/src/events.py over the lines of the machine events file, and its histograms.
-- A line is a list of parsed fields: the numbers that int and float read, with floats and platform
-- ids as parameters.
pub mod Working
pub mod Counts
use cse.Prelude.{ℕ, ◌+◌, ◌-◌, Bool, List, [], ◌∷◌, ◌++◌, Option, some, none, if◌then◌else◌, ◌==◌}
use cse.Command.{ℤ, pos, eq_int}
use cse.LockSet.{contains, remove}
use cse.Dict.{get?, put, pop, add_one}

module _ (K F : Type 0) where
  -- A line with an empty field, or the fields that the loop reads.
  pub data EventLine : Type 0 where
    blank : EventLine
    event :
        (machine_id event_type : ℤ) (platform_id : K) (cpu_capacity memory_capacity : F) → EventLine

  -- The variables of the loop.
  pub record Machines : Type 0 where
    pub init_machine_dist : List (K × ℕ)
    pub machine_dist : List (K × ℕ)
    pub seen_machines : List ℤ
    pub working_machines : List ℤ
    pub machine_configs : List (ℤ × (F × F))
    pub machines_added : ℕ
    pub machines_removed : ℕ
    pub machines_updated : ℕ
    pub warnings : ℕ

module _ {K F : Type 0} where
  abbrev pub no_machines : Machines K F
  no_machines = record {
    init_machine_dist = [];
    machine_dist = [];
    seen_machines = [];
    working_machines = [];
    machine_configs = [];
    machines_added = 0;
    machines_removed = 0;
    machines_updated = 0;
    warnings = 0;
  }

  module _ (same : K → K → Bool) where
    -- The first appearance of a machine, in an ADD.
    unfoldable pub see : ℤ → K → Machines K F → Machines K F
    see machine_id platform_id s = if contains machine_id s.seen_machines then s else record s {
      init_machine_dist = add_one same platform_id s.init_machine_dist;
      seen_machines = s.seen_machines ++ machine_id ∷ [];
    }

    -- The first appearance of a machine, in an UPDATE: here the append to seen_machines stands in the
    -- else branch of the count.
    unfoldable pub see_update : ℤ → K → Machines K F → Machines K F
    see_update machine_id platform_id s =
        if contains machine_id s.seen_machines then s else record s {
          init_machine_dist = add_one same platform_id s.init_machine_dist;
          seen_machines = elim (get? same platform_id s.init_machine_dist) [
            | none ↦ s.seen_machines
            | some n ↦ s.seen_machines ++ machine_id ∷ []
          ];
        }

    -- The machine joins the working ones.
    unfoldable pub work : ℤ → K → Machines K F → Machines K F
    work machine_id platform_id s = if contains machine_id s.working_machines then s else record s {
      machine_dist = add_one same platform_id s.machine_dist;
      working_machines = s.working_machines ++ machine_id ∷ [];
    }

    unfoldable pub configure : ℤ → F × F → Machines K F → Machines K F
    configure machine_id config s = record s {
      machine_configs = put eq_int machine_id config s.machine_configs;
    }

    unfoldable pub add : ℤ → K → F × F → Machines K F → Machines K F
    unfolding see work configure
    add machine_id platform_id config s =
        let t =
          configure machine_id config
            (work machine_id platform_id (see machine_id platform_id s)) in
        record t { machines_added = t.machines_added + 1 }

    -- The platform loses a machine, unless it has none.
    unfoldable pub lose : K → Option ℕ → Machines K F → Machines K F
    lose platform_id none s = record s { warnings = s.warnings + 1 }
    lose platform_id (some n) s =
        if n == 0
        then record s { warnings = s.warnings + 1 }
        else record s { machine_dist = put same platform_id (n - 1) s.machine_dist }

    unfoldable pub take_away : ℤ → K → Machines K F → Machines K F
    unfolding lose
    take_away machine_id platform_id s =
        let t = lose platform_id (get? same platform_id s.machine_dist) s in
        record t {
          working_machines =
              if contains machine_id t.working_machines
              then remove machine_id t.working_machines
              else t.working_machines;
          machine_configs = pop eq_int machine_id t.machine_configs;
          machines_removed = t.machines_removed + 1;
        }

    -- An UPDATE of a machine without a configuration is its first appearance.
    unfoldable pub appear : Option (F × F) → ℤ → K → Machines K F → Machines K F
    unfolding see_update work
    appear (some prior_config) machine_id platform_id s = s
    appear none machine_id platform_id s =
        work machine_id platform_id (see_update machine_id platform_id s)

    unfoldable pub update : ℤ → K → F × F → Machines K F → Machines K F
    unfolding appear configure
    update machine_id platform_id config s =
        let t =
          configure machine_id config
            (appear (get? eq_int machine_id s.machine_configs) machine_id platform_id s) in
        record t { machines_updated = t.machines_updated + 1 }

    -- The body of the loop.
    unfoldable pub read_line : EventLine K F → Machines K F → Machines K F
    unfolding add take_away update
    read_line blank s = record s { warnings = s.warnings + 1 }
    read_line (event machine_id event_type platform_id cpu memory) s =
        if eq_int event_type (pos 0)
        then add machine_id platform_id (cpu, memory) s
        else if eq_int event_type (pos 1)
        then take_away machine_id platform_id s
        else update machine_id platform_id (cpu, memory) s

    unfoldable pub read_lines : List (EventLine K F) → Machines K F → Machines K F
    unfolding read_line
    read_lines [] s = s
    read_lines (l ∷ ls) s = read_lines ls (read_line l s)

module _ {F : Type 0} where
  -- A histogram: how many configurations have each value of `quantity`.
  unfoldable pub histogram :
      (F → F → Bool) → (F × F → F) → List (ℤ × (F × F)) → List (F × ℕ) → List (F × ℕ)
  histogram same_value quantity [] hist = hist
  histogram same_value quantity ((machine_id, config) ∷ configs) hist =
      histogram same_value quantity configs (add_one same_value (quantity config) hist)

  -- The ratio of a configuration, 0 without memory.
  unfoldable pub ratio : (F → Bool) → F → (F → F → F) → F × F → F
  ratio is_zero zero_capacity divide (c, m) = if is_zero m then zero_capacity else divide c m
