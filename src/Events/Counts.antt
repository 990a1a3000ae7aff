-- ===== src/Events/Counts.antt =====
-- The counters and the histograms of project/src/events.py.
use cse.Prelude.{
  ℕ, suc, ◌+◌, ◌≡◌, refl, ◌∙◌, ap, Bool, List, [], ◌∷◌, if◌then◌else◌, arith, Bool-cases, inl, inr,
  length, ◌==◌, Option, none, some,
}
use cse.Command.{ℤ, pos, eq_int}
use cse.LockSet.{contains}
use cse.Dict.{get?, total, add_one, total-add_one}
use cse.Events.{
  blank, event, EventLine, Machines, no_machines, see, see_update, work, configure, add, lose,
  take_away, appear, update, read_line, read_lines, histogram,
}
use cse.Events.Working.{keys, read_lines-Tracks}

module _ {K F : Type 0} where
  -- The kind of a line: 0, 1 and 2 for an ADD, a REMOVE and an UPDATE, 3 for an empty field.
  abbrev pub kind : EventLine K F → ℕ
  kind blank = 3
  kind (event r type k cpu memory) =
      if eq_int type (pos 0) then 0 else if eq_int type (pos 1) then 1 else 2

  -- How many lines are of a kind.
  abbrev pub lines_of : ℕ → List (EventLine K F) → ℕ
  lines_of n [] = 0
  lines_of n (l ∷ ls) = if kind l == n then suc (lines_of n ls) else lines_of n ls

  module _ (same : K → K → Bool) where
    -- The counters of `t` are those of `s`, with the line.
    record CountsLine (l : EventLine K F) (s t : Machines K F) : Type 0 where
      added : t.machines_added ≡ s.machines_added + (if kind l == 0 then 1 else 0)
      removed : t.machines_removed ≡ s.machines_removed + (if kind l == 1 then 1 else 0)
      updated : t.machines_updated ≡ s.machines_updated + (if kind l == 2 then 1 else 0)

    -- What leaves the counters alone.
    abbrev SameCounts : Machines K F → Machines K F → Type 0
    SameCounts s t =
        (t.machines_added ≡ s.machines_added)
        × (t.machines_removed ≡ s.machines_removed)
        × (t.machines_updated ≡ s.machines_updated)

    see_counts : (r : ℤ) (k : K) (s : Machines K F) → SameCounts s (see same r k s)
    unfolding see
    see_counts r k s = elim (Bool-cases (contains r s.seen_machines)) [
      | inl old ↦ rw old (refl, refl, refl)
      | inr new ↦ rw new (refl, refl, refl)
    ]

    see_update_counts : (r : ℤ) (k : K) (s : Machines K F) → SameCounts s (see_update same r k s)
    unfolding see_update
    see_update_counts r k s = elim (Bool-cases (contains r s.seen_machines)) [
      | inl old ↦ rw old (refl, refl, refl)
      | inr new ↦ rw new (refl, refl, refl)
    ]

    work_counts : (r : ℤ) (k : K) (s : Machines K F) → SameCounts s (work same r k s)
    unfolding work
    work_counts r k s = elim (Bool-cases (contains r s.working_machines)) [
      | inl old ↦ rw old (refl, refl, refl)
      | inr new ↦ rw new (refl, refl, refl)
    ]

    lose_counts : (k : K) (o : Option ℕ) (s : Machines K F) → SameCounts s (lose same k o s)
    unfolding lose
    lose_counts k none s = (refl, refl, refl)
    lose_counts k (some n) s = elim (Bool-cases (n == 0)) [
      | inl empty ↦ rw empty (refl, refl, refl)
      | inr left ↦ rw left (refl, refl, refl)
    ]

    both : (s t u : Machines K F) → SameCounts s t → SameCounts t u → SameCounts s u
    both s t u h g = (g.0 ∙ h.0, g.1 ∙ h.1, g.2 ∙ h.2)

    appear_counts :
        (o : Option (F × F)) (r : ℤ) (k : K) (s : Machines K F) → SameCounts s (appear same o r k s)
    unfolding appear
    appear_counts (some prior) r k s = (refl, refl, refl)
    appear_counts none r k s =
        both s (see_update same r k s) (work same r k (see_update same r k s))
          (see_update_counts r k s) (work_counts r k (see_update same r k s))

    read_line_counts : (l : EventLine K F) (s : Machines K F) → CountsLine l s (read_line same l s)
    unfolding read_line add update take_away configure
    read_line_counts blank s = record {
      added = omega arith;
      removed = omega arith;
      updated = omega arith;
    }
    read_line_counts (event r type k cpu memory) s = elim (Bool-cases (eq_int type (pos 0))) [
      | inl adds ↦
          let c =
            both s (see same r k s) (work same r k (see same r k s)) (see_counts r k s)
              (work_counts r k (see same r k s)) in
          record {
            added = rw adds (omega (arith, c.0));
            removed = rw adds (omega (arith, c.1));
            updated = rw adds (omega (arith, c.2));
          }
      | inr other ↦ elim (Bool-cases (eq_int type (pos 1))) [
        | inl takes ↦
            let c = lose_counts k (get? same k s.machine_dist) s in
            record {
              added = rw (other, takes) (omega (arith, c.0));
              removed = rw (other, takes) (omega (arith, c.1));
              updated = rw (other, takes) (omega (arith, c.2));
            }
        | inr updates ↦
            let c = appear_counts (get? eq_int r s.machine_configs) r k s in
            record {
              added = rw (other, updates) (omega (arith, c.0));
              removed = rw (other, updates) (omega (arith, c.1));
              updated = rw (other, updates) (omega (arith, c.2));
            }
      ]
    ]

    abbrev Counted : List (EventLine K F) → Machines K F → Machines K F → Type 0
    Counted ls s t =
        (t.machines_added ≡ s.machines_added + lines_of 0 ls)
        × (t.machines_removed ≡ s.machines_removed + lines_of 1 ls)
        × (t.machines_updated ≡ s.machines_updated + lines_of 2 ls)

    read_lines_from_counts :
        (ls : List (EventLine K F)) (s : Machines K F) → Counted ls s (read_lines same ls s)
    unfolding read_lines
    read_lines_from_counts [] s = (omega arith, omega arith, omega arith)
    read_lines_from_counts (l ∷ ls) s =
        let h = read_line_counts l s in
        let ih = read_lines_from_counts ls (read_line same l s) in
        (
          ground (arith, h.added, ih.0),
          ground (arith, h.removed, ih.1),
          ground (arith, h.updated, ih.2),
        )

    -- At the end of the file the three counters are the numbers of the ADD, REMOVE and UPDATE lines
    -- that have no empty field.
    pub read_lines-counts :
        (ls : List (EventLine K F))
        → let s = read_lines same ls no_machines in
          (s.machines_added ≡ lines_of 0 ls)
          × (s.machines_removed ≡ lines_of 1 ls)
          × (s.machines_updated ≡ lines_of 2 ls)
    read_lines-counts ls =
        let c = read_lines_from_counts ls no_machines in
        (omega (arith, c.0), omega (arith, c.1), omega (arith, c.2))

length-keys : {V : Type 0} (d : List (ℤ × V)) → length (keys d) ≡ length d
length-keys [] = refl
length-keys ((k, v) ∷ d) = omega (arith, length-keys d)

histogram-total :
    {F : Type 0} (same_value : F → F → Bool) (quantity : F × F → F) (configs : List (ℤ × (F × F)))
    (hist : List (F × ℕ))
    → total (histogram same_value quantity configs hist) ≡ length configs + total hist
unfolding histogram
histogram-total same_value quantity [] hist = omega arith
histogram-total same_value quantity ((r, config) ∷ configs) hist = omega (
  arith,
  histogram-total same_value quantity configs (add_one same_value (quantity config) hist),
  total-add_one same_value (quantity config) hist,
)

-- The counts of a histogram over the final configurations add up to the number of working machines,
-- for every quantity of a configuration.
pub histogram-working :
    {K F : Type 0} (same : K → K → Bool) (same_value : F → F → Bool) (quantity : F × F → F)
    (ls : List (EventLine K F))
    → let s = read_lines same ls no_machines in
      total (histogram same_value quantity s.machine_configs []) ≡ length s.working_machines
histogram-working same same_value quantity ls =
    let s = read_lines same ls no_machines in
    let t = read_lines-Tracks same ls in
    let e : length (keys s.machine_configs) ≡ length s.working_machines =
      ap length t.same_machines in
    omega (
      arith,
      histogram-total same_value quantity s.machine_configs [],
      length-keys s.machine_configs,
      e,
    )
