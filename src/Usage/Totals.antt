-- ===== src/Usage/Totals.antt =====
-- The histograms of project/src/usage.py against its counters.
use cse.Prelude.{
  [], ◌∷◌, ◌∙◌, ap, ◌∷◌, false, subst, refl, length, All, some, List, ℕ, ◌+◌, ◌≡◌, arith,
}
use cse.Dict.{total, total-add_one}
use cse.Usage.{
  with_row, no_statistics, raises, incomplete, task, read_row, UsageRow, read_rows, Floats, Task,
  Statistics, collect,
}

-- Each histogram counts every processed task once; `n` rows have been read.
pub record IsComplete {F : Type 0} (n : ℕ) (s : Statistics F) : Type 0 where
  pub rows : s.tasks_processed + s.discarded_tasks ≡ n
  pub durations : total s.task_duration_distribution ≡ s.tasks_processed
  pub cpu_rates : total s.cpu_rate_distribution ≡ s.tasks_processed
  pub disk_io : total s.disk_io_distribution ≡ s.tasks_processed
  pub disk_space : total s.disk_space_usage_distribution ≡ s.tasks_processed
  pub ispc : total s.ispc_distribution ≡ s.tasks_processed
  pub mai : total s.mai_distribution ≡ s.tasks_processed
  pub space_total : s.total_disk_space_usage ≡ s.tasks_processed

module _ {F : Type 0} (floats : Floats F) where
  collect-IsComplete :
      (t : Task F) (n : ℕ) (s : Statistics F)
      → IsComplete n s
      → IsComplete (n + 1) (collect floats t s)
  unfolding collect
  collect-IsComplete t n s h = record {
    rows = omega (arith, h.rows);
    durations =
        omega (arith, h.durations, total-add_one floats.same _ s.task_duration_distribution);
    cpu_rates = omega (arith, h.cpu_rates, total-add_one floats.same _ s.cpu_rate_distribution);
    disk_io = omega (arith, h.disk_io, total-add_one floats.same _ s.disk_io_distribution);
    disk_space =
        omega (arith, h.disk_space, total-add_one floats.same _ s.disk_space_usage_distribution);
    ispc = omega (arith, h.ispc, total-add_one floats.same _ s.ispc_distribution);
    mai = omega (arith, h.mai, total-add_one floats.same _ s.mai_distribution);
    space_total = omega (arith, h.space_total);
  }

  -- The row raises no exception.
  abbrev pub IsRegular : UsageRow F → Type 0
  IsRegular incomplete = Unit
  IsRegular (task t) = raises floats t ≡ false

  read_row-IsComplete :
      (r : UsageRow F) (n : ℕ) (s : Statistics F)
      → IsRegular r
      → IsComplete n s
      → (t : Statistics F) × (read_row floats r s ≡ some t) × IsComplete (n + 1) t
  unfolding read_row
  read_row-IsComplete incomplete n s reg h = (
    record s { discarded_tasks = s.discarded_tasks + 1 },
    refl,
    record {
      rows = omega (arith, h.rows);
      durations = h.durations;
      cpu_rates = h.cpu_rates;
      disk_io = h.disk_io;
      disk_space = h.disk_space;
      ispc = h.ispc;
      mai = h.mai;
      space_total = h.space_total;
    },
  )
  read_row-IsComplete (task t) n s reg h =
      (collect floats t s, rw reg refl, collect-IsComplete t n s h)

  read_rows_from-IsComplete :
      (rs : List (UsageRow F)) (n : ℕ) (s : Statistics F)
      → All IsRegular rs
      → IsComplete n s
      → (t : Statistics F) × (read_rows floats rs s ≡ some t) × IsComplete (n + length rs) t
  unfolding read_rows
  read_rows_from-IsComplete [] n s reg h = (s, refl, subst (λ m. IsComplete m s) (omega arith) h)
  read_rows_from-IsComplete (r ∷ rs) n s reg h =
      let (t, e, g) = read_row-IsComplete r n s reg.0 h in
      let (u, e', k) = read_rows_from-IsComplete rs (n + 1) t reg.1 g in
      (
        u,
        ap (λ o. with_row floats o (read_rows floats rs)) e ∙ e',
        subst (λ m. IsComplete m u) (omega arith) k,
      )

  -- If no row raises an exception, the loop ends, every row is either processed or discarded, and each
  -- of the six histograms counts every processed task once; so does the total of the disk space usage.
  pub read_rows-IsComplete :
      (rs : List (UsageRow F))
      → All IsRegular rs
      → (t : Statistics F) × (read_rows floats rs (no_statistics floats) ≡ some t)
        × IsComplete (length rs) t
  read_rows-IsComplete rs reg =
      let (t, e, h) = read_rows_from-IsComplete rs 0 (no_statistics floats) reg (record {
        rows = refl;
        durations = refl;
        cpu_rates = refl;
        disk_io = refl;
        disk_space = refl;
        ispc = refl;
        mai = refl;
        space_total = refl;
      }) in
      (t, e, subst (λ m. IsComplete m t) (omega arith) h)
