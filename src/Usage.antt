-- ===== src/Usage.antt =====
-- The loop of project/src/usage.py over the rows of the task usage files, and its histograms. The
-- floats of the script, with what it computes of them, are the parameter `Floats`.
pub mod Totals
use cse.Prelude.{
  ℕ, ◌+◌, ◌-◌, Bool, List, [], ◌∷◌, Option, some, none, if◌then◌else◌, ltb, leb, ◌||◌, ◌==◌,
}
use cse.Dict.{add_one}

-- The floats: equality, the test for negative ones, zero, infinity, sums and quotients, and the two roundings,
-- floor(log(x) / log(10)) and floor(x * 1000) / 1000.
pub record Floats (F : Type 0) : Type 0 where
  pub same : F → F → Bool
  pub negative : F → Bool
  pub zero_float : F
  pub infinity : F
  pub of_int : ℕ → F
  pub add : F → F → F
  pub divide : F → F → F
  pub log_bucket : F → F
  pub rate_bucket : F → F

-- The fields that the loop uses, with times and an aggregation type that are not negative.
pub record Task (F : Type 0) : Type 0 where
  pub start_time : ℕ
  pub end_time : ℕ
  pub cpu_usage : F
  pub disk_io_time : F
  pub local_disk_space_usage : F
  pub cycles_per_instruction : F
  pub memory_accesses_per_instruction : F
  pub aggregation_type : ℕ

-- A row with an empty field, or a task.
pub data UsageRow (F : Type 0) : Type 0 where
  incomplete : UsageRow F
  task : Task F → UsageRow F

pub record Statistics (F : Type 0) : Type 0 where
  pub discarded_tasks : ℕ
  pub tasks_processed : ℕ
  pub task_duration_distribution : List (F × ℕ)
  pub total_task_durations : ℕ
  pub cpu_rate_distribution : List (F × ℕ)
  pub total_cpu_rate : F
  pub disk_io_distribution : List (F × ℕ)
  pub total_disk_io : F
  pub disk_space_usage_distribution : List (F × ℕ)
  pub total_disk_space_usage : ℕ
  pub ispc_distribution : List (F × ℕ)
  pub total_ispc : F
  pub mai_distribution : List (F × ℕ)
  pub total_mai : F
  pub aggregation_tasks : ℕ

module _ {F : Type 0} (floats : Floats F) where
  abbrev pub no_statistics : Statistics F
  no_statistics = record {
    discarded_tasks = 0;
    tasks_processed = 0;
    task_duration_distribution = [];
    total_task_durations = 0;
    cpu_rate_distribution = [];
    total_cpu_rate = floats.zero_float;
    disk_io_distribution = [];
    total_disk_io = floats.zero_float;
    disk_space_usage_distribution = [];
    total_disk_space_usage = 0;
    ispc_distribution = [];
    total_ispc = floats.zero_float;
    mai_distribution = [];
    total_mai = floats.zero_float;
    aggregation_tasks = 0;
  }

  -- The bucket of a quantity: by its logarithm, or infinity for zero.
  abbrev pub bucket : F → F
  bucket x = if floats.same x floats.zero_float then floats.infinity else floats.log_bucket x

  -- A row that raises no exception.
  unfoldable pub collect : Task F → Statistics F → Statistics F
  collect t s =
      let duration = t.end_time - t.start_time in
      let disk_percent = floats.divide t.disk_io_time (floats.of_int duration) in
      let ispc = floats.divide (floats.of_int duration) t.cycles_per_instruction in
      record s {
        tasks_processed = s.tasks_processed + 1;
        task_duration_distribution =
            add_one floats.same (floats.log_bucket (floats.of_int duration))
              s.task_duration_distribution;
        total_task_durations = s.total_task_durations + duration;
        cpu_rate_distribution =
            add_one floats.same (floats.rate_bucket t.cpu_usage) s.cpu_rate_distribution;
        total_cpu_rate = floats.add s.total_cpu_rate t.cpu_usage;
        disk_io_distribution = add_one floats.same (bucket disk_percent) s.disk_io_distribution;
        total_disk_io = floats.add s.total_disk_io t.disk_io_time;
        disk_space_usage_distribution =
            add_one floats.same (bucket t.local_disk_space_usage) s.disk_space_usage_distribution;
        total_disk_space_usage = s.total_disk_space_usage + 1;
        ispc_distribution = add_one floats.same (bucket ispc) s.ispc_distribution;
        total_ispc = floats.add s.total_ispc ispc;
        mai_distribution =
            add_one floats.same (bucket t.memory_accesses_per_instruction) s.mai_distribution;
        total_mai = floats.add s.total_mai t.memory_accesses_per_instruction;
        aggregation_tasks = s.aggregation_tasks + t.aggregation_type;
      }

  -- The exceptions: a duration that is negative or 0, a division by zero cycles, and the logarithms of
  -- negative numbers.
  abbrev pub raises : Task F → Bool
  raises t =
      let duration = t.end_time - t.start_time in
      leb t.end_time t.start_time
      || (floats.same t.cycles_per_instruction floats.zero_float
          || (floats.negative (floats.divide t.disk_io_time (floats.of_int duration))
              || (floats.negative t.local_disk_space_usage
                  || (floats.negative
                        (floats.divide (floats.of_int duration) t.cycles_per_instruction)
                      || floats.negative t.memory_accesses_per_instruction))))

  -- The body of the loop; `none` is an exception, which ends the script.
  unfoldable pub read_row : UsageRow F → Statistics F → Option (Statistics F)
  unfolding collect
  read_row incomplete s = some (record s { discarded_tasks = s.discarded_tasks + 1 })
  read_row (task t) s = if raises t then none else some (collect t s)

  abbrev pub with_row :
      Option (Statistics F) → (Statistics F → Option (Statistics F)) → Option (Statistics F)
  with_row none rest = none
  with_row (some s) rest = rest s

  unfoldable pub read_rows : List (UsageRow F) → Statistics F → Option (Statistics F)
  unfolding read_row
  read_rows [] s = some s
  read_rows (r ∷ rs) s = with_row (read_row r s) (read_rows rs)
