-- ===== src/Examples/Usages.antt =====
-- Two rows of a task usage file, one of them with an empty field; the floats are numbers.
use cse.Prelude.{Bool, ℕ, ◌+◌, ◌/◌, ◌≡◌, refl, ◌==◌, List, [], ◌∷◌, some}
use cse.Usage.{Floats, UsageRow, incomplete, task, Statistics, no_statistics, read_rows}
use cse.Usage.Totals.{IsComplete, read_rows-IsComplete}

abbrev numbers : Floats ℕ
numbers = record {
  same = λ a b. a == b;
  negative = λ n. Bool.false;
  zero_float = 0;
  infinity = 1000;
  of_int = λ n. n;
  add = λ a b. a + b;
  divide = λ a b. a / b;
  log_bucket = λ n. n / 10;
  rate_bucket = λ n. n;
}

abbrev rows : List (UsageRow ℕ)
rows =
    task (record {
      start_time = 600;
      end_time = 900;
      cpu_usage = 2;
      disk_io_time = 3;
      local_disk_space_usage = 0;
      cycles_per_instruction = 4;
      memory_accesses_per_instruction = 1;
      aggregation_type = 1;
    })
    ∷ incomplete
    ∷ []

read_rows-IsComplete_example :
    (t : Statistics ℕ) × (read_rows numbers rows (no_statistics numbers) ≡ some t) × IsComplete 2 t
read_rows-IsComplete_example = read_rows-IsComplete numbers rows (refl, (tt, tt))
