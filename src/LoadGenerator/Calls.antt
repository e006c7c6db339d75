-- ===== src/LoadGenerator/Calls.antt =====
-- How many calls a benchmark of src/include/smf/load_generator.h makes.
use smurf.Prelude.{ℕ, sum_by}
use smurf.LoadGenerator.{Benchmark}
use smurf.LoadGenerator.Count.{ended_of, failed_of}

-- The loops that ended, and those that did by an exception
abbrev pub all_ended : Benchmark → ℕ
all_ended b = sum_by ended_of b.channels

abbrev pub all_failed : Benchmark → ℕ
all_failed b = sum_by failed_of b.channels
