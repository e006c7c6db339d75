-- ===== src/Tests/Load.antt =====
-- An instance of the theorem on the load generator: five requests over two channels.
use smurf.Prelude.{ℕ, ◌^◌, true, false, List, [], ◌∷◌}
use smurf.LoadGenerator.{Args, Benchmark, Event, launch, returned, launched}

abbrev two_channels : Args
two_channels = record { num_of_req = 5; concurrency = 2; memory_per_core = 2 ^ 25 }

abbrev calling : List (ℕ × Event)
calling =
    (0, launch 100)
    ∷ (1, launch 20)
    ∷ (1, returned true)
    ∷ (1, launch 30)
    ∷ (0, returned true)
    ∷ (1, returned true)
    ∷ (0, launch 200)
    ∷ (0, returned true)
    ∷ []

abbrev begun : Benchmark
begun =
    launched 7 two_channels 2 (record { left = 2; waits = false; ended = false; failed = false })
